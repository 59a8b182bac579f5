-- ===== src/Camera/Link/Snapshot.antt =====
-- What a reader takes while the producer writes is one state of the slot.
use plank.Common.{
  ℕ, zero, suc, ◌+◌, ◌-◌, ◌*◌, ◌%◌, ◌≤◌, ◌<◌, ◌≡◌, refl, arith, Bool, ◌&&◌, ltb, leb, if◌then◌else◌,
}
use plank.Camera.Link.{
  Slot, Link, frame, Outputs, slot_count, word_count, load_words, take, read_timed,
}
use plank.Camera.Link.Concurrent.{Steps, here, more, unchanged}

-- The link at each load of a reader: between one load and the next the producer makes any stores.
abbrev pub IsHistory : (ℕ → Link) → Type 0
IsHistory memory =
    (t next k : ℕ) → next ≡ t + 1 → Steps ((memory t).slots k) ((memory next).slots k)

-- The link that a reader sees whose loads all fall where the stamp is loaded, but what is published.
abbrev pub frozen : (ℕ → Link) → Link
frozen memory = record (memory 1) { published = (memory 0).published }

Steps-append : (s middle last : Slot) → Steps s middle → Steps middle last → Steps s last
Steps-append s middle last (here _) after = after
Steps-append s middle last (more _ next _ one rest) after =
    more s next last one (Steps-append next middle last rest after)

Steps-between :
    (memory : ℕ → Link) (k t d last : ℕ)
    → IsHistory memory
    → last ≡ t + d
    → Steps ((memory t).slots k) ((memory last).slots k)
Steps-between memory k t zero last h e =
    let same : t ≡ last = omega (arith, e) in rw same (here ((memory last).slots k))
Steps-between memory k t (suc d) last h e =
    Steps-append ((memory t).slots k) ((memory (t + 1)).slots k) ((memory last).slots k)
      (h t (t + 1) k refl) (Steps-between memory k (t + 1) d last h (omega (arith, e)))

-- Between two loads of the same even stamp the slot is as it was.
slot_kept :
    (memory : ℕ → Link) (k serial t last : ℕ)
    → IsHistory memory
    → 1 ≤ t
    → t ≤ last
    → ((memory 1).slots k).stamp ≡ serial * 2
    → ((memory last).slots k).stamp ≡ serial * 2
    → (memory t).slots k ≡ (memory 1).slots k
slot_kept memory k serial t last h low high e again =
    unchanged serial ((memory 1).slots k) ((memory t).slots k) ((memory last).slots k)
      (Steps-between memory k 1 (t - 1) t h (omega (arith, low)))
      (Steps-between memory k t (last - t) last h (omega (arith, high))) e again

load_words_lem :
    (memory : ℕ → Link) (index count i n : ℕ) (bytes : ℕ → ℕ)
    → ((w : ℕ) → w < i + n → (memory (5 + w)).slots index ≡ (memory 1).slots index)
    → load_words memory index count i n bytes
      ≡ load_words (λ t. frozen memory) index count i n bytes
unfolding load_words
load_words_lem memory index count i zero bytes kept = refl
load_words_lem memory index count i (suc n) bytes kept = rw (kept i (omega arith)) (
    load_words_lem memory index count (suc i) n
      (λ k.
        if leb (8 * i) k && ltb k (8 * i + 8) && ltb k count
        then ((memory 1).slots index).words i (k - 8 * i)
        else bytes k)
      (λ w below. kept w (omega (arith, below))))

take_frame :
    (next stamp count time arrived capacity : ℕ) (copied : ℕ → ℕ) (again : ℕ) (has_arrival : Bool)
    (now : ℕ) (o : Outputs)
    → (take next stamp count time arrived capacity copied again has_arrival now o).0 ≡ frame
    → (stamp ≡ next * 2) × (again ≡ next * 2)
unfolding take
take_frame next stamp count time arrived capacity copied again has_arrival now o e = ground arith

read_frame :
    (memory : ℕ → Link) (has_all : Bool) (capacity : ℕ) (has_arrival : Bool) (now : ℕ) (o : Outputs)
    → (read_timed memory has_all capacity has_arrival now o).0 ≡ frame
    → let index = o.cursor % slot_count in
      let next = o.cursor + 1 in
      let count = ((memory 2).slots index).size in
      (((memory 1).slots index).stamp ≡ next * 2)
      × (((memory (5 + word_count count)).slots index).stamp ≡ next * 2)
unfolding read_timed
read_frame memory has_all capacity has_arrival now o e =
    let index = o.cursor % slot_count in
    let next = o.cursor + 1 in
    let count = ((memory 2).slots index).size in
    take_frame next ((memory 1).slots index).stamp count ((memory 3).slots index).host_time
      ((memory 4).slots index).arrived capacity
      (load_words memory index count 0 (word_count count) o.bytes)
      ((memory (5 + word_count count)).slots index).stamp has_arrival now
      (record o { cursor = next; size = 0; host_time = 0 }) (ground (arith, e))

-- While the producer writes, a read that gives a frame gives what it would have given if all its loads
-- had fallen together, where it first loads the stamp: the record, its size and its times are those of
-- one moment.
pub snapshot :
    (memory : ℕ → Link) (has_all : Bool) (capacity : ℕ) (has_arrival : Bool) (now : ℕ) (o : Outputs)
    → IsHistory memory
    → (read_timed memory has_all capacity has_arrival now o).0 ≡ frame
    → read_timed memory has_all capacity has_arrival now o
      ≡ read_timed (λ t. frozen memory) has_all capacity has_arrival now o
unfolding read_timed
snapshot memory has_all capacity has_arrival now o h e =
    let index = o.cursor % slot_count in
    let next = o.cursor + 1 in
    let count = ((memory 2).slots index).size in
    let last = 5 + word_count count in
    let (first, again) = read_frame memory has_all capacity has_arrival now o e in
    let kept : (t : ℕ) → 1 ≤ t → t ≤ last → (memory t).slots index ≡ (memory 1).slots index =
      λ t low high. slot_kept memory index next t last h low high first again in
    let copied =
      load_words_lem memory index count 0 (word_count count) o.bytes
        (λ w below. kept (5 + w) (omega arith) (omega (arith, below))) in
    rw
      (
        kept last (omega arith) (omega arith),
        copied,
        kept 4 (omega arith) (omega arith),
        kept 3 (omega arith) (omega arith),
        kept 2 (omega arith) (omega arith),
      )
      refl
