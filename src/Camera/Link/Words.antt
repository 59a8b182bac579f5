-- ===== src/Camera/Link/Words.antt =====
-- The words of a record, as a write stores them and a read loads them.
use plank.Common.{
  ℕ, zero, suc, ◌+◌, ◌-◌, ◌*◌, ◌/◌, ◌≤◌, ◌<◌, ◌≡◌, inl, inr, refl, ◌∙◌, arith, true, false, ◌&&◌,
  ltb, leb, ◌==◌, if◌then◌else◌, Bool-cases,
}
use plank.Camera.Link.{
  Slot, Link, word_count, store_word, word_at, store_words, open_slot, store_size, store_host_time,
  store_arrived, close_slot, fill_slot, load_words,
}

store_words_rest :
    (bytes : ℕ → ℕ) (size i n : ℕ) (s : Slot)
    → let next = store_words bytes size i n s in
      (next.size ≡ s.size) × (next.host_time ≡ s.host_time) × (next.arrived ≡ s.arrived)
unfolding store_words store_word
store_words_rest bytes size i zero s = (refl, refl, refl)
store_words_rest bytes size i (suc n) s =
    store_words_rest bytes size (suc i) n (store_word i (word_at bytes size (8 * i)) s)

store_words_before :
    (bytes : ℕ → ℕ) (size i n w : ℕ) (s : Slot)
    → w < i
    → (store_words bytes size i n s).words w ≡ s.words w
unfolding store_words store_word
store_words_before bytes size i zero w s below = refl
store_words_before bytes size i (suc n) w s below =
    let other : (w == i) ≡ false = ground (arith, below) in
    store_words_before bytes size (suc i) n w (store_word i (word_at bytes size (8 * i)) s)
      (omega arith)
    ∙ rw other refl

store_words_at :
    (bytes : ℕ → ℕ) (size i n w : ℕ) (s : Slot)
    → i ≤ w
    → w < i + n
    → (store_words bytes size i n s).words w ≡ word_at bytes size (8 * w)
unfolding store_words store_word
store_words_at bytes size i zero w s low high = absurd (omega arith)
store_words_at bytes size i (suc n) w s low high =
    let next = store_word i (word_at bytes size (8 * i)) s in
    elim (Bool-cases (w == i)) [
      | inl here ↦
          let same : w ≡ i = ground (arith, here) in
          store_words_before bytes size (suc i) n w next (omega (arith, same))
          ∙ rw here (rw same refl)
      | inr later ↦
          store_words_at bytes size (suc i) n w next (ground (arith, later, low)) (omega arith)
    ]

one_word :
    (words : ℕ → ℕ → ℕ) (old i n k count : ℕ)
    → (if leb (8 * suc i) k && ltb k (8 * (suc i + n)) && ltb k count
        then words (k / 8) (k - 8 * (k / 8))
        else (if leb (8 * i) k && ltb k (8 * i + 8) && ltb k count
            then words i (k - 8 * i)
            else old))
      ≡ (if leb (8 * i) k && ltb k (8 * (i + suc n)) && ltb k count
          then words (k / 8) (k - 8 * (k / 8))
          else old)
one_word words old i n k count = elim (Bool-cases (leb (8 * i) k && ltb k (8 * i + 8))) [
  | inl inside ↦ let e : k / 8 ≡ i = ground (arith, inside) in rw e (ground (arith, inside))
  | inr outside ↦ ground (arith, outside)
]

-- A byte that a read has copied, or left alone.
load_words_at :
    (link : Link) (index count i n k : ℕ) (bytes : ℕ → ℕ)
    → load_words (λ t. link) index count i n bytes k ≡ (
        if leb (8 * i) k && ltb k (8 * (i + n)) && ltb k count
        then (link.slots index).words (k / 8) (k - 8 * (k / 8))
        else bytes k)
unfolding load_words
load_words_at link index count i zero k bytes =
    let none_left : (leb (8 * i) k && ltb k (8 * (i + 0)) && ltb k count) ≡ false = ground arith in
    rw none_left refl
load_words_at link index count i (suc n) k bytes =
    let rest = load_words_at link index count (suc i) n k (λ k.
      if leb (8 * i) k && ltb k (8 * i + 8) && ltb k count
      then (link.slots index).words i (k - 8 * i)
      else bytes k) in
    rest ∙ one_word (link.slots index).words (bytes k) i n k count

pub fill_slot_lem :
    (serial : ℕ) (bytes : ℕ → ℕ) (size host_time arrived : ℕ) (s : Slot)
    → let next = fill_slot serial bytes size host_time arrived s in
      (next.stamp ≡ serial * 2)
      × (next.size ≡ size)
      × (next.host_time ≡ host_time)
      × (next.arrived ≡ arrived)
      × ((w : ℕ) → w < word_count size → next.words w ≡ word_at bytes size (8 * w))
unfolding fill_slot close_slot open_slot store_size store_host_time store_arrived
fill_slot_lem serial bytes size host_time arrived s =
    let headed = record s {
      stamp = serial * 2 + 1;
      size = size;
      host_time = host_time;
      arrived = arrived;
    } in
    let (z, h, a) = store_words_rest bytes size 0 (word_count size) headed in
    (
      refl,
      z,
      h,
      a,
      λ w below.
          store_words_at bytes size 0 (word_count size) w headed (omega arith)
            (omega (arith, below)),
    )

pub copied_byte :
    (link : Link) (index size k : ℕ) (bytes old : ℕ → ℕ)
    → ((w : ℕ) → w < word_count size → (link.slots index).words w ≡ word_at bytes size (8 * w))
    → load_words (λ t. link) index size 0 (word_count size) old k
      ≡ (if ltb k size then bytes k else old k)
unfolding word_at
copied_byte link index size k bytes old stored = elim (Bool-cases (ltb k size)) [
  | inr behind ↦
      rw behind (load_words_at link index size 0 (word_count size) k old ∙ ground (arith, behind))
  | inl inside ↦
      let here : (leb (8 * 0) k && ltb k (8 * (0 + word_count size)) && ltb k size) ≡ true =
        ground (arith, inside) in
      let mine = stored (k / 8) (ground (arith, inside)) in
      let whole : 8 * (k / 8) + (k - 8 * (k / 8)) ≡ k = omega arith in
      let low : ltb (k - 8 * (k / 8)) 8 ≡ true = ground arith in
      rw inside (
        load_words_at link index size 0 (word_count size) k old
        ∙ rw (here, mine, low, whole, inside) refl)
]
