-- ===== src/Camera/Link/Delivery.antt =====
-- What the producer writes is what a reader takes, where nothing comes between.
use plank.Common.{
  ℕ, ◌+◌, ◌-◌, ◌*◌, ◌/◌, ◌%◌, ◌≤◌, ◌<◌, ◌≡◌, ◌≢◌, refl, ap, ◌∙◌, arith, true, false, ◌||◌, ltb, leb,
  ◌==◌, if◌then◌else◌,
}
use plank.Camera.Link.{
  Link, frame, Outputs, slot_count, max_age_ns, int64_max, word_count, word_at, fill_slot,
  write_timed, load_words, bad_record, take, read_timed,
}
use plank.Camera.Link.Words.{fill_slot_lem, copied_byte}

-- The link after a write that is taken.
abbrev written : Link → ℕ → (ℕ → ℕ) → ℕ → ℕ → ℕ → Link
written link serial bytes size host_time arrived = record link {
  slots = λ k.
      if k == serial % slot_count
      then fill_slot (serial + 1) bytes size host_time arrived (link.slots (serial % slot_count))
      else link.slots k;
  published = serial + 1;
}

write_parts :
    (link : Link) (serial : ℕ) (bytes : ℕ → ℕ) (size host_time arrived : ℕ)
    → (write_timed link serial true bytes size host_time arrived).0 ≡ true
    → ((write_timed link serial true bytes size host_time arrived).2
        ≡ written link serial bytes size host_time arrived)
      × (64 < size)
      × (size ≤ 64 + 4_194_304)
      × (host_time ≢ 0)
      × (arrived ≢ 0)
      × (serial + 1 < 0x7fff_ffff_ffff_ffff)
unfolding write_timed
write_parts link serial bytes size host_time arrived e = ground arith

slot_written :
    (link : Link) (serial : ℕ) (bytes : ℕ → ℕ) (size host_time arrived : ℕ)
    → (written link serial bytes size host_time arrived).slots (serial % slot_count)
      ≡ fill_slot (serial + 1) bytes size host_time arrived (link.slots (serial % slot_count))
slot_written link serial bytes size host_time arrived = ground arith

take_whole :
    (next stamp count time arrived capacity : ℕ) (copied : ℕ → ℕ) (again now : ℕ) (o : Outputs)
    → stamp ≡ next * 2
    → again ≡ next * 2
    → bad_record count capacity time arrived now ≡ false
    → take next stamp count time arrived capacity copied again true now o
      ≡ (frame, record o { bytes = copied; size = count; host_time = time; arrival = arrived })
unfolding take
take_whole next stamp count time arrived capacity copied again now o first second good =
    ground arith

read_whole :
    (link : Link) (serial capacity now : ℕ) (o : Outputs)
    → o.cursor ≡ serial
    → link.published ≡ serial + 1
    → serial + 1 < 0x7fff_ffff_ffff_ffff
    → let s = link.slots (serial % slot_count) in
      s.stamp ≡ (serial + 1) * 2
      → bad_record s.size capacity s.host_time s.arrived now ≡ false
      → read_timed (λ t. link) true capacity true now o ≡ (
        frame,
        record {
          cursor = serial + 1;
          bytes = load_words (λ t. link) (serial % slot_count) s.size 0 (word_count s.size) o.bytes;
          size = s.size;
          host_time = s.host_time;
          arrival = s.arrived;
        },
      )
unfolding read_timed load_words
read_whole link serial capacity now o here next few stamped good =
    let s = link.slots (serial % slot_count) in
    let taken =
      take_whole (serial + 1) s.stamp s.size s.host_time s.arrived capacity
        (load_words (λ t. link) (serial % slot_count) s.size 0 (word_count s.size) o.bytes) s.stamp
        now (record o { cursor = serial + 1; size = 0; host_time = 0 }) stamped stamped good in
    let moves : (serial + 1 == serial) ≡ false = ground arith in
    let ahead : (ltb (serial + 1) serial || leb (0xffff_ffff_ffff_ffff / 2) (serial + 1)) ≡ false =
      ground (arith, few) in
    let near : ltb slot_count (serial + 1 - serial) ≡ false = ground arith in
    rw (here, next, moves, ahead, near) taken

-- A record that is written is what a read gives, to a reader whose cursor stands at the serial number
-- and has room, within 150 ms of its arrival and of its time, which is at most 100 ms ahead: the
-- record's bytes, its size and its times; the bytes behind it stay as they were.
pub delivery :
    (link : Link) (serial : ℕ) (bytes : ℕ → ℕ) (size host_time arrived capacity now : ℕ)
    (o : Outputs)
    → (write_timed link serial true bytes size host_time arrived).0 ≡ true
    → o.cursor ≡ serial
    → size ≤ capacity
    → arrived ≤ now
    → now ≤ arrived + max_age_ns
    → host_time ≤ int64_max
    → host_time ≤ now + 100_000_000
    → now ≤ host_time + max_age_ns
    → let next = (write_timed link serial true bytes size host_time arrived).2 in
      let (found, out) = read_timed (λ t. next) true capacity true now o in
      (found ≡ frame)
      × (out.cursor ≡ serial + 1)
      × (out.size ≡ size)
      × (out.host_time ≡ host_time)
      × (out.arrival ≡ arrived)
      × ((k : ℕ) → out.bytes k ≡ (if ltb k size then bytes k else o.bytes k))
unfolding bad_record
delivery link serial bytes size host_time arrived capacity now o taken here room came fresh signed
      soon late =
    let (same, long, few, timed, came_at, serial_left) =
      write_parts link serial bytes size host_time arrived taken in
    let next = written link serial bytes size host_time arrived in
    let index = serial % slot_count in
    let (stamp, z, h, a, words) =
      fill_slot_lem (serial + 1) bytes size host_time arrived (link.slots index) in
    let slot = slot_written link serial bytes size host_time arrived in
    let s = next.slots index in
    let stamp1 : s.stamp ≡ (serial + 1) * 2 = ap (λ x. x.stamp) slot ∙ stamp in
    let z1 : s.size ≡ size = ap (λ x. x.size) slot ∙ z in
    let h1 : s.host_time ≡ host_time = ap (λ x. x.host_time) slot ∙ h in
    let a1 : s.arrived ≡ arrived = ap (λ x. x.arrived) slot ∙ a in
    let words1 : (w : ℕ) → w < word_count size → s.words w ≡ word_at bytes size (8 * w) =
      λ w below. ap (λ x. x.words w) slot ∙ words w below in
    let good : bad_record s.size capacity s.host_time s.arrived now ≡ false =
      rw (z1, h1, a1) (ground arith) in
    rw (same, read_whole next serial capacity now o here refl serial_left stamp1 good)
      (refl, refl, z1, h1, a1, λ k. rw z1 (copied_byte next index size k bytes o.bytes words1))
