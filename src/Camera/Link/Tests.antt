-- ===== src/Camera/Link/Tests.antt =====
-- Runs of the link, and its theorems at concrete records.
use plank.Common.{
  ℕ, ◌+◌, ◌≡◌, refl, arith, true, false, ltb, ◌==◌, if◌then◌else◌, Bool-cases, inl, inr,
}
use plank.Camera.Link.{
  Slot, Link, frame, Outputs, init, open_slot, write_timed, read_timed, take, bad_record,
  load_words,
}
use plank.Camera.Link.Concurrent.{Steps, here, more, opens}
use plank.Camera.Link.Snapshot.{IsHistory, frozen, snapshot}
use plank.Camera.Link.Delivery.{delivery}

abbrev outputs : Outputs
outputs = record { cursor = 0; bytes = λ k. 9; size = 0; host_time = 0; arrival = 0 }

taken : (write_timed init 0 true (λ k. k) 65 1000 1000).0 ≡ true
unfolding write_timed
taken = refl

delivery_example :
    let next = (write_timed init 0 true (λ k. k) 65 1000 1000).2 in
    let (found, out) = read_timed (λ t. next) true 100 true 1200 outputs in
    (found ≡ frame)
    × (out.cursor ≡ 1)
    × (out.size ≡ 65)
    × (out.host_time ≡ 1000)
    × (out.arrival ≡ 1000)
    × ((k : ℕ) → out.bytes k ≡ (if ltb k 65 then k else 9))
delivery_example =
    delivery init 0 (λ k. k) 65 1000 1000 100 1200 outputs taken refl (omega arith) (omega arith)
      (omega arith) (omega arith) (omega arith) (omega arith)

-- The first record lies in slot 0; while it is read, the producer begins the second in slot 1.
abbrev first : Slot
first = record { stamp = 2; size = 65; host_time = 1000; arrived = 1000; words = λ w j. w + j }

abbrev unused : Slot
unused = record { stamp = 0; size = 0; host_time = 0; arrived = 0; words = λ w j. 0 }

abbrev opened : Slot
opened = record { stamp = 5; size = 0; host_time = 0; arrived = 0; words = λ w j. 0 }

abbrev memory : ℕ → Link
memory t = record {
  version = 2;
  published = 1;
  key_request = 0;
  slots =
      λ k. if k == 0 then first else if k == 1 then if ltb t 4 then unused else opened else unused;
}

opens_second : Steps unused opened
unfolding open_slot
opens_second = more unused opened opened (opens unused 2 (omega arith)) (here opened)

memory-IsHistory : IsHistory memory
memory-IsHistory t next k e = elim (Bool-cases (k == 0)) [
  | inl zeroth ↦ rw zeroth (here first)
  | inr other ↦ elim (Bool-cases (k == 1)) [
    | inr third ↦ rw (other, third) (here unused)
    | inl second ↦ elim (Bool-cases (ltb t 4)) [
      | inr late ↦
          let later : ltb next 4 ≡ false = ground (arith, late, e) in
          rw (other, second, late, later) (here opened)
      | inl soon ↦ elim (Bool-cases (ltb next 4)) [
        | inl still ↦ rw (other, second, soon, still) (here unused)
        | inr now ↦ rw (other, second, soon, now) opens_second
      ]
    ]
  ]
]

gives_frame : (read_timed memory true 100 true 1200 outputs).0 ≡ frame
unfolding read_timed take bad_record load_words
gives_frame = refl

snapshot_example :
    read_timed memory true 100 true 1200 outputs
    ≡ read_timed (λ t. frozen memory) true 100 true 1200 outputs
snapshot_example = snapshot memory true 100 true 1200 outputs memory-IsHistory gives_frame
