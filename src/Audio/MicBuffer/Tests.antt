-- ===== src/Audio/MicBuffer/Tests.antt =====
-- Runs of the history, and its theorems at concrete frames. A sample is a number here.
use plank.Common.{
  ℕ, ◌+◌, ◌%◌, ◌≡◌, refl, arith, true, false, ltb, ◌==◌, if◌then◌else◌, some, [], ◌∷◌, min,
  Bool-cases, inl, inr,
}
use plank.Audio.MicBuffer.{
  Float, Buffer, init, write, clear_stamp, all_finite, read, read_from, read_slot,
}
use plank.Audio.MicBuffer.Written.{clamped_frames, write-read}
use plank.Audio.MicBuffer.Concurrent.{Slot, resting, cleared, begins, Steps, here, more, IsValid}
use plank.Audio.MicBuffer.Heard.{IsHeard, read_untorn}

abbrev numbers : Float ℕ
numbers = record { silence = 0; is_finite = λ x. ltb x 100; clamp = λ x. min 50 x }

abbrev heard_samples : ℕ → ℕ × ℕ
heard_samples i = (i + 10, i + 60)

samples_taken : (write numbers 8190 (some heard_samples) 4 (init numbers)).0 ≡ true
unfolding write init all_finite
samples_taken = refl

init_even : (init numbers).generation % 2 ≡ 0
unfolding init
init_even = refl

write-read_example :
    read numbers (λ t. (write numbers 8190 (some heard_samples) 4 (init numbers)).1) 8190 true 4
    ≡ (true, some (clamped_frames numbers heard_samples 0 4))
write-read_example = write-read numbers 8190 heard_samples 4 (init numbers) init_even samples_taken

-- Position 5 is written; before the third load of its slot the producer begins position 8197 there.
abbrev pair : ℕ → ℕ × ℕ
pair position = (position, position + 1)

abbrev empty : Slot ℕ
empty = record { sample = record { frame = 0; bits = (0, 0) }; phase = resting; bound = 0 }

abbrev written : Slot ℕ
written = record { sample = record { frame = 6; bits = (5, 6) }; phase = resting; bound = 6 }

abbrev overtaken : Slot ℕ
overtaken = record {
  sample = record { frame = 0; bits = (5, 6) };
  phase = cleared 8197;
  bound = 8198;
}

abbrev history : ℕ → ℕ → Slot ℕ
history t k = if k == 5 then if ltb t 4 then written else overtaken else empty

abbrev memory : ℕ → Buffer ℕ
memory t = record { generation = 2; first_frame = 0; samples = λ k. (history t k).sample }

overtakes : Steps pair written overtaken
unfolding clear_stamp
overtakes =
    more written overtaken overtaken (begins written 8197 refl (omega arith)) (here overtaken)

slot-Steps : (t next k : ℕ) → next ≡ t + 1 → Steps pair (history t k) (history next k)
slot-Steps t next k e = elim (Bool-cases (k == 5)) [
  | inr other ↦ rw other (here empty)
  | inl this ↦ rw this (elim (Bool-cases (ltb t 4)) [
    | inr late ↦
        let later : ltb next 4 ≡ false = ground (arith, late, e) in
        rw (late, later) (here overtaken)
    | inl soon ↦ elim (Bool-cases (ltb next 4)) [
      | inl still ↦ rw (soon, still) (here written)
      | inr now ↦ rw (soon, now) overtakes
    ]
  ])
]

slot_valid : (k : ℕ) → IsValid pair (history 0 k)
slot_valid k = elim (Bool-cases (k == 5)) [
  | inr other ↦ rw other (λ p e. absurd (omega (arith, e)))
  | inl this ↦ rw this (λ p e. let five : p ≡ 5 = omega (arith, e) in rw five (refl, omega arith))
]

read_untorn_example : IsHeard pair (0, 0) 5 ((0, 0) ∷ [])
unfolding read read_from read_slot
read_untorn_example =
    read_untorn numbers pair memory history 5 true 1 ((0, 0) ∷ [])
      (record { shown = λ t k. refl; valid = slot_valid; steps = slot-Steps }) refl
