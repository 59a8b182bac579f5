-- ===== src/Audio/MicBuffer.antt =====
-- microphone-buffer.h: the history of samples between the producer and the readers of Core Audio. A
-- store of one atomic variable is one step. `samples` is read at an index below `frames`.
pub mod Written
pub mod Concurrent
pub mod Heard
mod Tests
use plank.Common.{
  ℕ, zero, suc, ◌+◌, ◌-◌, ◌*◌, ◌%◌, ◌^◌, Bool, true, false, not, ◌||◌, ◌&&◌, ltb, leb, ◌==◌, ◌!=◌,
  if◌then◌else◌, Option, none, some, List, [], ◌∷◌, is_null,
}
use plank.Common.Bits.{u64}

abbrev pub frames : ℕ
frames = 8192

abbrev pub max_io : ℕ
max_io = 8192

-- The operations on floats: 0.0f, isfinite, and fminf(1, fmaxf(-1, x)).
pub record Float (Real : Type 0) : Type 0 where
  pub silence : Real
  pub is_finite : Real → Bool
  pub clamp : Real → Real

-- `bits` holds the two channels of a frame.
pub record Sample (Real : Type 0) : Type 0 where
  pub frame : ℕ
  pub bits : Real × Real

pub record Buffer (Real : Type 0) : Type 0 where
  pub generation : ℕ
  pub first_frame : ℕ
  pub samples : ℕ → Sample Real

module _ {Real : Type 0} where
  -- The three stores of `write` into one slot.
  pub clear_stamp : Sample Real → Sample Real
  clear_stamp s = record s { frame = 0 }

  pub store_bits : Real × Real → Sample Real → Sample Real
  store_bits bits s = record s { bits = bits }

  pub stamp : ℕ → Sample Real → Sample Real
  stamp position s = record s { frame = position + 1 }

  -- A change of the slot at an index.
  pub at_slot : ℕ → (Sample Real → Sample Real) → Buffer Real → Buffer Real
  at_slot index change b =
      let now = b.samples in
      record b { samples = λ k. if k == index then change (now k) else now k }

  -- The body of the second loop of `write`; the guard keeps the position below 2^64 - 1.
  pub write_slot : ℕ → Real × Real → Buffer Real → Buffer Real
  write_slot position bits b =
      let index = position % frames in
      at_slot index (stamp position) (at_slot index (store_bits bits) (at_slot index clear_stamp b))

  -- The loop that clears the stamps, from index i with n slots left.
  pub clear_from : ℕ → ℕ → Buffer Real → Buffer Real
  clear_from i zero b = b
  clear_from i (suc n) b = clear_from (suc i) n (at_slot i clear_stamp b)

  pub reset : ℕ → Buffer Real → Buffer Real
  reset first_frame b =
      let cleared =
        clear_from 0 frames
          (record b { generation = u64 (b.generation + 1); first_frame = first_frame }) in
      record cleared { generation = u64 (cleared.generation + 1) }

  -- What one slot gives to a reader: the loads of the stamp, the payload and the stamp again.
  pub read_slot : Real × Real → ℕ → ℕ → Real × Real → ℕ → Real × Real
  read_slot silent position before bits after =
      if before == position + 1 && after == before then bits else silent

  -- The loop of `read`, from index i with n frames left. `memory t` is the buffer at the load with the
  -- number t: each turn loads three times.
  pub read_from : Real × Real → (ℕ → Buffer Real) → ℕ → ℕ → ℕ → ℕ → List (Real × Real)
  read_from silent memory first frame i zero = []
  read_from silent memory first frame i (suc n) =
      let position = frame + i in
      let rest = read_from silent memory first frame (suc i) n in
      let index = position % frames in
      let before = ((memory (3 * i + 2)).samples index).frame in
      let bits = ((memory (3 * i + 3)).samples index).bits in
      let after = ((memory (3 * i + 4)).samples index).frame in
      (if ltb position first then silent else read_slot silent position before bits after) ∷ rest

  pub silences : Real × Real → ℕ → List (Real × Real)
  silences silent zero = []
  silences silent (suc n) = silent ∷ silences silent n

module _ {Real : Type 0} (float : Float Real) where
  abbrev pub silent : Real × Real
  silent = (float.silence, float.silence)

  pub init : Buffer Real
  init = record {
    generation = 2;
    first_frame = 0;
    samples = λ k. record { frame = 0; bits = (float.silence, float.silence) };
  }

  -- The first loop of `write`, from index i with n frames left.
  pub all_finite : (ℕ → Real × Real) → ℕ → ℕ → Bool
  all_finite samples i zero = true
  all_finite samples i (suc n) =
      let rest = all_finite samples (suc i) n in
      float.is_finite (samples i).0 && float.is_finite (samples i).1 && rest

  abbrev pub clamped : Real × Real → Real × Real
  clamped (left, right) = (float.clamp left, float.clamp right)

  -- The second loop of `write`, from index i with n frames left.
  pub write_from : ℕ → (ℕ → Real × Real) → ℕ → ℕ → Buffer Real → Buffer Real
  write_from frame samples i zero b = b
  write_from frame samples i (suc n) b =
      write_from frame samples (suc i) n (write_slot (frame + i) (clamped (samples i)) b)

  pub write : ℕ → Option (ℕ → Real × Real) → ℕ → Buffer Real → Bool × Buffer Real
  write frame none count b = (false, b)
  write frame (some samples) count b =
      let finite = all_finite samples 0 count in
      let written = write_from frame samples 0 count b in
      if count == 0 || ltb max_io count || ltb (2 ^ 64 - 1 - count) frame || ltb frame b.first_frame
      then (false, b)
      else if not finite
      then (false, b)
      else (true, written)

  -- The result, and what `read` leaves behind `samples` where it writes there. A load of the reader
  -- sees `memory` at its number: 0 the generation, 1 the first frame, the loop, and the generation again.
  pub read : (ℕ → Buffer Real) → ℕ → Bool → ℕ → Bool × Option (List (Real × Real))
  read memory frame has_samples count =
      let blank = silences (float.silence, float.silence) count in
      let generation = (memory 0).generation in
      let first = (memory 1).first_frame in
      let heard = read_from (float.silence, float.silence) memory first frame 0 count in
      if not has_samples || ltb max_io count
      then (false, none)
      else if ltb (2 ^ 64 - 1 - count) frame
      then (false, some blank)
      else if generation % 2 == 1
      then (true, some blank)
      else if generation != (memory (3 * count + 2)).generation
      then (true, some blank)
      else (true, some heard)
