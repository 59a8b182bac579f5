-- ===== src/Media/TapBuffer.antt =====
-- audio-tap-buffer.h: the ring between the audio callback, which pushes blocks, and the session
-- queue, which peeks at them and pops them. `Sample` is float, `Position` is double, and `is_finite`
-- is `isfinite`. The atomic fields are plain fields, and each function runs without the other thread in
-- between.
pub mod Contents
pub mod Copy
pub mod Queue
pub mod Reads
pub mod Runs
mod Tests
use plank.Common.{
  ℕ, zero, suc, ◌+◌, ◌-◌, ◌*◌, ◌%◌, ◌^◌, Bool, true, false, not, ◌||◌, ltb, leb, ◌==◌, ◌!=◌,
  if◌then◌else◌, Option, none, some,
}
use plank.Common.Bits.{u32}

abbrev pub slots : ℕ
slots = 16

abbrev pub max_frames : ℕ
max_frames = 8192

-- An array is a function of the index.
pub record Block (Sample Position : Type 0) : Type 0 where
  pub frames : ℕ
  pub host_time : ℕ
  pub callback_time : ℕ
  pub sample_time : Position
  pub samples : ℕ → Sample

pub record Buffer (Sample Position : Type 0) : Type 0 where
  pub read_index : ℕ
  pub write_index : ℕ
  pub failed : ℕ
  pub overruns : ℕ
  pub stopped : Bool
  pub blocks : ℕ → Block Sample Position

abbrev pub update {ℓ} : {A : Type ℓ} → (ℕ → A) → ℕ → A → ℕ → A
update f k a i = if i == k then a else f i

-- The difference of two 32-bit indices.
abbrev pub distance : ℕ → ℕ → ℕ
distance write read = (write + 2 ^ 32 - read) % 2 ^ 32

-- What the audio callback hands over. Without a `right`, `left` holds both channels in turn.
pub record Input (Sample Position : Type 0) : Type 0 where
  pub left : Option (ℕ → Sample)
  pub right : Option (ℕ → Sample)
  pub frames : ℕ
  pub host_time : ℕ
  pub sample_time : Position
  pub callback_time : ℕ

module _ {Sample : Type 0} where
  pub left_sample : (ℕ → Sample) → Option (ℕ → Sample) → ℕ → Sample
  left_sample left none i = left (i * 2)
  left_sample left (some right) i = left i

  pub right_sample : (ℕ → Sample) → Option (ℕ → Sample) → ℕ → Sample
  right_sample left none i = left (i * 2 + 1)
  right_sample left (some right) i = right i

  -- The loop over the frames, with those left and the index: whether every sample was finite, and
  -- what is in the block when the loop ends.
  pub copy :
      (Sample → Bool)
      → (ℕ → Sample)
      → Option (ℕ → Sample)
      → ℕ
      → ℕ
      → (ℕ → Sample)
      → Bool × (ℕ → Sample)
  copy is_finite left right zero i samples = (true, samples)
  copy is_finite left right (suc rest) i samples =
      let l = left_sample left right i in
      let r = right_sample left right i in
      let next =
        copy is_finite left right rest (i + 1) (update (update samples (i * 2) l) (i * 2 + 1) r) in
      if not (is_finite l) || not (is_finite r) then (false, samples) else next

module _ {Sample Position : Type 0} where
  pub init : (ℕ → Block Sample Position) → Buffer Sample Position
  init blocks = record {
    read_index = 0;
    write_index = 0;
    failed = 0;
    overruns = 0;
    stopped = false;
    blocks = blocks;
  }

  pub fill : Input Sample Position → (ℕ → Sample) → Block Sample Position
  fill input samples = record {
    frames = input.frames;
    host_time = input.host_time;
    callback_time = input.callback_time;
    sample_time = input.sample_time;
    samples = samples;
  }

  -- The end of `push`: what the loop left in the slot is there, published or not.
  pub store :
      Buffer Sample Position
      → Input Sample Position
      → Bool
      → (ℕ → Sample)
      → Bool × Buffer Sample Position
  store b input good samples =
      let filled = record b {
        blocks = update b.blocks (b.write_index % slots) (fill input samples);
      } in
      if not good
      then (false, record filled { failed = 1 })
      else (true, record filled { write_index = u32 (b.write_index + 1) })

  pub push :
      (Sample → Bool)
      → Buffer Sample Position
      → Input Sample Position
      → Bool × Buffer Sample Position
  unfolding copy store
  push is_finite b input = elim input.left [
    | none ↦ if b.stopped then (false, b) else (false, record b { failed = 1 })
    | some left ↦
        let slot = b.write_index % slots in
        let (good, samples) =
          copy is_finite left input.right input.frames 0 (b.blocks slot).samples in
        let stored = store b input good samples in
        if b.stopped
        then (false, b)
        else if input.frames == 0 || ltb max_frames input.frames || input.host_time == 0
        then (false, record b { failed = 1 })
        else if leb slots (distance b.write_index b.read_index)
        then (false, record b { overruns = u32 (b.overruns + 1) })
        else stored
  ]

  -- The block that the pointer shows.
  pub peek : Buffer Sample Position → Option (Block Sample Position)
  peek b = if b.read_index == b.write_index then none else some (b.blocks (b.read_index % slots))

  pub pop : Buffer Sample Position → Buffer Sample Position
  pop b = record b { read_index = u32 (b.read_index + 1) }

  pub discard_overrun : Buffer Sample Position → ℕ × Buffer Sample Position
  discard_overrun b =
      if b.overruns != 0
      then (b.overruns, record b { overruns = 0; read_index = b.write_index })
      else (b.overruns, record b { overruns = 0 })
