-- ===== src/Media/MicDecoder.antt =====
-- microphone-decoder.h: the check of an Opus packet before the platform's decoder sees it, and what is
-- made of its output. A byte is read at an index below the size. What the AudioConverter does is an
-- argument: a call gives `Conversion`.
pub mod Packets
pub mod Decoded
mod Tests
use plank.Common.{
  ℕ, zero, suc, ◌+◌, ◌-◌, ◌*◌, ◌/◌, ◌%◌, ◌^◌, Bool, true, false, not, ◌||◌, ◌&&◌, ltb, leb, ◌==◌,
  ◌!=◌, if◌then◌else◌, Option, none, some, List, get_or, bit_and,
}

abbrev pub packet_frames : ℕ
packet_frames = 480

abbrev pub channels : ℕ
channels = 2

abbrev pub float_size : ℕ
float_size = 4

-- The number of frames that the first bytes of a packet state.
pub frame_count : List ℕ → ℕ → ℕ
frame_count bytes size =
    let code = bit_and (get_or bytes 0 0) 3 in
    if code == 0
    then 1
    else if ltb code 3
    then 2
    else if leb 2 size
    then bit_and (get_or bytes 1 0) 63
    else 0

-- The samples of one of them, from the first byte.
pub frame_samples : ℕ → ℕ
frame_samples toc =
    let n = bit_and (toc / 8) 3 in
    if bit_and toc 128 != 0
    then 120 * 2 ^ n
    else if bit_and toc 96 == 96
    then if bit_and toc 8 != 0 then 960 else 480
    else if n == 3
    then 2880
    else 480 * 2 ^ n

pub packet_valid : Option (List ℕ) → ℕ → Bool
packet_valid none size = false
packet_valid (some bytes) size =
    let toc = get_or bytes 0 0 in
    let frames = frame_count bytes size in
    if size == 0 || ltb 1275 size || bit_and toc 4 == 0
    then false
    else frames != 0 && frames * frame_samples toc == 480

-- PLANKMicOpusProvide: whether the packet is handed out, and that it is supplied afterwards.
pub provide : Bool → Bool × Bool
provide supplied = (not supplied, true)

-- PLANKMicDecoder
pub record Decoder : Type 0 where
  pub has_converter : Bool
  pub priming : Bool

-- The status of a conversion: noErr, the -7777 of `provide`, or another.
pub data Status : Type 0 where
  fine exhausted broken : Status

-- What AudioConverterFillComplexBuffer leaves: `samples` are the floats of the output array.
pub record Conversion (Real : Type 0) : Type 0 where
  pub status : Status
  pub supplied : Bool
  pub frames : ℕ
  pub bytes : ℕ
  pub samples : ℕ → Real

-- `converts` is that AudioConverterNew gives noErr; it sets the converter then.
pub create : Bool → Bool → Decoder → Bool × Decoder
create has_decoder converts d =
    if not has_decoder
    then (false, d)
    else (converts, record { has_converter = converts; priming = true })

pub reset : Bool → Bool → Decoder → Bool × Decoder
reset has_decoder resets d =
    if not has_decoder || not d.has_converter
    then (false, d)
    else (resets, record d { priming = true })

pub destroy : Bool → Decoder → Decoder
destroy has_decoder d =
    if has_decoder && d.has_converter then record d { has_converter = false } else d

abbrev pub is_broken : Status → Bool
is_broken fine = false
is_broken exhausted = false
is_broken broken = true

module _ {Real : Type 0} (is_finite : Real → Bool) (silence : Real) where
  -- The loop over the samples, from index i with n left.
  pub all_finite : (ℕ → Real) → ℕ → ℕ → Bool
  all_finite samples i zero = true
  all_finite samples i (suc n) =
      let rest = all_finite samples (suc i) n in is_finite (samples i) && rest

  -- The memmove and the memset of a short output.
  pub pad_front : ℕ → (ℕ → Real) → ℕ → Real
  pad_front frames samples k =
      let front = (packet_frames - frames) * channels in
      if ltb frames packet_frames && ltb k (packet_frames * channels)
      then if ltb k front then silence else samples (k - front)
      else samples k

  pub bad_conversion : Decoder → Conversion Real → Bool
  bad_conversion d c =
      is_broken c.status
      || not c.supplied
      || c.frames == 0
      || ltb packet_frames c.frames
      || (not d.priming && c.frames != packet_frames)
      || c.bytes != c.frames * channels * float_size

  -- The result, the decoder, and the samples behind the pointer; `before` are those of the call.
  pub decode :
      Bool
      → Decoder
      → Option (List ℕ)
      → ℕ
      → Bool
      → (ℕ → Real)
      → Conversion Real
      → Bool × Decoder × (ℕ → Real)
  decode has_decoder d bytes size has_samples before c =
      let padded = pad_front c.frames c.samples in
      let finite = all_finite padded 0 (packet_frames * channels) in
      if not has_decoder || not d.has_converter || not has_samples || not (packet_valid bytes size)
      then (false, d, before)
      else if bad_conversion d c
      then (false, d, c.samples)
      else (finite, record d { priming = false }, padded)
