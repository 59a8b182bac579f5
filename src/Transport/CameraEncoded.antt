-- ===== src/Transport/CameraEncoded.antt =====
-- plank_transport_camera_encoded.h: the header of a camera record of version 2. A pointer is an
-- `Option`, and `decode` returns whether it succeeded beside what `*header` is then.
pub mod RoundTrip
pub mod Sound
mod Tests
use plank.Common.{
  ℕ, ◌+◌, ◌-◌, ◌/◌, Bool, true, false, not, ◌||◌, ◌&&◌, ltb, leb, ◌==◌, ◌!=◌, if◌then◌else◌, Option,
  none, some, List, [], ◌∷◌, get_or, replicate, copy_to, bit_and,
}
use plank.Transport.BigEndian.{read_u16, read_u32, write_u16, write_u32}
use plank.Transport.Camera.{
  header_bytes, max_frame_bytes, h264, uint64_max, int64_max, tag, read_u64, write_u64,
}

pub record Header : Type 0 where
  pub generation : ℕ
  pub sequence : ℕ
  pub capture_time_us : ℕ
  pub codec : ℕ
  pub platform : ℕ
  pub encoder : ℕ
  pub source_pixel_format : ℕ
  pub width : ℕ
  pub height : ℕ
  pub nominal_fps : ℕ
  pub flags : ℕ
  pub primaries : ℕ
  pub transfer : ℕ
  pub matrix : ℕ
  pub range : ℕ

abbrev pub zero_header : Header
zero_header = record {
  generation = 0;
  sequence = 0;
  capture_time_us = 0;
  codec = 0;
  platform = 0;
  encoder = 0;
  source_pixel_format = 0;
  width = 0;
  height = 0;
  nominal_fps = 0;
  flags = 0;
  primaries = 0;
  transfer = 0;
  matrix = 0;
  range = 0;
}

-- The only platform, encoder, pixel format, colour and range of this version.
abbrev pub macos : ℕ
macos = 1

abbrev pub videotoolbox_hardware : ℕ
videotoolbox_hardware = 1

abbrev pub nv12 : ℕ
nv12 = 1

abbrev pub bt709 : ℕ
bt709 = 1

abbrev pub limited_range : ℕ
limited_range = 1

pub header_valid : Header → ℕ → Bool
header_valid h payload =
    payload != 0
    && leb payload max_frame_bytes
    && h.generation != 0
    && h.sequence != uint64_max
    && h.capture_time_us != 0
    && leb h.capture_time_us (int64_max / 1000)
    && h.codec == h264
    && h.width == 1280
    && h.height == 720
    && not (bit_and h.flags 0xffff_fffc != 0)
    && h.platform == macos
    && h.encoder == videotoolbox_hardware
    && h.source_pixel_format == nv12
    && h.primaries == bt709
    && h.transfer == bt709
    && h.matrix == bt709
    && h.range == limited_range
    && h.nominal_fps == 30

pub write_header : Header → List ℕ → List ℕ
write_header h out =
    let cleared = copy_to out 0 (replicate header_bytes 0) in
    let tagged = copy_to cleared 0 tag in
    let versioned = copy_to tagged 4 (2 ∷ []) in
    let flagged = copy_to versioned 5 (h.flags ∷ []) in
    let sized = copy_to flagged 7 (header_bytes ∷ []) in
    let with_generation = write_u64 sized 8 h.generation in
    let with_sequence = write_u64 with_generation 16 h.sequence in
    let with_time = write_u64 with_sequence 24 h.capture_time_us in
    let with_codec = write_u32 with_time 32 h.codec in
    let with_width = write_u16 with_codec 36 h.width in
    let with_height = write_u16 with_width 38 h.height in
    let with_platform = write_u32 with_height 40 h.platform in
    let with_encoder = write_u32 with_platform 44 h.encoder in
    let with_format = write_u32 with_encoder 48 h.source_pixel_format in
    let with_primaries = copy_to with_format 52 (h.primaries ∷ []) in
    let with_transfer = copy_to with_primaries 53 (h.transfer ∷ []) in
    let with_matrix = copy_to with_transfer 54 (h.matrix ∷ []) in
    let with_range = copy_to with_matrix 55 (h.range ∷ []) in write_u16 with_range 56 h.nominal_fps

-- `none` is the return value -1, which leaves the output alone.
pub encode : Option Header → ℕ → Option (List ℕ) → ℕ → Option (List ℕ)
encode none payload out capacity = none
encode (some h) payload none capacity = none
encode (some h) payload (some out) capacity =
    if ltb capacity header_bytes || not (header_valid h payload)
    then none
    else some (write_header h out)

pub read_header : List ℕ → Header
read_header bytes = record {
  flags = get_or bytes 5 0;
  generation = read_u64 bytes 8;
  sequence = read_u64 bytes 16;
  capture_time_us = read_u64 bytes 24;
  codec = read_u32 bytes 32;
  width = read_u16 bytes 36;
  height = read_u16 bytes 38;
  platform = read_u32 bytes 40;
  encoder = read_u32 bytes 44;
  source_pixel_format = read_u32 bytes 48;
  primaries = get_or bytes 52 0;
  transfer = get_or bytes 53 0;
  matrix = get_or bytes 54 0;
  range = get_or bytes 55 0;
  nominal_fps = read_u16 bytes 56;
}

-- The tests of `decode` on the bytes that are no field.
pub bad_frame : List ℕ → ℕ → Bool
bad_frame bytes size =
    leb size header_bytes
    || ltb (header_bytes + max_frame_bytes) size
    || get_or bytes 0 0 != 0x50
    || get_or bytes 1 0 != 0x43
    || get_or bytes 2 0 != 0x41
    || get_or bytes 3 0 != 0x4d
    || get_or bytes 4 0 != 2
    || get_or bytes 6 0 != 0
    || get_or bytes 7 0 != header_bytes
    || read_u16 bytes 58 != 0
    || read_u32 bytes 60 != 0

-- The result and what `*header` is then. The target is cleared first, and a failure leaves it so.
pub decode : Option (List ℕ) → ℕ → Option Header → Bool × Option Header
decode bytes size none = (false, none)
decode none size (some old) = (false, some zero_header)
decode (some bytes) size (some old) =
    let h = read_header bytes in
    if bad_frame bytes size
    then (false, some zero_header)
    else if not (header_valid h (size - header_bytes))
    then (false, some zero_header)
    else (true, some h)
