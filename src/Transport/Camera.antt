-- ===== src/Transport/Camera.antt =====
-- plank_transport_camera.h: the header of a camera record (PCAM version 1) and the camera commands of
-- the control lane. A pointer is an `Option`, and a call returns whether it succeeded (the return
-- value 0) beside what its output pointers show.
pub mod Words
pub mod RoundTrip
pub mod Sound
pub mod Commands
mod Tests
use plank.Common.{
  ℕ, ◌+◌, ◌-◌, ◌*◌, ◌/◌, ◌%◌, ◌^◌, Bool, true, false, not, ◌||◌, ◌&&◌, ltb, leb, ◌==◌, ◌!=◌,
  if◌then◌else◌, Option, none, some, List, [], ◌∷◌, get_or, replicate, copy_to, is_null, bit_and,
  bit_or,
}
use plank.Common.Bits.{u32}
use plank.Transport.BigEndian.{read_u16, read_u32, write_u16, write_u32}
use plank.Transport.Control

abbrev pub header_bytes : ℕ
header_bytes = 64

abbrev pub max_frame_bytes : ℕ
max_frame_bytes = 4 * 1024 * 1024

abbrev pub h264 : ℕ
h264 = 0x48323634

abbrev pub mjpeg : ℕ
mjpeg = 0x4d4a5047

abbrev pub key_frame : ℕ
key_frame = 1

abbrev pub uint64_max : ℕ
uint64_max = 2 ^ 64 - 1

abbrev pub int64_max : ℕ
int64_max = 2 ^ 63 - 1

pub record Header : Type 0 where
  pub generation : ℕ
  pub sequence : ℕ
  pub capture_time_us : ℕ
  pub codec : ℕ
  pub colorspace : ℕ
  pub transfer : ℕ
  pub ycbcr : ℕ
  pub quantization : ℕ
  pub driver_sequence : ℕ
  pub width : ℕ
  pub height : ℕ
  pub flags : ℕ

abbrev pub zero_header : Header
zero_header = record {
  generation = 0;
  sequence = 0;
  capture_time_us = 0;
  codec = 0;
  colorspace = 0;
  transfer = 0;
  ycbcr = 0;
  quantization = 0;
  driver_sequence = 0;
  width = 0;
  height = 0;
  flags = 0;
}

unfoldable pub header_valid : Header → ℕ → Bool
header_valid h payload_size =
    payload_size != 0
    && leb payload_size max_frame_bytes
    && h.generation != 0
    && h.sequence != uint64_max
    && h.capture_time_us != 0
    && leb h.capture_time_us (int64_max / 1000)
    && (h.codec == h264 || h.codec == mjpeg)
    && ((h.width == 1280 && h.height == 720) || (h.width == 1920 && h.height == 1080))
    && not (bit_and h.flags 0xffff_fffc != 0)
    && (h.codec != mjpeg || bit_and h.flags key_frame != 0)
    && leb h.colorspace 12
    && leb h.transfer 7
    && leb h.ycbcr 8
    && leb h.quantization 2

-- `high << 32 | low`
unfoldable pub join_u64 : ℕ → ℕ → ℕ
join_u64 high low = bit_or (high * 2 ^ 32) low

unfoldable pub read_u64 : List ℕ → ℕ → ℕ
read_u64 bytes at = join_u64 (read_u32 bytes at) (read_u32 bytes (at + 4))

unfoldable pub write_u64 : List ℕ → ℕ → ℕ → List ℕ
write_u64 bytes at value =
    write_u32 (write_u32 bytes at (u32 (value / 2 ^ 32))) (at + 4) (u32 value)

-- "PCAM"
abbrev pub tag : List ℕ
tag = 0x50 ∷ 0x43 ∷ 0x41 ∷ 0x4d ∷ []

pub write_header : Header → List ℕ → List ℕ
write_header h output =
    let cleared = copy_to output 0 (replicate header_bytes 0) in
    let tagged = copy_to cleared 0 tag in
    let versioned = copy_to tagged 4 (1 ∷ []) in
    let flagged = copy_to versioned 5 (h.flags ∷ []) in
    let sized = copy_to flagged 7 (header_bytes ∷ []) in
    let with_generation = write_u64 sized 8 h.generation in
    let with_sequence = write_u64 with_generation 16 h.sequence in
    let with_time = write_u64 with_sequence 24 h.capture_time_us in
    let with_codec = write_u32 with_time 32 h.codec in
    let with_width = write_u16 with_codec 36 h.width in
    let with_height = write_u16 with_width 38 h.height in
    let with_colorspace = write_u32 with_height 40 h.colorspace in
    let with_transfer = write_u32 with_colorspace 44 h.transfer in
    let with_ycbcr = write_u32 with_transfer 48 h.ycbcr in
    let with_quantization = write_u32 with_ycbcr 52 h.quantization in
    write_u32 with_quantization 56 h.driver_sequence

-- `none` is the return value -1, which leaves the output alone.
pub encode : Option Header → ℕ → Option (List ℕ) → ℕ → Option (List ℕ)
encode none payload_size output capacity = none
encode (some h) payload_size none capacity = none
encode (some h) payload_size (some output) capacity =
    if ltb capacity header_bytes || not (header_valid h payload_size)
    then none
    else some (write_header h output)

pub read_header : List ℕ → Header
read_header bytes = record {
  flags = get_or bytes 5 0;
  generation = read_u64 bytes 8;
  sequence = read_u64 bytes 16;
  capture_time_us = read_u64 bytes 24;
  codec = read_u32 bytes 32;
  width = read_u16 bytes 36;
  height = read_u16 bytes 38;
  colorspace = read_u32 bytes 40;
  transfer = read_u32 bytes 44;
  ycbcr = read_u32 bytes 48;
  quantization = read_u32 bytes 52;
  driver_sequence = read_u32 bytes 56;
}

-- The tests of `decode` on the bytes that are no field.
pub bad_frame : List ℕ → ℕ → Bool
bad_frame bytes size =
    leb size header_bytes
    || ltb (header_bytes + max_frame_bytes) size
    || get_or bytes 0 0 != 0x50
    || get_or bytes 1 0 != 0x43
    || get_or bytes 2 0 != 0x41
    || get_or bytes 3 0 != 0x4d
    || get_or bytes 4 0 != 1
    || get_or bytes 6 0 != 0
    || get_or bytes 7 0 != header_bytes
    || read_u32 bytes 60 != 0

-- The result and what `*header` is then. The target is cleared first, and a failure leaves it so.
pub decode : Option (List ℕ) → ℕ → Option Header → Bool × Option Header
decode bytes size none = (false, none)
decode none size (some old) = (false, some zero_header)
decode (some bytes) size (some old) =
    let value = read_header bytes in
    if bad_frame bytes size
    then (false, some zero_header)
    else if not (header_valid value (size - header_bytes))
    then (false, some zero_header)
    else (true, some value)

-- A command of the control lane; `payload` is `none` for a null pointer.
pub record Command : Type 0 where
  pub packet_type : ℕ
  pub payload : Option (List ℕ)
  pub payload_size : ℕ

abbrev pub set_camera : ℕ
set_camera = 10

abbrev pub camera_applied : ℕ
camera_applied = 11

abbrev pub camera_keyframe : ℕ
camera_keyframe = 12

abbrev pub camera_enabled : ℕ
camera_enabled = 1

abbrev pub camera_unavailable : ℕ
camera_unavailable = 3

-- What the two output pointers show.
pub record Outputs : Type 0 where
  pub generation : ℕ
  pub value : ℕ

-- With no null pointer: both outputs are cleared first, and a failure leaves them so.
pub decode_command : ℕ → List ℕ → ℕ → Bool × Outputs
decode_command type payload payload_size =
    let cleared : Outputs = record { generation = 0; value = 0 } in
    let command = read_u64 payload 0 in
    let state = if payload_size == 12 then read_u32 payload 8 else 0 in
    if (type != set_camera && type != camera_applied && type != camera_keyframe)
      || payload_size != (if type == camera_keyframe then 8 else 12)
    then (false, cleared)
    else if command == 0
        || command == uint64_max
        || (type == set_camera && ltb camera_enabled state)
        || (type == camera_applied && ltb camera_unavailable state)
    then (false, cleared)
    else (true, record { generation = command; value = state })

-- `outputs` is `none` if one of the output pointers is null.
pub control_decode : Option Command → Option Outputs → Bool × Option Outputs
unfolding decode_command
control_decode none outputs = (false, outputs)
control_decode (some packet) none = (false, none)
control_decode (some packet) (some old) = elim packet.payload [
  | none ↦ (false, some old)
  | some payload ↦
      let (good, new) = decode_command packet.packet_type payload packet.payload_size in
      (good, some new)
]
