-- ===== src/Transport/Setup.antt =====
-- plank_transport_setup.h: the packets before a session. Null pointers are `none`, and `none` as a
-- result is the return value -1, which leaves the outputs alone.
pub mod Layout
pub mod RoundTrip
mod Tests
use plank.Common.{
  ℕ, ◌+◌, ◌-◌, ◌%◌, ◌^◌, Bool, not, ◌||◌, ◌&&◌, ltb, ◌==◌, ◌!=◌, if◌then◌else◌, Option, none, some,
  List, take, drop, copy_to, is_null, pointee, bit_and,
}
use plank.Common.Bits.{u32, u64}
use plank.Transport.BigEndian.{read_u16, read_u32, write_u16, write_u32}

abbrev pub magic : ℕ
magic = 0x504c5331

abbrev pub version : ℕ
version = 1

abbrev pub header_size : ℕ
header_size = 20

abbrev pub max_packet_size : ℕ
max_packet_size = 65536

abbrev pub max_payload_size : ℕ
max_payload_size = max_packet_size - header_size

-- `flags & ~(FLAG_RESPONSE | FLAG_SENSITIVE)` is not 0. The operands are 32 bits wide.
pub has_unknown_flags : ℕ → Bool
has_unknown_flags flags = bit_and flags 0xffff_fffc != 0

-- `payload` is what the pointer `packet + header_size` shows.
pub record Packet : Type 0 where
  pub packet_type : ℕ
  pub flags : ℕ
  pub status : ℕ
  pub request_id : ℕ
  pub payload : List ℕ
  pub payload_size : ℕ

-- What a successful call leaves in `output` and `*output_size`.
pub record Encoded : Type 0 where
  pub output : List ℕ
  pub output_size : ℕ

-- The arguments of `encode` that are words of the header, in one record.
pub record Header : Type 0 where
  pub type : ℕ
  pub flags : ℕ
  pub status : ℕ
  pub request_id : ℕ

pub write_packet : Header → List ℕ → ℕ → List ℕ → List ℕ
write_packet h payload payload_size output =
    let with_magic = write_u32 output 0 magic in
    let with_version = write_u16 with_magic 4 version in
    let with_type = write_u16 with_version 6 h.type in
    let with_flags = write_u16 with_type 8 h.flags in
    let with_status = write_u16 with_flags 10 h.status in
    let with_id = write_u32 with_status 12 h.request_id in
    let with_size = write_u32 with_id 16 (u32 payload_size) in
    if payload_size != 0
    then copy_to with_size header_size (take payload_size payload)
    else with_size

-- The size is a `size_t`. `has_size` is `output_size != NULL`.
pub encode : Header → Option (List ℕ) → ℕ → Option (List ℕ) → ℕ → Bool → Option Encoded
encode h payload payload_size output output_capacity has_size =
    let packet_size = u64 (header_size + payload_size) in
    if h.type == 0
      || h.request_id == 0
      || is_null output
      || not has_size
      || has_unknown_flags h.flags
      || (payload_size != 0 && is_null payload)
      || ltb max_payload_size payload_size
      || ltb output_capacity packet_size
    then none
    else some (record {
      output = write_packet h (pointee payload) payload_size (pointee output);
      output_size = packet_size;
    })

-- The tests of `decode` on the fields before the flags.
bad_header : List ℕ → ℕ → Bool
bad_header packet packet_size =
    ltb packet_size header_size
    || ltb max_packet_size packet_size
    || read_u32 packet 0 != magic
    || read_u16 packet 4 != version
    || read_u16 packet 6 == 0
    || read_u32 packet 12 == 0

-- `has_decoded` is `decoded != NULL`.
pub decode : Option (List ℕ) → ℕ → Bool → Option Packet
unfolding bad_header
decode none packet_size has_decoded = none
decode (some packet) packet_size has_decoded =
    let flags = read_u16 packet 8 in
    let payload_size = read_u32 packet 16 in
    if not has_decoded || bad_header packet packet_size
    then none
    else if has_unknown_flags flags
    then none
    else if ltb max_payload_size payload_size || packet_size != header_size + payload_size
    then none
    else some (record {
      packet_type = read_u16 packet 6;
      flags = flags;
      status = read_u16 packet 10;
      request_id = read_u32 packet 12;
      payload = drop header_size packet;
      payload_size = payload_size;
    })
