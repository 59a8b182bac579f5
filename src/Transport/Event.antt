-- ===== src/Transport/Event.antt =====
-- plank_transport_event.h: the packets from the Host to the Client. Null pointers are `none`, and
-- `none` as a result is the return value -1, which leaves the outputs alone.
pub mod RoundTrip
mod Tests
use plank.Common.{
  ℕ, ◌+◌, ◌%◌, ◌^◌, Bool, not, ◌||◌, ◌&&◌, ltb, ◌!=◌, if◌then◌else◌, Option, none, some, List, take,
  drop, copy_to, is_null, pointee,
}
use plank.Common.Bits.{u16, u64}
use plank.Transport.BigEndian.{read_u16, read_u32, write_u16, write_u32}

abbrev pub magic : ℕ
magic = 0x504c4531

abbrev pub header_size : ℕ
header_size = 8

-- The header's constant for the size of a packet. Neither function looks at it.
abbrev pub max_packet_size : ℕ
max_packet_size = 65535

-- `payload` is what the pointer `packet + header_size` shows.
pub record Packet : Type 0 where
  pub packet_type : ℕ
  pub payload : List ℕ
  pub payload_size : ℕ

-- What a successful call leaves in `output` and `*output_size`.
pub record Encoded : Type 0 where
  pub output : List ℕ
  pub output_size : ℕ

pub write_packet : ℕ → List ℕ → ℕ → List ℕ → List ℕ
write_packet type payload payload_size output =
    let with_magic = write_u32 output 0 magic in
    let with_type = write_u16 with_magic 4 type in
    let with_size = write_u16 with_type 6 (u16 payload_size) in
    if payload_size != 0
    then copy_to with_size header_size (take payload_size payload)
    else with_size

-- The size is a `size_t`. `has_size` is `output_size != NULL`.
pub encode : ℕ → Option (List ℕ) → ℕ → Option (List ℕ) → ℕ → Bool → Option Encoded
encode type payload payload_size output output_capacity has_size =
    let packet_size = u64 (header_size + payload_size) in
    if is_null output
      || not has_size
      || (payload_size != 0 && is_null payload)
      || ltb 0xffff payload_size
      || ltb output_capacity packet_size
    then none
    else some (record {
      output = write_packet type (pointee payload) payload_size (pointee output);
      output_size = packet_size;
    })

-- `has_decoded` is `decoded != NULL`.
pub decode : Option (List ℕ) → ℕ → Bool → Option Packet
decode none packet_size has_decoded = none
decode (some packet) packet_size has_decoded =
    let payload_size = read_u16 packet 6 in
    if not has_decoded || ltb packet_size header_size || read_u32 packet 0 != magic
    then none
    else if packet_size != header_size + payload_size
    then none
    else some (record {
      packet_type = read_u16 packet 4;
      payload = drop header_size packet;
      payload_size = payload_size;
    })
