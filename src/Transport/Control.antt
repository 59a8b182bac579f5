-- ===== src/Transport/Control.antt =====
-- plank_transport_control.h: the packets of the data and control lane. A pointer is an `Option`, a
-- null pointer `none`; `none` as a result is the return value -1, which leaves the outputs alone.
pub mod RoundTrip
mod Tests
use plank.Common.{
  ℕ, zero, suc, ◌+◌, ◌*◌, ◌%◌, ◌^◌, Bool, true, false, not, ◌||◌, ◌&&◌, ltb, ◌==◌, ◌!=◌,
  if◌then◌else◌, Option, none, some, List, get_or, drop, is_null, pointee,
}
use plank.Common.Bits.{u16}
use plank.Transport.BigEndian.{read_u16, read_u32, write_u16, write_u32}

abbrev pub magic : ℕ
magic = 0x504c4431

abbrev pub header_size : ℕ
header_size = 8

-- `payload` is what the pointer `packet + header_size` shows.
pub record Packet : Type 0 where
  pub packet_type : ℕ
  pub payload : List ℕ
  pub payload_size : ℕ

-- What a successful call leaves in `output` and `*output_size`.
pub record Encoded : Type 0 where
  pub output : List ℕ
  pub output_size : ℕ

-- The loop over `values`, with the rounds left and the index.
pub write_values : ℕ → ℕ → List ℕ → List ℕ → List ℕ
write_values zero index values output = output
write_values (suc left) index values output =
    write_values left (index + 1) values
      (write_u32 output (header_size + index * 4) (get_or values index 0))

pub write_packet : ℕ → List ℕ → ℕ → List ℕ → List ℕ
unfolding write_values
write_packet type values value_count output =
    let with_magic = write_u32 output 0 magic in
    let with_type = write_u16 with_magic 4 type in
    let with_size = write_u16 with_type 6 (u16 (value_count * 4)) in
    write_values value_count 0 values with_size

-- `has_size` is `output_size != NULL`.
pub encode : ℕ → Option (List ℕ) → ℕ → Option (List ℕ) → ℕ → Bool → Option Encoded
encode type values value_count output output_capacity has_size =
    let packet_size = header_size + value_count * 4 in
    if is_null output
      || not has_size
      || ltb 3 value_count
      || (value_count != 0 && is_null values)
      || ltb output_capacity packet_size
    then none
    else some (record {
      output = write_packet type (pointee values) value_count (pointee output);
      output_size = packet_size;
    })

-- `has_decoded` is `decoded != NULL`.
pub decode : Option (List ℕ) → ℕ → Bool → Option Packet
decode none packet_size has_decoded = none
decode (some packet) packet_size has_decoded =
    let payload_size = read_u16 packet 6 in
    if not has_decoded || ltb packet_size header_size || read_u32 packet 0 != magic
    then none
    else if packet_size != header_size + payload_size
    then none
    else some (record {
      packet_type = read_u16 packet 4;
      payload = drop header_size packet;
      payload_size = payload_size;
    })
