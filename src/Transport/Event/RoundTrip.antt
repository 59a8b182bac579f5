-- ===== src/Transport/Event/RoundTrip.antt =====
-- Encoding an event and decoding it again, in both orders.
use plank.Common.{
  refl, ℕ, suc, ◌+◌, ◌≤◌, ◌<◌, ◌^◌, ◌≡◌, ap, sym, ◌∙◌, arith, true, Option, some, List, [], ◌∷◌,
  ◌++◌, length, take, drop, drop-drop, All, take-length, take-append_eq, drop-append_eq,
  length-overwrite, length-drop,
}
use plank.Common.Bits.{IsByte, u16}
use plank.Transport.BigEndian.{
  join_u32, read_u16, read_u32, write_u16, write_u32, u16_bytes, u32_bytes,
}
use plank.Transport.BigEndian.Laws.{join_u16-bytes}
use plank.Transport.BigEndian.Inverse.{split_header, read_u16-lt}
use plank.Transport.Event.{
  max_packet_size, Packet, Encoded, magic, header_size, write_packet, encode, decode,
}

-- The packet as one list.
abbrev pub packet_bytes : ℕ → List ℕ → List ℕ
packet_bytes type payload =
    u32_bytes magic ++ u16_bytes type ++ u16_bytes (length payload) ++ payload

write_packet_lem :
    (type : ℕ) (payload output : List ℕ)
    → length payload < 2 ^ 16
    → write_packet type payload (length payload) output
      ≡ packet_bytes type payload ++ drop (header_size + length payload) output
unfolding write_packet write_u16 write_u32
write_packet_lem type [] output h = simp drop-drop
write_packet_lem type (x ∷ payload) output h =
    let fits : u16 (suc (length payload)) ≡ suc (length payload) = omega arith in
    let behind : 6 + (2 + suc (length payload)) ≡ header_size + suc (length payload) =
      omega arith in
    let body : take (length payload) payload ≡ payload = take-length payload in
    simp (fits, body, drop-drop, behind) (ground arith)

-- Where the arguments pass the checks, the packet is written at the front of the output.
pub encode_lem :
    (type : ℕ) (payload output : List ℕ)
    → length payload < 2 ^ 16
    → header_size + length payload ≤ length output
    → encode type (some payload) (length payload) (some output) (length output) true
      ≡ some (record {
        output = packet_bytes type payload ++ drop (header_size + length payload) output;
        output_size = header_size + length payload;
      })
unfolding encode
encode_lem type payload output small fits =
    ground (arith, write_packet_lem type payload output small)

decode-packet_bytes :
    (type : ℕ) (payload : List ℕ)
    → type < 2 ^ 16
    → length payload < 2 ^ 16
    → decode (some (packet_bytes type payload)) (header_size + length payload) true
      ≡ some (record { packet_type = type; payload = payload; payload_size = length payload })
unfolding decode read_u16 read_u32 join_u32
decode-packet_bytes type payload ht small =
    rw (join_u16-bytes type ht, join_u16-bytes (length payload) small) (ground arith)

-- An encoded event is decoded to its type and its payload; the encoder keeps the length of the
-- output and every byte behind the packet. The type is of 16 bits, the payload has at most 65535
-- bytes, and the output holds the stated capacity. The size of the packet is that of its header and its
-- payload, so where the payload has more than 65527 bytes, the packet that both functions take is
-- larger than `max_packet_size`.
pub decode-encode_event :
    (type : ℕ) (payload output : List ℕ)
    → type < 2 ^ 16
    → length payload < 2 ^ 16
    → header_size + length payload ≤ length output
    → (e : Encoded) × (encode type
          (some payload)
          (length payload)
          (some output)
          (length output)
          true
        ≡ some e)
      × (length e.output ≡ length output)
      × (drop e.output_size e.output ≡ drop e.output_size output)
      × (decode (some (take e.output_size e.output)) e.output_size true
          ≡ some (record { packet_type = type; payload = payload; payload_size = length payload }))
      × (e.output_size ≡ header_size + length payload)
      × (65527 < length payload → max_packet_size < e.output_size)
decode-encode_event type payload output ht small fits = (
  _,
  encode_lem type payload output small fits,
  length-overwrite _ bytes output size fits,
  drop-append_eq _ bytes _ size,
  rw (take-append_eq _ bytes _ size) (decode-packet_bytes type payload ht small),
  refl,
  λ long. omega (arith, long),
)
  where
    bytes : List ℕ
    bytes = packet_bytes type payload

    size : length bytes ≡ header_size + length payload
    size = omega arith

-- Whatever is decoded from bytes is the packet of its type and payload, and the payload has the
-- stated size.
decode-sound_event :
    (packet : List ℕ) (p : Packet)
    → All IsByte packet
    → decode (some packet) (length packet) true ≡ some p
    → (packet ≡ packet_bytes p.packet_type p.payload)
      × (length p.payload ≡ p.payload_size)
      × (p.payload_size < 2 ^ 16)
      × (p.packet_type < 2 ^ 16)
unfolding decode
decode-sound_event packet p bytes e = ground (
  arith,
  length-drop 8 packet,
  split_header packet bytes,
  read_u16-lt 4 packet bytes,
  read_u16-lt 6 packet bytes,
)

-- Whatever is decoded from bytes is encoded to the same bytes at the front of any output that holds
-- them, and the rest of the output stays.
pub encode-decode_event :
    (packet output : List ℕ) (p : Packet)
    → All IsByte packet
    → length packet ≤ length output
    → decode (some packet) (length packet) true ≡ some p
    → encode p.packet_type (some p.payload) p.payload_size (some output) (length output) true
      ≡ some
          (record { output = packet ++ drop (length packet) output; output_size = length packet })
encode-decode_event packet output p bytes fits e =
    let s = decode-sound_event packet p bytes e in
    let whole : length packet ≡ header_size + length p.payload = omega (arith, ap length s.0) in
    rw (← s.1) (
      encode_lem p.packet_type p.payload output (omega arith) (omega arith)
      ∙ rw whole (ap (written (header_size + length p.payload)) (sym s.0)))
  where
    written : ℕ → List ℕ → Option Encoded
    written n front = some (record { output = front ++ drop n output; output_size = n })
