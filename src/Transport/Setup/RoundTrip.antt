-- ===== src/Transport/Setup/RoundTrip.antt =====
-- Encoding a setup packet and decoding it again, in both orders.
use plank.Common.{
  ℕ, ◌+◌, ◌≤◌, ◌≡◌, ap, sym, ◌∙◌, arith, true, Option, some, List, ◌++◌, length, take, drop, All,
  take-append_eq, drop-append_eq, length-overwrite, length-drop,
}
use plank.Common.Bits.{IsByte}
use plank.Transport.BigEndian.{join_u16, join_u32, read_u16, read_u32}
use plank.Transport.BigEndian.Laws.{join_u16-bytes, join_u32-bytes}
use plank.Transport.BigEndian.Inverse.{read_u16-lt, read_u32-lt}
use plank.Transport.Setup.{Packet, Encoded, Header, header_size, max_payload_size, encode, decode}
use plank.Transport.Setup.Layout.{
  IsValid, packet_bytes, write_packet_lem, split_header, has_unknown_flags_iff,
  has_unknown_flags_of_lt,
}

-- Where the arguments pass the checks, the packet is written at the front of the output.
pub encode_lem :
    (h : Header) (payload output : List ℕ)
    → IsValid h
    → length payload ≤ max_payload_size
    → header_size + length payload ≤ length output
    → encode h (some payload) (length payload) (some output) (length output) true
      ≡ some (record {
        output = packet_bytes h payload ++ drop (header_size + length payload) output;
        output_size = header_size + length payload;
      })
unfolding encode
encode_lem h payload output v small fits =
    ground (
      arith,
      write_packet_lem h payload output small,
      has_unknown_flags_of_lt h.flags v.flags_known,
    )

-- What `decode` leaves for a header and a payload.
abbrev pub packet : Header → List ℕ → Packet
packet h payload = record {
  packet_type = h.type;
  flags = h.flags;
  status = h.status;
  request_id = h.request_id;
  payload = payload;
  payload_size = length payload;
}

decode-packet_bytes :
    (h : Header) (payload : List ℕ)
    → IsValid h
    → length payload ≤ max_payload_size
    → decode (some (packet_bytes h payload)) (header_size + length payload) true
      ≡ some (packet h payload)
unfolding decode read_u16 read_u32
decode-packet_bytes h payload v small =
    let type = join_u16-bytes h.type v.type_fits in
    let flags = join_u16-bytes h.flags (omega arith) in
    let status = join_u16-bytes h.status v.status_fits in
    let id = join_u32-bytes h.request_id v.id_fits in
    let size = join_u32-bytes (length payload) (omega arith) in
    let known = has_unknown_flags_of_lt h.flags v.flags_known in
    rw (type, flags, status, id, size, known) (unfold join_u32 join_u16 in ground arith)

-- An encoded packet is decoded to its words and its payload; the encoder keeps the length of the
-- output and every byte behind the packet. The output holds the stated capacity, the words are
-- valid, and the payload is not over the limit.
pub decode-encode_setup :
    (h : Header) (payload output : List ℕ)
    → IsValid h
    → length payload ≤ max_payload_size
    → header_size + length payload ≤ length output
    → (e : Encoded) × (encode h (some payload) (length payload) (some output) (length output) true
        ≡ some e)
      × (length e.output ≡ length output)
      × (drop e.output_size e.output ≡ drop e.output_size output)
      × (decode (some (take e.output_size e.output)) e.output_size true ≡ some (packet h payload))
decode-encode_setup h payload output v small fits = (
  _,
  encode_lem h payload output v small fits,
  length-overwrite _ bytes output size fits,
  drop-append_eq _ bytes _ size,
  rw (take-append_eq _ bytes _ size) (decode-packet_bytes h payload v small),
)
  where
    bytes : List ℕ
    bytes = packet_bytes h payload

    size : length bytes ≡ header_size + length payload
    size = omega arith

-- The words of a decoded packet.
abbrev pub header : Packet → Header
header p = record {
  type = p.packet_type;
  flags = p.flags;
  status = p.status;
  request_id = p.request_id;
}

-- Whatever is decoded from bytes is the packet of a valid header and its payload, and the payload
-- has the stated size, within the limit.
decode-sound_setup :
    (bytes : List ℕ) (p : Packet)
    → All IsByte bytes
    → decode (some bytes) (length bytes) true ≡ some p
    → (bytes ≡ packet_bytes (header p) p.payload)
      × IsValid (header p)
      × (length p.payload ≡ p.payload_size)
      × (p.payload_size ≤ max_payload_size)
unfolding decode
decode-sound_setup bytes p are e = ground (
  arith,
  length-drop 20 bytes,
  split_header bytes are,
  read_u16-lt 6 bytes are,
  read_u16-lt 8 bytes are,
  read_u16-lt 10 bytes are,
  read_u32-lt 12 bytes are,
  has_unknown_flags_iff (read_u16 bytes 8),
)

-- Whatever is decoded from bytes is encoded to the same bytes at the front of any output that holds
-- them, and the rest of the output stays.
pub encode-decode_setup :
    (bytes output : List ℕ) (p : Packet)
    → All IsByte bytes
    → length bytes ≤ length output
    → decode (some bytes) (length bytes) true ≡ some p
    → encode (header p) (some p.payload) p.payload_size (some output) (length output) true
      ≡ some (record { output = bytes ++ drop (length bytes) output; output_size = length bytes })
encode-decode_setup bytes output p are fits e =
    let s = decode-sound_setup bytes p are e in
    let whole : length bytes ≡ header_size + length p.payload = omega (arith, ap length s.0) in
    rw (← s.2) (
      encode_lem (header p) p.payload output s.1 (omega arith) (omega arith)
      ∙ rw whole (ap (written (header_size + length p.payload)) (sym s.0)))
  where
    written : ℕ → List ℕ → Option Encoded
    written n front = some (record { output = front ++ drop n output; output_size = n })
