-- ===== src/Transport/Control/RoundTrip.antt =====
-- What an encoded control packet looks like, and that decoding gives the words back.
use plank.Common.{
  suc_add, take-append_eq, drop-append_eq, length-overwrite, length-drop, get_or, ℕ, zero, suc, ◌+◌,
  ◌*◌, ◌≤◌, ◌<◌, ◌^◌, ◌≡◌, refl, arith, true, some, List, [], ◌∷◌, ◌++◌, length, take, drop,
  drop-drop, All,
}
use plank.Common.Bits.{IsByte}
use plank.Transport.BigEndian.Inverse.{split_header, read_u16-lt}
use plank.Transport.BigEndian.{
  join_u32, read_u16, read_u32, write_u16, write_u32, u16_bytes, u32_bytes,
}
use plank.Transport.BigEndian.Laws.{join_u16-bytes, join_u32-bytes}
use plank.Transport.Control.{Packet, Encoded, magic, header_size, write_packet, encode, decode}

abbrev pub words_bytes : List ℕ → List ℕ
words_bytes [] = []
words_bytes (v ∷ vs) = u32_bytes v ++ words_bytes vs

-- The packet as one list: magic, type, payload size and the words, all big-endian.
abbrev pub packet_bytes : ℕ → List ℕ → List ℕ
packet_bytes type values =
    u32_bytes magic ++ u16_bytes type ++ u16_bytes (length values * 4) ++ words_bytes values

abbrev pub AreWords : List ℕ → Type 0
AreWords = All (λ v. v < 2 ^ 32)

write_packet_lem :
    (type : ℕ) (values output : List ℕ)
    → length values ≤ 3
    → write_packet type values (length values) output
      ≡ packet_bytes type values ++ drop (header_size + length values * 4) output
unfolding write_packet write_u16 write_u32
write_packet_lem type [] output h = simp drop-drop
write_packet_lem type (a ∷ []) output h = simp drop-drop
write_packet_lem type (a ∷ b ∷ []) output h = simp drop-drop
write_packet_lem type (a ∷ b ∷ c ∷ []) output h = simp drop-drop
write_packet_lem type (a ∷ b ∷ c ∷ d ∷ vs) output h = absurd (omega arith)

-- Where the arguments pass the checks, the packet is written at the front of the output, and the
-- rest of the output stays.
pub encode_lem :
    (type : ℕ) (values output : List ℕ) (capacity : ℕ)
    → length values ≤ 3
    → header_size + length values * 4 ≤ capacity
    → encode type (some values) (length values) (some output) capacity true
      ≡ some (record {
        output = packet_bytes type values ++ drop (header_size + length values * 4) output;
        output_size = header_size + length values * 4;
      })
unfolding encode
encode_lem type values output capacity few fits =
    ground (arith, write_packet_lem type values output few)

pub decode-packet_bytes :
    (type : ℕ) (values : List ℕ)
    → type < 2 ^ 16
    → length values ≤ 3
    → decode (some (packet_bytes type values)) (header_size + length values * 4) true
      ≡ some (record {
        packet_type = type;
        payload = words_bytes values;
        payload_size = length values * 4;
      })
unfolding decode read_u16 read_u32 join_u32
decode-packet_bytes type values ht few =
    rw (join_u16-bytes type ht, join_u16-bytes (length values * 4) (omega arith)) (ground arith)

words_bytes-length : (values : List ℕ) → length (words_bytes values) ≡ length values * 4
words_bytes-length [] = omega arith
words_bytes-length (v ∷ vs) = omega (arith, words_bytes-length vs)

-- The words stand in the payload in their order.
read_u32-words_bytes :
    (values : List ℕ) (i : ℕ)
    → AreWords values
    → i < length values
    → read_u32 (words_bytes values) (i * 4) ≡ get_or values i 0
unfolding read_u32
read_u32-words_bytes [] i w h = absurd (omega arith)
read_u32-words_bytes (v ∷ vs) zero w h = rw (join_u32-bytes v w.0)
read_u32-words_bytes (v ∷ vs) (suc i) w h =
    let shift : suc i * 4 ≡ suc (suc (suc (suc (i * 4)))) = omega arith in
    simp (shift, suc_add) (read_u32-words_bytes vs i w.1 (omega arith))

pub length-packet_bytes :
    (type : ℕ) (values : List ℕ)
    → length (packet_bytes type values) ≡ header_size + length values * 4
length-packet_bytes type values = omega (arith, words_bytes-length values)

-- A packet of a 16-bit type and at most three 32-bit words that fits the output is encoded, and
-- what is encoded is decoded to its type, its payload size and its words; the encoder keeps the
-- length of the output and every byte behind the packet. The capacity is the length of the output.
pub decode-encode_control :
    (type : ℕ) (values output : List ℕ)
    → type < 2 ^ 16
    → AreWords values
    → length values ≤ 3
    → header_size + length values * 4 ≤ length output
    → (e : Encoded) × (encode type (some values) (length values) (some output) (length output) true
        ≡ some e)
      × (length e.output ≡ length output)
      × (drop e.output_size e.output ≡ drop e.output_size output)
      × (p : Packet) × (decode (some (take e.output_size e.output)) e.output_size true ≡ some p)
      × (p.packet_type ≡ type)
      × (p.payload_size ≡ length values * 4)
      × ((i : ℕ) → i < length values → read_u32 p.payload (i * 4) ≡ get_or values i 0)
decode-encode_control type values output ht hw few fits = (
  _,
  encode_lem type values output (length output) few fits,
  length-overwrite _ (packet_bytes type values) output (length-packet_bytes type values) fits,
  drop-append_eq _ (packet_bytes type values) _ (length-packet_bytes type values),
  _,
  rw (take-append_eq _ (packet_bytes type values) _ (length-packet_bytes type values))
      (decode-packet_bytes type values ht few),
  refl,
  refl,
  λ i h. read_u32-words_bytes values i hw h,
)

-- Whatever is decoded from bytes is, byte for byte, the magic, the type, the payload size and the
-- payload, and the payload has the stated size.
pub decode-sound_control :
    (packet : List ℕ) (p : Packet)
    → All IsByte packet
    → decode (some packet) (length packet) true ≡ some p
    → (packet ≡ u32_bytes magic ++ u16_bytes p.packet_type ++ u16_bytes p.payload_size ++ p.payload)
      × (length p.payload ≡ p.payload_size)
      × (p.packet_type < 2 ^ 16)
unfolding decode
decode-sound_control packet p bytes e =
    ground (arith, length-drop 8 packet, split_header packet bytes, read_u16-lt 4 packet bytes)
