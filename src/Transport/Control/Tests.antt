-- ===== src/Transport/Control/Tests.antt =====
-- Runs of the control codec, and its theorems at a concrete packet.
use plank.Common.{
  ℕ, ◌*◌, ◌<◌, ◌^◌, ◌≡◌, refl, arith, true, some, List, [], ◌∷◌, ◌++◌, length, take, drop, get_or,
  replicate,
}
use plank.Transport.BigEndian.{join_u16, join_u32, read_u16, read_u32, u16_bytes, u32_bytes}
use plank.Transport.Control.{Packet, Encoded, magic, encode, decode}
use plank.Transport.Control.RoundTrip.{decode-encode_control, decode-sound_control}

-- SET_CAMERA with a generation and a flag, as the Client sends it.
abbrev words : List ℕ
words = 0 ∷ 7 ∷ 1 ∷ []

abbrev room : List ℕ
room = replicate 24 0xee

abbrev handoff : List ℕ
handoff = 0x50 ∷ 0x4c ∷ 0x44 ∷ 0x31 ∷ 0 ∷ 7 ∷ 0 ∷ 0 ∷ []

decode-handoff :
    decode (some handoff) 8 true ≡ some (record { packet_type = 7; payload = []; payload_size = 0 })
unfolding decode read_u16 read_u32 join_u16 join_u32
decode-handoff = refl

decode-encode_control_example :
    (e : Encoded) × (encode 10 (some words) 3 (some room) 24 true ≡ some e)
    × (length e.output ≡ 24)
    × (drop e.output_size e.output ≡ drop e.output_size room)
    × (p : Packet) × (decode (some (take e.output_size e.output)) e.output_size true ≡ some p)
    × (p.packet_type ≡ 10)
    × (p.payload_size ≡ 12)
    × ((i : ℕ) → i < 3 → read_u32 p.payload (i * 4) ≡ get_or words i 0)
decode-encode_control_example =
    decode-encode_control 10 words room (omega arith) (omega arith) (omega arith) (omega arith)

decode-sound_control_example :
    (handoff ≡ u32_bytes magic ++ u16_bytes 7 ++ u16_bytes 0 ++ [])
    × (length {A = ℕ} [] ≡ 0)
    × (7 < 2 ^ 16)
decode-sound_control_example =
    decode-sound_control handoff (record { packet_type = 7; payload = []; payload_size = 0 })
      (omega arith) decode-handoff
