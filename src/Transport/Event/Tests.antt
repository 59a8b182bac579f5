-- ===== src/Transport/Event/Tests.antt =====
-- Runs of the event codec, and its theorems at concrete packets.
use plank.Common.{
  ℕ, ◌+◌, ◌<◌, ◌≡◌, refl, arith, true, some, none, List, [], ◌∷◌, length, take, drop, replicate,
}
use plank.Transport.BigEndian.{join_u16, join_u32, read_u16, read_u32}
use plank.Transport.Event.{max_packet_size, Encoded, Packet, encode, decode}
use plank.Transport.Event.RoundTrip.{decode-encode_event}

abbrev room : List ℕ
room = replicate 16 0xee

-- A cursor position of three bytes, and one with a size that is too small.
abbrev cursor : List ℕ
cursor = 0x50 ∷ 0x4c ∷ 0x45 ∷ 0x31 ∷ 0 ∷ 4 ∷ 0 ∷ 3 ∷ 7 ∷ 8 ∷ 9 ∷ []

abbrev short_cursor : List ℕ
short_cursor = 0x50 ∷ 0x4c ∷ 0x45 ∷ 0x31 ∷ 0 ∷ 4 ∷ 0 ∷ 2 ∷ 7 ∷ 8 ∷ 9 ∷ []

abbrev position : Packet
position = record { packet_type = 4; payload = 7 ∷ 8 ∷ 9 ∷ []; payload_size = 3 }

decode-cursor : decode (some cursor) 11 true ≡ some position
unfolding decode read_u16 read_u32 join_u16 join_u32
decode-cursor = refl

decode_short : decode (some short_cursor) 11 true ≡ none
unfolding decode read_u16 read_u32 join_u16 join_u32
decode_short = refl

decode-encode_event_example :
    (e : Encoded) × (encode 4 (some (7 ∷ 8 ∷ 9 ∷ [])) 3 (some room) 16 true ≡ some e)
    × (length e.output ≡ 16)
    × (drop e.output_size e.output ≡ drop e.output_size room)
    × (decode (some (take e.output_size e.output)) e.output_size true ≡ some position)
    × (e.output_size ≡ 8 + 3)
    × (65527 < 3 → max_packet_size < e.output_size)
decode-encode_event_example =
    decode-encode_event 4 (7 ∷ 8 ∷ 9 ∷ []) room (omega arith) (omega arith) (omega arith)
