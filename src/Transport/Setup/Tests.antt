-- ===== src/Transport/Setup/Tests.antt =====
-- Runs of the setup codec, and its theorems at concrete packets.
use plank.Common.{
  ℕ, ◌≡◌, refl, arith, true, some, none, List, [], ◌∷◌, length, take, drop, replicate,
}
use plank.Transport.BigEndian.{join_u16, join_u32, read_u16, read_u32}
use plank.Transport.Setup.{Encoded, Header, has_unknown_flags, encode, decode}
use plank.Transport.Setup.Layout.{IsValid}
use plank.Transport.Setup.RoundTrip.{packet, decode-encode_setup}

abbrev room : List ℕ
room = replicate 24 0xee

-- PAM_RESPOND with a sensitive payload.
abbrev respond : Header
respond = record { type = 5; flags = 2; status = 1; request_id = 9 }

abbrev respond_bytes : ℕ → List ℕ
respond_bytes flags =
    0x50 ∷ 0x4c ∷ 0x53 ∷ 0x31 ∷ 0 ∷ 1 ∷ 0 ∷ 5 ∷ 0 ∷ flags ∷ 0 ∷ 1 ∷ 0 ∷ 0 ∷ 0 ∷ 9 ∷ 0 ∷ 0 ∷ 0 ∷ 2
    ∷ 65 ∷ 66 ∷ []

respond-IsValid : IsValid respond
respond-IsValid = omega arith

decode-respond : decode (some (respond_bytes 2)) 22 true ≡ some (packet respond (65 ∷ 66 ∷ []))
unfolding decode has_unknown_flags read_u16 read_u32 join_u16 join_u32
decode-respond = refl

decode_unknown_flag : decode (some (respond_bytes 4)) 22 true ≡ none
unfolding decode has_unknown_flags read_u16 read_u32 join_u16 join_u32
decode_unknown_flag = refl

decode-encode_setup_example :
    (e : Encoded) × (encode respond (some (65 ∷ 66 ∷ [])) 2 (some room) 24 true ≡ some e)
    × (length e.output ≡ 24)
    × (drop e.output_size e.output ≡ drop e.output_size room)
    × (decode (some (take e.output_size e.output)) e.output_size true
        ≡ some (packet respond (65 ∷ 66 ∷ [])))
decode-encode_setup_example =
    decode-encode_setup respond (65 ∷ 66 ∷ []) room respond-IsValid (omega arith) (omega arith)
