-- ===== src/Transport/Setup/Layout.antt =====
-- The bytes of a setup packet: what is written, and what bytes of that length hold.
use plank.Common.{
  ℕ, suc, ◌+◌, ◌≤◌, ◌<◌, ◌≡◌, ◌^◌, ap, sym, ◌∙◌, arith, false, List, [], ◌∷◌, ◌++◌, length, take,
  drop, drop-drop, All, take-length,
}
use plank.Common.Bits.{IsByte, u32, bit_and_above_two}
use plank.Transport.BigEndian.{read_u16, read_u32, write_u16, write_u32, u16_bytes, u32_bytes}
use plank.Transport.BigEndian.Inverse.{u16_bytes-read_u16, u32_bytes-read_u32}
use plank.Transport.Setup.{
  Header, magic, version, header_size, max_payload_size, write_packet, has_unknown_flags,
}

-- The fields fit their widths and pass the checks of `encode`; a flag is one of the two known.
pub record IsValid (h : Header) : Type 0 where
  pub type_set : 0 < h.type
  pub type_fits : h.type < 2 ^ 16
  pub flags_known : h.flags < 4
  pub status_fits : h.status < 2 ^ 16
  pub id_set : 0 < h.request_id
  pub id_fits : h.request_id < 2 ^ 32

-- The packet as one list.
abbrev pub packet_bytes : Header → List ℕ → List ℕ
packet_bytes h payload =
    u32_bytes magic
    ++ (u16_bytes version
        ++ (u16_bytes h.type
            ++ (u16_bytes h.flags
                ++ (u16_bytes h.status
                    ++ (u32_bytes h.request_id ++ (u32_bytes (length payload) ++ payload))))))

pub has_unknown_flags_iff :
    (flags : ℕ) → flags < 2 ^ 16 → has_unknown_flags flags ≡ false → flags < 4
unfolding has_unknown_flags
has_unknown_flags_iff flags h e = ground (arith, bit_and_above_two flags)

pub has_unknown_flags_of_lt : (flags : ℕ) → flags < 4 → has_unknown_flags flags ≡ false
unfolding has_unknown_flags
has_unknown_flags_of_lt flags h = ground (arith, bit_and_above_two flags)

pub write_packet_lem :
    (h : Header) (payload output : List ℕ)
    → length payload ≤ max_payload_size
    → write_packet h payload (length payload) output
      ≡ packet_bytes h payload ++ drop (header_size + length payload) output
unfolding write_packet write_u16 write_u32
write_packet_lem h [] output small = simp drop-drop
write_packet_lem h (x ∷ payload) output small =
    let fits : u32 (suc (length payload)) ≡ suc (length payload) = omega arith in
    let behind : 16 + (4 + suc (length payload)) ≡ header_size + suc (length payload) =
      omega arith in
    let body : take (length payload) payload ≡ payload = take-length payload in
    simp (fits, body, drop-drop, behind) (ground arith)

-- A byte string of twenty bytes or more is the seven fields of the header and the rest.
pub split_header :
    (p : List ℕ)
    → All IsByte p
    → header_size ≤ length p
    → p
      ≡ u32_bytes (read_u32 p 0)
        ++ (u16_bytes (read_u16 p 4)
            ++ (u16_bytes (read_u16 p 6)
                ++ (u16_bytes (read_u16 p 8)
                    ++ (u16_bytes (read_u16 p 10)
                        ++ (u32_bytes (read_u32 p 12)
                            ++ (u32_bytes (read_u32 p 16) ++ drop 20 p))))))
split_header p bytes h =
    let at16 = u32_bytes-read_u32 16 p bytes h in
    let at12 =
      ap (λ t. u32_bytes (read_u32 p 12) ++ t) at16 ∙ u32_bytes-read_u32 12 p bytes (omega arith) in
    let at10 =
      ap (λ t. u16_bytes (read_u16 p 10) ++ t) at12 ∙ u16_bytes-read_u16 10 p bytes (omega arith) in
    let at8 =
      ap (λ t. u16_bytes (read_u16 p 8) ++ t) at10 ∙ u16_bytes-read_u16 8 p bytes (omega arith) in
    let at6 =
      ap (λ t. u16_bytes (read_u16 p 6) ++ t) at8 ∙ u16_bytes-read_u16 6 p bytes (omega arith) in
    let at4 =
      ap (λ t. u16_bytes (read_u16 p 4) ++ t) at6 ∙ u16_bytes-read_u16 4 p bytes (omega arith) in
    sym (ap (λ t. u32_bytes (read_u32 p 0) ++ t) at4 ∙ u32_bytes-read_u32 0 p bytes (omega arith))
