-- ===== src/Transport/BigEndian.antt =====
-- The big-endian helpers of plank_transport_control.h, which the setup, event and input headers
-- repeat under their own names.
pub mod Laws
pub mod Inverse
use plank.Common.{ℕ, ◌+◌, ◌*◌, ◌/◌, ◌^◌, List, [], ◌∷◌, bit_or, get_or, copy_to}
use plank.Common.Bits.{u8, u16}

-- `input[0] << 8 | input[1]`, cast to 16 bits.
unfoldable pub join_u16 : ℕ → ℕ → ℕ
join_u16 a b = u16 (bit_or (a * 2 ^ 8) b)

-- `input[0] << 24 | input[1] << 16 | input[2] << 8 | input[3]`
unfoldable pub join_u32 : ℕ → ℕ → ℕ → ℕ → ℕ
join_u32 a b c d = bit_or (bit_or (bit_or (a * 2 ^ 24) (b * 2 ^ 16)) (c * 2 ^ 8)) d

unfoldable pub read_u16 : List ℕ → ℕ → ℕ
read_u16 input at = join_u16 (get_or input at 0) (get_or input (at + 1) 0)

unfoldable pub read_u32 : List ℕ → ℕ → ℕ
read_u32 input at =
    join_u32 (get_or input at 0) (get_or input (at + 1) 0) (get_or input (at + 2) 0)
      (get_or input (at + 3) 0)

-- The two bytes and the four bytes of a word, high byte first.
abbrev pub u16_bytes : ℕ → List ℕ
u16_bytes value = u8 (value / 2 ^ 8) ∷ u8 value ∷ []

abbrev pub u32_bytes : ℕ → List ℕ
u32_bytes value = u8 (value / 2 ^ 24) ∷ u8 (value / 2 ^ 16) ∷ u8 (value / 2 ^ 8) ∷ u8 value ∷ []

unfoldable pub write_u16 : List ℕ → ℕ → ℕ → List ℕ
write_u16 output at value = copy_to output at (u16_bytes value)

unfoldable pub write_u32 : List ℕ → ℕ → ℕ → List ℕ
write_u32 output at value = copy_to output at (u32_bytes value)
