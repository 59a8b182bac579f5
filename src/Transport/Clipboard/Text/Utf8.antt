-- ===== src/Transport/Clipboard/Text/Utf8.antt =====
-- The encoding form of UTF-8, and one round of the loop of `valid_text` on a sequence of each length.
use plank.Common.{
  ℕ, suc, ◌+◌, ◌*◌, ◌/◌, ◌%◌, ◌≤◌, ◌<◌, ◌≡◌, ◌≢◌, ◌⊎◌, arith, true, false, ltb, if◌then◌else◌, List,
  [], ◌∷◌, ◌++◌, bit_and,
}
use plank.Common.Bits.{IsByte, bit_and_digit, bit_and_low}
use native.Mathlib.Decide.{dec_lt}
use plank.Transport.Clipboard.Text.{extra_bytes, bad_second, continues}

-- A Unicode scalar value other than 0.
pub record IsScalar (v : ℕ) : Type 0 where
  pub not_zero : 0 < v
  pub in_range : v < 0x11_0000
  pub no_surrogate : (v < 0xd800) ⊎ (0xdfff < v)

-- A byte 10xxxxxx over six bits.
abbrev pub tail_byte : ℕ → ℕ
tail_byte v = 0x80 + v % 64

abbrev pub utf8 : ℕ → List ℕ
utf8 v =
    if ltb v 0x80
    then v ∷ []
    else if ltb v 0x800
    then (0xc0 + v / 64) ∷ tail_byte v ∷ []
    else if ltb v 0x1_0000
    then (0xe0 + v / 4096) ∷ tail_byte (v / 64) ∷ tail_byte v ∷ []
    else (0xf0 + v / 262144) ∷ tail_byte (v / 4096) ∷ tail_byte (v / 64) ∷ tail_byte v ∷ []

abbrev pub utf8_text : List ℕ → List ℕ
utf8_text [] = []
utf8_text (v ∷ vs) = utf8 v ++ utf8_text vs

abbrev pub IsTail : ℕ → Type 0
IsTail d = (0x80 ≤ d) × (d < 0xc0)

pub mask_lem : (d : ℕ) → IsByte d → bit_and d 0xc0 ≡ d / 64 * 64
mask_lem d h = omega (
  arith,
  bit_and_digit d 0xc0,
  bit_and_digit (d / 2) 0x60,
  bit_and_digit (d / 2 / 2) 0x30,
  bit_and_digit (d / 2 / 2 / 2) 0x18,
  bit_and_digit (d / 2 / 2 / 2 / 2) 0xc,
  bit_and_digit (d / 2 / 2 / 2 / 2 / 2) 6,
  bit_and_low 2 (d / 2 / 2 / 2 / 2 / 2 / 2),
)

-- The five kinds of a byte at the start of a round.
pub data Lead (c : ℕ) : Type 0 where
  ascii : c < 0x80 → Lead c
  two : 0xc2 ≤ c → c ≤ 0xdf → Lead c
  three : 0xe0 ≤ c → c ≤ 0xef → Lead c
  four : 0xf0 ≤ c → c ≤ 0xf4 → Lead c
  stray : 0x80 ≤ c → extra_bytes c ≡ 0 → Lead c

stray_low : (c : ℕ) → c < 0xc2 → extra_bytes c ≡ 0
unfolding extra_bytes
stray_low c h = ground arith

stray_high : (c : ℕ) → 0xf4 < c → extra_bytes c ≡ 0
unfolding extra_bytes
stray_high c h = ground arith

pub lead : (c : ℕ) → Lead c
lead c = elim (dec_lt c 0x80) [
  | yes p ↦ ascii p
  | no p ↦ elim (dec_lt c 0xc2) [
    | yes q ↦ stray (omega arith) (stray_low c q)
    | no q ↦ elim (dec_lt c 0xe0) [
      | yes r ↦ two (omega arith) (omega arith)
      | no r ↦ elim (dec_lt c 0xf0) [
        | yes s ↦ three (omega arith) (omega arith)
        | no s ↦ elim (dec_lt c 0xf5) [
          | yes t ↦ four (omega arith) (omega arith)
          | no t ↦ stray (omega arith) (stray_high c (omega arith))
        ]
      ]
    ]
  ]
]

pub extra_two : (c : ℕ) → 0xc2 ≤ c → c ≤ 0xdf → extra_bytes c ≡ 1
unfolding extra_bytes
extra_two c lo hi = ground arith

pub extra_three : (c : ℕ) → 0xe0 ≤ c → c ≤ 0xef → extra_bytes c ≡ 2
unfolding extra_bytes
extra_three c lo hi = ground arith

pub extra_four : (c : ℕ) → 0xf0 ≤ c → c ≤ 0xf4 → extra_bytes c ≡ 3
unfolding extra_bytes
extra_four c lo hi = ground arith

pub continues-suc :
    (extra d : ℕ) (t : List ℕ)
    → IsByte d
    → continues (suc extra) (d ∷ t) ≡ true
    → IsTail d × (continues extra t ≡ true)
unfolding continues
continues-suc extra d t byte e = ground (arith, mask_lem d)

pub continues_tail :
    (extra d : ℕ) (t : List ℕ) → IsTail d → continues (suc extra) (d ∷ t) ≡ continues extra t
unfolding continues
continues_tail extra d t tail = ground (arith, mask_lem d)

-- The three longer forms, for values in their ranges.
pub utf8_two : (v : ℕ) → 0x80 ≤ v → v < 0x800 → utf8 v ≡ (0xc0 + v / 64) ∷ tail_byte v ∷ []
utf8_two v lo hi = ground arith

pub utf8_three :
    (v : ℕ)
    → 0x800 ≤ v
    → v < 0x1_0000
    → utf8 v ≡ (0xe0 + v / 4096) ∷ tail_byte (v / 64) ∷ tail_byte v ∷ []
utf8_three v lo hi = ground arith

pub utf8_four :
    (v : ℕ)
    → 0x1_0000 ≤ v
    → utf8 v ≡ (0xf0 + v / 262144) ∷ tail_byte (v / 4096) ∷ tail_byte (v / 64) ∷ tail_byte v ∷ []
utf8_four v lo = ground arith

module _ (c d : ℕ) where
  pub second_e0 : bad_second c d ≡ false → (c ≢ 0xe0) ⊎ (0xa0 ≤ d)
  unfolding bad_second
  second_e0 e = ground arith

  pub second_ed : bad_second c d ≡ false → (c ≢ 0xed) ⊎ (d ≤ 0x9f)
  unfolding bad_second
  second_ed e = ground arith

  pub second_f0 : bad_second c d ≡ false → (c ≢ 0xf0) ⊎ (0x90 ≤ d)
  unfolding bad_second
  second_f0 e = ground arith

  pub second_f4 : bad_second c d ≡ false → (c ≢ 0xf4) ⊎ (d ≤ 0x8f)
  unfolding bad_second
  second_f4 e = ground arith

  pub second_good :
      (c ≡ 0xe0 → 0xa0 ≤ d)
      → (c ≡ 0xed → d ≤ 0x9f)
      → (c ≡ 0xf0 → 0x90 ≤ d)
      → (c ≡ 0xf4 → d ≤ 0x8f)
      → bad_second c d ≡ false
  unfolding bad_second
  second_good e0 ed f0 f4 = ground arith
