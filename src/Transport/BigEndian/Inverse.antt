-- ===== src/Transport/BigEndian/Inverse.antt =====
-- Reading the words of a byte string and writing them again gives the string back.
use plank.Common.{
  drop-cons, ℕ, zero, suc, ◌+◌, ◌^◌, ◌≤◌, ◌<◌, ◌≡◌, refl, ap, sym, ◌∙◌, arith, get_or, suc_add,
  List, [], ◌∷◌, ◌++◌, length, drop, All,
}
use plank.Common.Bits.{IsByte}
use plank.Transport.BigEndian.{read_u16, read_u32, u16_bytes, u32_bytes}
use plank.Transport.BigEndian.Laws.{bytes-join_u16, bytes-join_u32}

pub get_or-IsByte : (n : ℕ) (p : List ℕ) → All IsByte p → IsByte (get_or p n 0)
get_or-IsByte n [] bytes = omega arith
get_or-IsByte zero (x ∷ p) bytes = bytes.0
get_or-IsByte (suc n) (x ∷ p) bytes = get_or-IsByte n p bytes.1

pub u16_bytes-read_u16 :
    (n : ℕ) (p : List ℕ)
    → All IsByte p
    → n + 2 ≤ length p
    → u16_bytes (read_u16 p n) ++ drop (n + 2) p ≡ drop n p
unfolding read_u16
u16_bytes-read_u16 zero [] bytes h = absurd (omega arith)
u16_bytes-read_u16 zero (a ∷ []) bytes h = absurd (omega arith)
u16_bytes-read_u16 zero (a ∷ b ∷ p) bytes h =
    let e = bytes-join_u16 a b bytes.0 bytes.1.0 in rw (e.0, e.1) refl
u16_bytes-read_u16 (suc n) [] bytes h = absurd (omega arith)
u16_bytes-read_u16 (suc n) (x ∷ p) bytes h =
    simp suc_add (u16_bytes-read_u16 n p bytes.1 (omega arith))

pub u32_bytes-read_u32 :
    (n : ℕ) (p : List ℕ)
    → All IsByte p
    → n + 4 ≤ length p
    → u32_bytes (read_u32 p n) ++ drop (n + 4) p ≡ drop n p
unfolding read_u32
u32_bytes-read_u32 zero [] bytes h = absurd (omega arith)
u32_bytes-read_u32 zero (a ∷ []) bytes h = absurd (omega arith)
u32_bytes-read_u32 zero (a ∷ b ∷ []) bytes h = absurd (omega arith)
u32_bytes-read_u32 zero (a ∷ b ∷ c ∷ []) bytes h = absurd (omega arith)
u32_bytes-read_u32 zero (a ∷ b ∷ c ∷ d ∷ p) bytes h =
    let e = bytes-join_u32 a b c d bytes.0 bytes.1.0 bytes.1.1.0 bytes.1.1.1.0 in
    rw (e.0, e.1, e.2, e.3) refl
u32_bytes-read_u32 (suc n) [] bytes h = absurd (omega arith)
u32_bytes-read_u32 (suc n) (x ∷ p) bytes h =
    simp suc_add (u32_bytes-read_u32 n p bytes.1 (omega arith))

-- A byte string of eight bytes or more is a word, two half words and the rest.
pub split_header :
    (p : List ℕ)
    → All IsByte p
    → 8 ≤ length p
    → p
      ≡ u32_bytes (read_u32 p 0)
        ++ (u16_bytes (read_u16 p 4) ++ (u16_bytes (read_u16 p 6) ++ drop 8 p))
split_header p bytes h =
    let size = u16_bytes-read_u16 6 p bytes h in
    let type = u16_bytes-read_u16 4 p bytes (omega arith) in
    let magic = u32_bytes-read_u32 0 p bytes (omega arith) in
    sym (
      ap (λ t. u32_bytes (read_u32 p 0) ++ t) (ap (λ t. u16_bytes (read_u16 p 4) ++ t) size ∙ type)
      ∙ magic)

-- What is read from bytes fits its width.
pub read_u16-lt : (n : ℕ) (p : List ℕ) → All IsByte p → read_u16 p n < 2 ^ 16
unfolding read_u16
read_u16-lt n p bytes =
    (bytes-join_u16 _ _ (get_or-IsByte n p bytes) (get_or-IsByte (n + 1) p bytes)).2

pub read_u32-lt : (n : ℕ) (p : List ℕ) → All IsByte p → read_u32 p n < 2 ^ 32
unfolding read_u32
read_u32-lt n p bytes =
    (bytes-join_u32 _ _ _ _ (get_or-IsByte n p bytes) (get_or-IsByte (n + 1) p bytes)
      (get_or-IsByte (n + 2) p bytes) (get_or-IsByte (n + 3) p bytes)).4

-- A byte string taken apart from its end: `r` is what stands behind the field at `n`.
module _ (p : List ℕ) (bytes : All IsByte p) where
  pub before_u8 :
      (n : ℕ) {r : List ℕ} → n + 1 ≤ length p → r ≡ drop (n + 1) p → get_or p n 0 ∷ r ≡ drop n p
  before_u8 n h e = ap (λ t. get_or p n 0 ∷ t) e ∙ sym (drop-cons n p 0 (omega arith))

  pub before_u16 :
      (n : ℕ) {r : List ℕ}
      → n + 2 ≤ length p
      → r ≡ drop (n + 2) p
      → u16_bytes (read_u16 p n) ++ r ≡ drop n p
  before_u16 n h e = ap (λ t. u16_bytes (read_u16 p n) ++ t) e ∙ u16_bytes-read_u16 n p bytes h

  pub before_u32 :
      (n : ℕ) {r : List ℕ}
      → n + 4 ≤ length p
      → r ≡ drop (n + 4) p
      → u32_bytes (read_u32 p n) ++ r ≡ drop n p
  before_u32 n h e = ap (λ t. u32_bytes (read_u32 p n) ++ t) e ∙ u32_bytes-read_u32 n p bytes h
