-- ===== src/Common/Bits.antt =====
-- Bytes of a word: shifts as products and quotients, `|` of disjoint fields as a sum, `&` with a
-- mask of low bits as a remainder. The operations mean a recursion on binary digits.
use Prim.Native.Nat.{
  ℕ, zero, suc, ◌+◌, ◌-◌, ◌*◌, ◌/◌, ◌%◌, ◌^◌, ◌≤◌, ◌<◌, min, max, bit_and, bit_or, digits, bitwise,
  bit_and-bitwise, bit_or-bitwise,
}
use mathlib.Core.Path.{◌≡◌, refl, ap}
use native.Mathlib.Nat.{pow-suc, one-le-pow, le_refl}
use native.Mathlib.Omega.{arith}

abbrev pub IsByte : ℕ → Type 0
IsByte b = b < 256

-- Casts to the unsigned widths.
abbrev pub u8 : ℕ → ℕ
u8 n = n % 2 ^ 8

abbrev pub u16 : ℕ → ℕ
u16 n = n % 2 ^ 16

abbrev pub u32 : ℕ → ℕ
u32 n = n % 2 ^ 32

abbrev pub u64 : ℕ → ℕ
u64 n = n % 2 ^ 64

-- More fuel than the left number changes no digit.
module _ (rest : ℕ → ℕ) (op : ℕ → ℕ → ℕ) where
  digits_enough : (m n x y : ℕ) → x ≤ m → x ≤ n → digits rest op m x y ≡ digits rest op n x y
  digits_enough zero zero x y hm hn = refl
  digits_enough (suc m) zero zero y hm hn = refl
  digits_enough (suc m) zero (suc x) y hm hn = absurd (omega arith)
  digits_enough zero (suc n) zero y hm hn = refl
  digits_enough zero (suc n) (suc x) y hm hn = absurd (omega arith)
  digits_enough (suc m) (suc n) zero y hm hn = refl
  digits_enough (suc m) (suc n) (suc x) y hm hn =
      ap (λ t. t * 2 + op (suc x % 2) (y % 2))
        (digits_enough m n (suc x / 2) (y / 2) (omega arith) (omega arith))

  bitwise_digit :
      (x y : ℕ)
      → bitwise rest op (suc x) y ≡ bitwise rest op (suc x / 2) (y / 2) * 2 + op (suc x % 2) (y % 2)
  bitwise_digit x y =
      ap (λ t. t * 2 + op (suc x % 2) (y % 2))
        (digits_enough x (suc x / 2) (suc x / 2) (y / 2) (omega arith) (le_refl _))

bit_or_digit : (x y : ℕ) → bit_or x y ≡ bit_or (x / 2) (y / 2) * 2 + max (x % 2) (y % 2)
bit_or_digit zero y = omega (arith, bit_or-bitwise 0 y, bit_or-bitwise 0 (y / 2))
bit_or_digit (suc x) y = omega (
  arith,
  bit_or-bitwise (suc x) y,
  bit_or-bitwise (suc x / 2) (y / 2),
  bitwise_digit (λ b. b) max x y,
)

pub bit_and_digit : (x y : ℕ) → bit_and x y ≡ bit_and (x / 2) (y / 2) * 2 + min (x % 2) (y % 2)
bit_and_digit zero y = omega (arith, bit_and-bitwise 0 y, bit_and-bitwise 0 (y / 2))
bit_and_digit (suc x) y = omega (
  arith,
  bit_and-bitwise (suc x) y,
  bit_and-bitwise (suc x / 2) (y / 2),
  bitwise_digit (λ b. zero) min x y,
)

bit_or-zero_below : (n x : ℕ) → x ≤ n → bit_or x 0 ≡ x
bit_or-zero_below n zero h = refl
bit_or-zero_below zero (suc x) h = absurd (omega arith)
bit_or-zero_below (suc n) (suc x) h =
    omega (arith, bit_or_digit (suc x) 0, bit_or-zero_below n (suc x / 2) (omega arith))

pub bit_or-zero : (x : ℕ) → bit_or x 0 ≡ x
bit_or-zero x = bit_or-zero_below x x (le_refl x)

bit_and-zero_below : (n x : ℕ) → x ≤ n → bit_and x 0 ≡ 0
bit_and-zero_below n zero h = refl
bit_and-zero_below zero (suc x) h = absurd (omega arith)
bit_and-zero_below (suc n) (suc x) h =
    omega (arith, bit_and_digit (suc x) 0, bit_and-zero_below n (suc x / 2) (omega arith))

pub bit_and-zero : (x : ℕ) → bit_and x 0 ≡ 0
bit_and-zero x = bit_and-zero_below x x (le_refl x)

-- A high field above `k` bits, or-ed with a low field that fits them.
pub bit_or_join : (k high low : ℕ) → low < 2 ^ k → bit_or (high * 2 ^ k) low ≡ high * 2 ^ k + low
bit_or_join zero high low h =
    let none_low : low ≡ 0 = omega arith in rw none_low (omega (arith, bit_or-zero (high * 1)))
bit_or_join (suc k) high low h =
    let twice : high * 2 ^ suc k ≡ 2 * (high * 2 ^ k) =
      omega (arith, ap (λ (t : ℕ). high * t) (pow-suc 2 k)) in
    omega (
      arith,
      twice,
      pow-suc 2 k,
      bit_or_digit (high * 2 ^ suc k) low,
      ap (λ (t : ℕ). bit_or t (low / 2)) {x = high * 2 ^ suc k / 2} {y = high * 2 ^ k}
          (omega arith),
      bit_or_join k high (low / 2) (omega (arith, pow-suc 2 k)),
    )

-- `&` with `k` ones keeps the field of the `k` low bits.
bit_and_low_field : (k high low : ℕ) → low < 2 ^ k → bit_and (high * 2 ^ k + low) (2 ^ k - 1) ≡ low
bit_and_low_field zero high low h = omega (arith, bit_and-zero (high * 1 + low))
bit_and_low_field (suc k) high low h =
    let two : 2 ^ suc k ≡ 2 ^ k * 2 = pow-suc 2 k in
    let whole : ℕ = high * 2 ^ suc k + low in
    let mask : (2 ^ suc k - 1) / 2 ≡ 2 ^ k - 1 = omega (arith, two, one-le-pow k 2) in
    let twice : high * 2 ^ suc k ≡ 2 * (high * 2 ^ k) =
      omega (arith, ap (λ (t : ℕ). high * t) two) in
    let half : whole / 2 ≡ high * 2 ^ k + low / 2 = omega (arith, twice) in
    let step : bit_and (whole / 2) ((2 ^ suc k - 1) / 2) ≡ low / 2 =
      rw (half, mask) (bit_and_low_field k high (low / 2) (omega (arith, two))) in
    omega (arith, two, twice, one-le-pow k 2, bit_and_digit whole (2 ^ suc k - 1), step)

pub bit_and_low : (k x : ℕ) → bit_and x (2 ^ k - 1) ≡ x % 2 ^ k
bit_and_low k x =
    let parts : x / 2 ^ k * 2 ^ k + x % 2 ^ k ≡ x = omega (arith, one-le-pow k 2) in
    rw parts at (bit_and_low_field k (x / 2 ^ k) (x % 2 ^ k) (omega (arith, one-le-pow k 2)))

-- `&` with all bits of a 32-bit word but the two lowest.
pub bit_and_above_two : (x : ℕ) → x < 2 ^ 32 → bit_and x 0xffff_fffc ≡ x / 4 * 4
bit_and_above_two x h = omega (
  arith,
  bit_and_digit x 0xffff_fffc,
  bit_and_digit (x / 2) 0x7fff_fffe,
  bit_and_low 30 (x / 2 / 2),
)

zero-bit_or : (y : ℕ) → bit_or 0 y ≡ y
zero-bit_or y = bit_or-bitwise 0 y

-- A low field that fits `k` bits, or-ed with a field above them.
pub bit_or_add : (k high low : ℕ) → low < 2 ^ k → bit_or low (high * 2 ^ k) ≡ low + high * 2 ^ k
bit_or_add zero high low h =
    let none_low : low ≡ 0 = omega arith in rw none_low (omega (arith, zero-bit_or (high * 1)))
bit_or_add (suc k) high low h =
    let two : 2 ^ suc k ≡ 2 ^ k * 2 = pow-suc 2 k in
    let twice : high * 2 ^ suc k ≡ 2 * (high * 2 ^ k) =
      omega (arith, ap (λ (t : ℕ). high * t) two) in
    let half : high * 2 ^ suc k / 2 ≡ high * 2 ^ k = omega (arith, twice) in
    omega (
      arith,
      twice,
      two,
      bit_or_digit low (high * 2 ^ suc k),
      ap (λ (t : ℕ). bit_or (low / 2) t) half,
      bit_or_add k high (low / 2) (omega (arith, two)),
    )
