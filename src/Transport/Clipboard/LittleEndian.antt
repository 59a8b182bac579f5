-- ===== src/Transport/Clipboard/LittleEndian.antt =====
-- What `read_le` computes, as a sum; that `write_le` and `read_le` undo one another at the widths in
-- use follows from it by arithmetic.
use plank.Common.{
  drop-cons, ℕ, zero, suc, ◌+◌, ◌*◌, ◌/◌, ◌^◌, ◌≤◌, ◌<◌, ◌≡◌, ap, arith, List, [], ◌∷◌, length,
  get_or, take, drop, All, bit_or,
}
use plank.Common.Bits.{IsByte, u8, u64, bit_or_add}
use plank.Transport.Clipboard.{read_le_loop, read_le}
use native.Mathlib.Nat.{pow-suc, pow-le-pow_right}

-- The number whose base-256 digits are the bytes, the lowest first.
abbrev pub le_value : List ℕ → ℕ
le_value [] = 0
le_value (b ∷ bs) = b + 256 * le_value bs

-- 256 ^ i
scale : ℕ → ℕ
scale i = 2 ^ (8 * i)

scale-suc : (i : ℕ) → scale (i + 1) ≡ 256 * scale i
unfolding scale
scale-suc i =
    let eight : 8 * (i + 1) ≡ suc (suc (suc (suc (suc (suc (suc (suc (8 * i)))))))) = omega arith in
    rw eight (simp pow-suc (omega arith))

scale-le : (i : ℕ) → i < 8 → scale i ≤ 2 ^ 56
unfolding scale
scale-le i h = pow-le-pow_right (omega arith) {j = 56} (omega arith)

add_byte :
    (i b result : ℕ)
    → i < 8
    → IsByte b
    → result < scale i
    → bit_or result (u64 (b * 2 ^ (8 * i))) ≡ result + b * scale i
unfolding scale
add_byte i b result hi hb h =
    let top : 2 ^ (8 * i) ≤ 2 ^ 56 = scale-le i hi in
    let product : b * 2 ^ (8 * i) ≤ 255 * 2 ^ (8 * i) = grind arith in
    let kept : u64 (b * 2 ^ (8 * i)) ≡ b * 2 ^ (8 * i) = omega (arith, top, product) in
    rw kept (bit_or_add (8 * i) b result h)

next_room : (i b result : ℕ) → IsByte b → result < scale i → result + b * scale i < scale (i + 1)
next_room i b result hb h =
    let top : b ≤ 255 = omega arith in
    let product : b * scale i ≤ 255 * scale i = grind arith in omega (arith, scale-suc i)

-- The loop adds the bytes that are left, each at its place.
read_le_loop_lem :
    (p : List ℕ) (at left i result : ℕ)
    → result < scale i
    → i + left ≤ 8
    → at + (i + left) ≤ length p
    → All IsByte (take left (drop (at + i) p))
    → read_le_loop p at left i result ≡ result + scale i * le_value (take left (drop (at + i) p))
unfolding read_le_loop
read_le_loop_lem p at zero i result h n fits bytes = omega arith
read_le_loop_lem p at (suc left) i result h n fits bytes =
    let b : ℕ = get_or p (at + i) 0 in
    let place : at + i + 1 ≡ at + (i + 1) = omega arith in
    let d : drop (at + i) p ≡ b ∷ drop (at + (i + 1)) p =
      rw (← place) (drop-cons (at + i) p 0 (omega arith)) in
    let both : All IsByte (take (suc left) (b ∷ drop (at + (i + 1)) p)) = rw d at bytes in
    let added : bit_or result (u64 (b * 2 ^ (8 * i))) ≡ result + b * scale i =
      add_byte i b result (omega arith) both.0 h in
    let tail : ℕ = le_value (take left (drop (at + (i + 1)) p)) in
    let room : result + b * scale i < scale (i + 1) = next_room i b result both.0 h in
    let rest : read_le_loop p at left (i + 1) (result + b * scale i)
        ≡ result + b * scale i + scale (i + 1) * tail =
      read_le_loop_lem p at left (i + 1) (result + b * scale i) room (omega arith) (omega arith)
        both.1 in
    rw (d, added) (omega (arith, rest, ap (λ (t : ℕ). t * tail) (scale-suc i)))

-- `read_le` is the number whose digits are the bytes that it reads.
pub read_le_lem :
    (p : List ℕ) (at n : ℕ)
    → n ≤ 8
    → at + n ≤ length p
    → All IsByte (take n (drop at p))
    → read_le p at n ≡ le_value (take n (drop at p))
unfolding read_le scale
read_le_lem p at n h fits bytes =
    let origin : at + 0 ≡ at = omega arith in
    let sum =
      read_le_loop_lem p at n 0 0 (unfold scale in omega arith) (omega arith) (omega arith)
        (rw origin bytes) in
    omega (arith, rw origin at sum)

-- The bytes of a value from the `i`-th on, as `write_le` stores them.
abbrev pub le_bytes : ℕ → ℕ → ℕ → List ℕ
le_bytes i zero value = []
le_bytes i (suc n) value = u8 (value / 2 ^ (8 * i)) ∷ le_bytes (i + 1) n value

pub le_value-le_bytes_two : (v : ℕ) → v < 2 ^ 16 → le_value (le_bytes 0 2 v) ≡ v
le_value-le_bytes_two v h = omega arith

pub le_value-le_bytes_four : (v : ℕ) → v < 2 ^ 32 → le_value (le_bytes 0 4 v) ≡ v
le_value-le_bytes_four v h = omega arith

pub le_value-le_bytes_eight : (v : ℕ) → v < 2 ^ 64 → le_value (le_bytes 0 8 v) ≡ v
le_value-le_bytes_eight v h = omega arith
