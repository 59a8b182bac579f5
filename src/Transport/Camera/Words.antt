-- ===== src/Transport/Camera/Words.antt =====
-- The 64-bit words of a camera record: reading and writing undo one another.
use plank.Common.{
  ℕ, ◌+◌, ◌*◌, ◌/◌, ◌^◌, ◌≤◌, ◌<◌, ◌≡◌, ap, ap₂, ◌∙◌, arith, List, ◌++◌, length, drop, All,
}
use plank.Common.Bits.{IsByte, u8, u32, bit_or_join}
use plank.Transport.BigEndian.{join_u32, read_u32, u32_bytes}
use plank.Transport.BigEndian.Laws.{join_u32-bytes}
use plank.Transport.BigEndian.Inverse.{u32_bytes-read_u32, read_u32-lt}
use plank.Transport.Camera.{join_u64, read_u64}

-- The eight bytes of a word, high byte first.
abbrev pub u64_bytes : ℕ → List ℕ
u64_bytes v = u32_bytes (u32 (v / 2 ^ 32)) ++ u32_bytes (u32 v)

join_u64-sum : (high low : ℕ) → low < 2 ^ 32 → join_u64 high low ≡ high * 2 ^ 32 + low
unfolding join_u64
join_u64-sum high low h = bit_or_join 32 high low h

-- The word whose bytes these are.
abbrev join_bytes : ℕ → ℕ
join_bytes v = join_u32 (u8 (v / 2 ^ 24)) (u8 (v / 2 ^ 16)) (u8 (v / 2 ^ 8)) (u8 v)

pub join_u64-bytes :
    (v : ℕ) → v < 2 ^ 64 → join_u64 (join_bytes (u32 (v / 2 ^ 32))) (join_bytes (u32 v)) ≡ v
join_u64-bytes v h =
    let high = join_u32-bytes (u32 (v / 2 ^ 32)) (omega arith) in
    let low = join_u32-bytes (u32 v) (omega arith) in
    ap₂ join_u64 high low ∙ omega (arith, join_u64-sum (u32 (v / 2 ^ 32)) (u32 v) (omega arith))

pub u64_bytes-read_u64 :
    (n : ℕ) (p : List ℕ)
    → All IsByte p
    → n + 8 ≤ length p
    → u64_bytes (read_u64 p n) ++ drop (n + 8) p ≡ drop n p
unfolding read_u64
u64_bytes-read_u64 n p bytes h =
    let high : ℕ = read_u32 p n in
    let low : ℕ = read_u32 p (n + 4) in
    let high_fits : high < 2 ^ 32 = read_u32-lt n p bytes in
    let low_fits : low < 2 ^ 32 = read_u32-lt (n + 4) p bytes in
    let sum = join_u64-sum high low low_fits in
    let upper : u32 (join_u64 high low / 2 ^ 32) ≡ high = omega (arith, sum) in
    let lower : u32 (join_u64 high low) ≡ low = omega (arith, sum) in
    let next : n + 4 + 4 ≡ n + 8 = omega arith in
    rw (upper, lower)
      (ap (λ t. u32_bytes high ++ t) (rw next at (u32_bytes-read_u32 (n + 4) p bytes (omega arith)))
        ∙ u32_bytes-read_u32 n p bytes (omega arith))

pub read_u64-lt : (n : ℕ) (p : List ℕ) → All IsByte p → read_u64 p n < 2 ^ 64
unfolding read_u64
read_u64-lt n p bytes = omega (
  arith,
  read_u32-lt n p bytes,
  read_u32-lt (n + 4) p bytes,
  join_u64-sum (read_u32 p n) (read_u32 p (n + 4)) (read_u32-lt (n + 4) p bytes),
)

pub before_u64 :
    (p : List ℕ) (bytes : All IsByte p) (n : ℕ) {r : List ℕ}
    → n + 8 ≤ length p
    → r ≡ drop (n + 8) p
    → u64_bytes (read_u64 p n) ++ r ≡ drop n p
before_u64 p bytes n h e =
    ap (λ t. u64_bytes (read_u64 p n) ++ t) e ∙ u64_bytes-read_u64 n p bytes h
