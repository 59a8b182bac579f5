-- ===== src/Transport/BigEndian/Laws.antt =====
-- Reading and writing big-endian words undo one another.
use plank.Common.{ℕ, ◌+◌, ◌*◌, ◌/◌, ◌^◌, ◌<◌, ◌≡◌, ap, ◌∙◌, arith, bit_or}
use plank.Common.Bits.{IsByte, u8, bit_or_join}
use plank.Transport.BigEndian.{join_u16, join_u32}

pub join_u16-sum : (a b : ℕ) → IsByte a → IsByte b → join_u16 a b ≡ a * 2 ^ 8 + b
unfolding join_u16
join_u16-sum a b ha hb = omega (arith, bit_or_join 8 a b hb)

pub join_u32-sum :
    (a b c d : ℕ)
    → IsByte a
    → IsByte b
    → IsByte c
    → IsByte d
    → join_u32 a b c d ≡ a * 2 ^ 24 + b * 2 ^ 16 + c * 2 ^ 8 + d
unfolding join_u32
join_u32-sum a b c d ha hb hc hd =
    let s : ℕ = (a * 2 ^ 8 + b) * 2 ^ 16 in
    let t : ℕ = ((a * 2 ^ 8 + b) * 2 ^ 8 + c) * 2 ^ 8 in
    let first : bit_or (a * 2 ^ 24) (b * 2 ^ 16) ≡ s =
      omega (arith, bit_or_join 24 a (b * 2 ^ 16) (omega arith)) in
    let second : bit_or s (c * 2 ^ 8) ≡ t =
      omega (arith, bit_or_join 16 (a * 2 ^ 8 + b) (c * 2 ^ 8) (omega arith)) in
    let third : bit_or t d ≡ a * 2 ^ 24 + b * 2 ^ 16 + c * 2 ^ 8 + d =
      omega (arith, bit_or_join 8 ((a * 2 ^ 8 + b) * 2 ^ 8 + c) d hd) in
    ap (λ x. bit_or (bit_or x (c * 2 ^ 8)) d) first ∙ ap (λ x. bit_or x d) second ∙ third

pub join_u16-bytes : (v : ℕ) → v < 2 ^ 16 → join_u16 (u8 (v / 2 ^ 8)) (u8 v) ≡ v
join_u16-bytes v h = omega (arith, join_u16-sum (u8 (v / 2 ^ 8)) (u8 v))

pub join_u32-bytes :
    (v : ℕ) → v < 2 ^ 32 → join_u32 (u8 (v / 2 ^ 24)) (u8 (v / 2 ^ 16)) (u8 (v / 2 ^ 8)) (u8 v) ≡ v
join_u32-bytes v h =
    omega (arith, join_u32-sum (u8 (v / 2 ^ 24)) (u8 (v / 2 ^ 16)) (u8 (v / 2 ^ 8)) (u8 v))

pub bytes-join_u16 :
    (a b : ℕ)
    → IsByte a
    → IsByte b
    → (u8 (join_u16 a b / 2 ^ 8) ≡ a) × (u8 (join_u16 a b) ≡ b) × (join_u16 a b < 2 ^ 16)
bytes-join_u16 a b ha hb = omega (arith, join_u16-sum a b ha hb)

pub bytes-join_u32 :
    (a b c d : ℕ)
    → IsByte a
    → IsByte b
    → IsByte c
    → IsByte d
    → (u8 (join_u32 a b c d / 2 ^ 24) ≡ a)
      × (u8 (join_u32 a b c d / 2 ^ 16) ≡ b)
      × (u8 (join_u32 a b c d / 2 ^ 8) ≡ c)
      × (u8 (join_u32 a b c d) ≡ d)
      × (join_u32 a b c d < 2 ^ 32)
bytes-join_u32 a b c d ha hb hc hd = omega (arith, join_u32-sum a b c d ha hb hc hd)
