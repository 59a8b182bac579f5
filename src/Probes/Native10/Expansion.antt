-- ===== src/Probes/Native10/Expansion.antt =====
-- Which ten-bit codes are an eight-bit code with its two high bits behind it.
use plank.Common.{
  ℕ, zero, suc, ◌+◌, ◌*◌, ◌/◌, ◌%◌, ◌≤◌, ◌<◌, ◌≡◌, ◌↔◌, refl, ◌∙◌, sym, arith, Bool, true, ◌==◌,
  bit_or, Bool-cases, inl, inr,
}
use plank.Common.Below.{all_below, all_below_lem}
use plank.Probes.Native10.{expands_from, is_eight_to_ten_expansion}

joins : ℕ → Bool
joins s = bit_or (s * 4) (s / 64) == s * 4 + s / 64

joins_tests : all_below joins 256 ≡ true
unfolding all_below joins
joins_tests = refl

joins_lem : (s : ℕ) → s < 256 → bit_or (s * 4) (s / 64) ≡ s * 4 + s / 64
unfolding joins
joins_lem s byte = let e = all_below_lem joins 256 s joins_tests byte in ground (arith, e)

found :
    (value source n : ℕ)
    → source + n ≤ 256
    → expands_from value source n ≡ true
    → (k : ℕ) × (k < 256) × (k * 4 + k / 64 ≡ value)
unfolding expands_from
found value source zero room e = absurd (cc e)
found value source (suc n) room e = elim (Bool-cases (bit_or (source * 4) (source / 64) == value)) [
  | inl here ↦
      let whole = joins_lem source (omega (arith, room)) in
      (source, omega (arith, room), ground (arith, whole, here))
  | inr later ↦ found value (suc source) n (omega (arith, room)) (sym (rw later refl) ∙ e)
]

finds :
    (value source n k : ℕ)
    → source + n ≤ 256
    → source ≤ k
    → k < source + n
    → k * 4 + k / 64 ≡ value
    → expands_from value source n ≡ true
unfolding expands_from
finds value source zero k room low high e = absurd (omega (arith, low, high))
finds value source (suc n) k room low high e =
    elim (Bool-cases (bit_or (source * 4) (source / 64) == value)) [
      | inl here ↦ rw here refl
      | inr other ↦
          let whole = joins_lem source (omega (arith, room)) in
          let new : source < k = elim (Bool-cases (source == k)) [
            | inl same ↦ absurd (ground (arith, same, whole, other, e))
            | inr differ ↦ ground (arith, differ, low)
          ] in
          rw other (finds value (suc source) n k (omega (arith, room)) new (omega (arith, high)) e)
    ]

-- A value is an expansion exactly where it has ten bits and its two low bits are its two high ones.
pub is_eight_to_ten_expansion_lem :
    (value : ℕ)
    → (is_eight_to_ten_expansion value ≡ true) ↔ ((value < 1024) × (value % 4 ≡ value / 256))
unfolding is_eight_to_ten_expansion
is_eight_to_ten_expansion_lem value = (
  λ e.
      let (k, byte, whole) = found value 0 256 (omega arith) e in
      (omega (arith, byte, whole), omega (arith, byte, whole)),
  λ (ten, same).
      finds value 0 256 (value / 4) (omega arith) (omega arith) (omega (arith, ten))
        (omega (arith, ten, same)),
)
