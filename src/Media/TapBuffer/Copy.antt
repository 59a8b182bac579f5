-- ===== src/Media/TapBuffer/Copy.antt =====
-- What the loop of `push` leaves in a block.
use plank.Common.{
  ℕ, zero, suc, ◌+◌, ◌*◌, ◌≤◌, ◌<◌, ◌≡◌, ◌⊎◌, inl, inr, ap, sym, ◌∙◌, arith, Bool, true, Option,
}
use plank.Media.TapBuffer.{update, left_sample, right_sample, copy}
use plank.Media.TapBuffer.Contents.{update_ne, update_self}

module _ {Sample : Type 0} where
  copy_step :
      (is_finite : Sample → Bool) (left : ℕ → Sample) (right : Option (ℕ → Sample)) (rest i : ℕ)
      (samples out : ℕ → Sample)
      → copy is_finite left right (suc rest) i samples ≡ (true, out)
      → (is_finite (left_sample left right i) ≡ true)
        × (is_finite (right_sample left right i) ≡ true)
        × (copy is_finite left right rest (i + 1) (
              update
                (update samples (i * 2) (left_sample left right i))
                (i * 2 + 1)
                (right_sample left right i))
            ≡ (true, out))
  unfolding copy
  copy_step is_finite left right rest i samples out e = ground arith

  -- Where the copy succeeds, every frame is in place and finite, and what is below them is as it was.
  pub copy_lem :
      (is_finite : Sample → Bool) (left : ℕ → Sample) (right : Option (ℕ → Sample)) (rest i : ℕ)
      (samples out : ℕ → Sample)
      → copy is_finite left right rest i samples ≡ (true, out)
      → ((k : ℕ) → k < i * 2 → out k ≡ samples k)
        × ((j : ℕ)
            → i ≤ j
            → j < i + rest
            → (out (j * 2) ≡ left_sample left right j)
              × (out (j * 2 + 1) ≡ right_sample left right j)
              × (is_finite (left_sample left right j) ≡ true)
              × (is_finite (right_sample left right j) ≡ true))
  unfolding copy
  copy_lem is_finite left right zero i samples out e =
      (λ k h. ap (λ r. r.1 k) (sym e), λ j low high. absurd (omega arith))
  copy_lem is_finite left right (suc rest) i samples out e =
      let l = left_sample left right i in
      let r = right_sample left right i in
      let first = update samples (i * 2) l in
      let both = update first (i * 2 + 1) r in
      let (l_good, r_good, behind) = copy_step is_finite left right rest i samples out e in
      let (below, above) = copy_lem is_finite left right rest (i + 1) both out behind in
      (
        λ k h.
            below k (omega arith)
            ∙ update_ne first (i * 2 + 1) k r (omega arith)
            ∙ update_ne samples (i * 2) k l (omega arith),
        λ j low high. elim (same_or_above i j low) [
          | inl here ↦ rw (← here) (
            below (i * 2) (omega arith)
                ∙ update_ne first (i * 2 + 1) (i * 2) r (omega arith)
                ∙ update_self samples (i * 2) l,
            below (i * 2 + 1) (omega arith) ∙ update_self first (i * 2 + 1) r,
            l_good,
            r_good,
          )
          | inr up ↦ above j (omega (arith, up)) (omega arith)
        ],
      )
    where
      same_or_above : (i j : ℕ) → i ≤ j → (i ≡ j) ⊎ (i < j)
      same_or_above i j low = omega arith
