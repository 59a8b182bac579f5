-- ===== src/Media/TapBuffer/Contents.antt =====
-- The blocks that wait in a ring, oldest first, and the arithmetic of its 32-bit indices.
use plank.Common.{
  ℕ, zero, suc, ◌+◌, ◌%◌, ◌^◌, ◌≤◌, ◌<◌, ◌≡◌, ◌≢◌, refl, ap, ap₂, ◌∙◌, arith, List, [], ◌∷◌, ◌++◌,
  length,
}
use plank.Common.Bits.{u32}
use plank.Media.TapBuffer.{Block, Buffer, slots, distance, update}

module _ {ℓ} {A : Type ℓ} where
  -- The `n` entries from an index on; the index wraps around at 2 ^ 32.
  abbrev pub ring_from : ℕ → ℕ → (ℕ → A) → List A
  ring_from zero index f = []
  ring_from (suc n) index f = f (index % slots) ∷ ring_from n (u32 (index + 1)) f

  pub length-ring_from : (n index : ℕ) (f : ℕ → A) → length (ring_from n index f) ≡ n
  length-ring_from zero index f = refl
  length-ring_from (suc n) index f = ap suc (length-ring_from n (u32 (index + 1)) f)

  pub update_ne : (f : ℕ → A) (k i : ℕ) (a : A) → i ≢ k → update f k a i ≡ f i
  update_ne f k i a other = ground arith

  pub update_self : (f : ℕ → A) (k : ℕ) (a : A) → update f k a k ≡ a
  update_self f k a = ground arith

  -- What is written behind the entries, at most 15, leaves them alone.
  pub ring_from-update :
      (n index back : ℕ) (f : ℕ → A) (a : A)
      → n + back < slots
      → ring_from n index (update f (u32 (index + n + back) % slots) a) ≡ ring_from n index f
  ring_from-update zero index back f a few = refl
  ring_from-update (suc n) index back f a few =
      let slot = u32 (index + suc n + back) % slots in
      let same : u32 (index + suc n + back) ≡ u32 (u32 (index + 1) + n + back) = omega arith in
      ap₂ ◌∷◌ (update_ne f slot (index % slots) a (omega arith))
        (rw same (ring_from-update n (u32 (index + 1)) back f a (omega arith)))

  -- One entry more is one entry more at the end.
  pub ring_from-suc :
      (n index : ℕ) (f : ℕ → A)
      → ring_from (suc n) index f ≡ ring_from n index f ++ (f (u32 (index + n) % slots) ∷ [])
  ring_from-suc zero index f =
      let same : u32 (index + 0) % slots ≡ index % slots = omega arith in rw same refl
  ring_from-suc (suc n) index f =
      let same : u32 (index + suc n) ≡ u32 (u32 (index + 1) + n) = omega arith in
      ap (λ rest. f (index % slots) ∷ rest) (rw same (ring_from-suc n (u32 (index + 1)) f))

  -- The same at the index that is written next: the entries before it stay, and it is one more.
  pub ring_from-write :
      (n index write : ℕ) (f : ℕ → A) (a : A)
      → write ≡ u32 (index + n)
      → n < slots
      → (ring_from n index (update f (write % slots) a) ≡ ring_from n index f)
        × (ring_from (suc n) index (update f (write % slots) a) ≡ ring_from n index f ++ (a ∷ []))
  ring_from-write n index write f a here few =
      let slot = u32 (index + n) % slots in
      let same : write ≡ u32 (index + n + 0) = omega (arith, here) in
      let stays : ring_from n index (update f (write % slots) a) ≡ ring_from n index f =
        rw same (ring_from-update n index 0 f a (omega (arith, few))) in
      (
        stays,
        ring_from-suc n index (update f (write % slots) a)
            ∙ ap₂ (λ x y. x ++ (y ∷ [])) stays (rw here (update_self f slot a)),
      )

module _ {Sample Position : Type 0} where
  -- How many blocks wait.
  abbrev pub count : Buffer Sample Position → ℕ
  count b = distance b.write_index b.read_index

  unfoldable pub contents : Buffer Sample Position → List (Block Sample Position)
  contents b = ring_from (count b) b.read_index b.blocks

  -- The indices are 32-bit numbers, at most 16 blocks apart.
  pub record IsValid (b : Buffer Sample Position) : Type 0 where
    pub read_fits : b.read_index < 2 ^ 32
    pub write_fits : b.write_index < 2 ^ 32
    pub bounded : count b ≤ slots
