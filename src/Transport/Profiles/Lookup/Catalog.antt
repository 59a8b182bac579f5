-- ===== src/Transport/Profiles/Lookup/Catalog.antt =====
-- The catalog is in the order of its identities, and its modes are distinct.
use plank.Common.{
  ℕ, zero, suc, ◌≤◌, ◌<◌, ◌≡◌, ◌⊎◌, inl, inr, refl, ap, Bool-cases, arith, ltb, none, some,
}
use Prim.Native.String.{len}
use plank.Transport.Profiles.{ℤ, pos, negsuc, Profile}
use plank.Transport.Profiles.Lookup.{element, is_text, profile, find_named, profile_named}

-- A profile is found by its identity and by its mode.
abbrev pub IsEntry : ℕ → Type 0
IsEntry id =
    (p : Profile) × (profile (pos id) ≡ some p)
    × (p.id ≡ id)
    × (profile_named (some p.mode) (len p.mode) ≡ some p)

entries : (id : ℕ) → id < 9 → IsEntry id
unfolding profile profile_named find_named is_text element
entries zero below = (_, refl, refl, refl)
entries (suc zero) below = (_, refl, refl, refl)
entries (suc (suc zero)) below = (_, refl, refl, refl)
entries (suc (suc (suc zero))) below = (_, refl, refl, refl)
entries (suc (suc (suc (suc zero)))) below = (_, refl, refl, refl)
entries (suc (suc (suc (suc (suc zero))))) below = (_, refl, refl, refl)
entries (suc (suc (suc (suc (suc (suc zero)))))) below = (_, refl, refl, refl)
entries (suc (suc (suc (suc (suc (suc (suc zero))))))) below = (_, refl, refl, refl)
entries (suc (suc (suc (suc (suc (suc (suc (suc zero)))))))) below = (_, refl, refl, refl)
entries (suc (suc (suc (suc (suc (suc (suc (suc (suc n))))))))) below = absurd (omega arith)

-- An identity has no profile, or its profile has that identity and is found by the name of its mode, so
-- no two profiles share a mode; from 0 to 8 there is one.
pub profile_lem :
    (id : ℤ)
    → ((profile id ≡ none) × ((n : ℕ) → id ≡ pos n → 9 ≤ n))
      ⊎ ((p : Profile) × (profile id ≡ some p)
          × (pos p.id ≡ id)
          × (profile_named (some p.mode) (len p.mode) ≡ some p))
unfolding profile
profile_lem (negsuc n) = inl (refl, λ m e. absurd (cc e))
profile_lem (pos n) = elim (Bool-cases (ltb n 9)) [
  | inl below ↦
      let (p, found, same, named) = entries n (ground (arith, below)) in
      inr (p, found, ap pos same, named)
  | inr above ↦ inl (rw above refl, λ m e. ground (arith, above, e))
]
