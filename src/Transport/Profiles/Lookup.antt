-- ===== src/Transport/Profiles/Lookup.antt =====
-- plank_encoding_profiles.h: what is asked of the catalog.
pub mod Catalog
mod Tests
use plank.Common.{
  ℕ, zero, suc, ◌+◌, ◌-◌, ◌*◌, ◌%◌, ◌^◌, Bool, true, false, not, ◌||◌, ◌&&◌, ltb, leb, ◌==◌, ◌!=◌,
  if◌then◌else◌, Option, none, some, List, [], ◌∷◌, bit_and,
}
use Prim.Native.String.{String, len, slice, compare}
use Prim.Native.Nat.{Ordering}
use plank.Transport.Profiles.{ℤ, pos, negsuc, Profile, catalog}

-- The element of an array at an index.
pub element {ℓ} : {A : Type ℓ} → List A → ℕ → Option A
element [] i = none
element (x ∷ xs) zero = some x
element (x ∷ xs) (suc i) = element xs i

-- strlen and memcmp: the first bytes of the text, as many as it says, are the entry.
pub is_text : String → String → ℕ → Bool
is_text entry text length = len entry == length && elim (compare (slice text 0 length) entry) [
  | Ordering.lt ↦ false
  | Ordering.eq ↦ true
  | Ordering.gt ↦ false
]

pub profile : ℤ → Option Profile
profile (pos id) = if ltb id 9 then element catalog id else none
profile (negsuc n) = none

-- The loop over the catalog.
pub find_named : String → ℕ → List Profile → Option Profile
find_named text length [] = none
find_named text length (p ∷ rest) =
    let later = find_named text length rest in if is_text p.mode text length then some p else later

pub profile_named : Option String → ℕ → Option Profile
profile_named none length = none
profile_named (some text) length = find_named text length catalog

pub capture_name : ℤ → Option String
capture_name (pos capture) =
    if ltb capture 3
    then element ("nvfbc" ∷ "x11-native10" ∷ "screencapturekit" ∷ []) capture
    else none
capture_name (negsuc n) = none

pub supports_capture : Option Profile → ℤ → Bool
supports_capture none capture = false
supports_capture (some p) (negsuc n) = false
supports_capture (some p) (pos capture) = ltb capture 3 && bit_and p.capture_mask (2 ^ capture) != 0

pub explicit_dimensions : Option Profile → ℤ → ℤ → Bool
explicit_dimensions none width height = false
explicit_dimensions (some p) (negsuc w) height = false
explicit_dimensions (some p) (pos width) (negsuc h) = false
explicit_dimensions (some p) (pos width) (pos height) =
    width != 0
    && height != 0
    && (p.width_limit == 0 || leb width p.width_limit)
    && (p.height_limit == 0 || leb height p.height_limit)
    && width % p.alignment == 0
    && height % p.alignment == 0
