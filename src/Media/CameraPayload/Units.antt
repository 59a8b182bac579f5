-- ===== src/Media/CameraPayload/Units.antt =====
-- The units that the parser of H.264 access units records: where they are, and of which types.
use plank.Common.{
  ℕ, zero, suc, ◌+◌, ◌≤◌, ◌<◌, ◌≡◌, ◌⊎◌, inl, inr, refl, ap, sym, ◌∙◌, arith, Bool, true, false,
  ◌||◌, ◌==◌, if◌then◌else◌, List, [], ◌∷◌, ◌++◌, length, get_or, bit_and, All, Bool-cases,
}
use plank.Media.CameraPayload.{Nal, Payload, max_nals}

-- A unit inside `size` bytes, not empty.
abbrev pub IsInside : ℕ → Nal → Type 0
IsInside size n = (n.offset + n.size ≤ size) × (0 < n.size)

-- A unit of the bytes: inside them, and its type is what its first byte says.
abbrev pub IsUnit : List ℕ → ℕ → Nal → Type 0
IsUnit bytes size n = IsInside size n × (n.nal_type ≡ bit_and (get_or bytes n.offset 0) 31)

-- The type of the unit at an index.
pub type_at : List Nal → ℕ → ℕ
type_at [] k = 0
type_at (n ∷ ns) zero = n.nal_type
type_at (n ∷ ns) (suc k) = type_at ns k

type_at-append :
    (ns : List Nal) (n : Nal) (k : ℕ) → k < length ns → type_at (ns ++ (n ∷ [])) k ≡ type_at ns k
unfolding type_at
type_at-append [] n k small = absurd (omega (arith, small))
type_at-append (m ∷ ns) n zero small = refl
type_at-append (m ∷ ns) n (suc k) small = type_at-append ns n k (omega (arith, small))

type_at-snoc : (ns : List Nal) (n : Nal) → type_at (ns ++ (n ∷ [])) (length ns) ≡ n.nal_type
unfolding type_at
type_at-snoc [] n = refl
type_at-snoc (m ∷ ns) n = type_at-snoc ns n

-- An index is the one that stands for no unit, or that of a unit of a type.
abbrev pub IsRecorded : List Nal → ℕ → ℕ → ℕ → Type 0
IsRecorded ns count index type = (index ≡ max_nals) ⊎ ((index < count) × (type_at ns index ≡ type))

-- One of the units is of a type.
abbrev pub HasType : List Nal → ℕ → ℕ → Type 0
HasType ns count type = (k : ℕ) × (k < count) × (type_at ns k ≡ type)

-- A sequence and a picture parameter set stand at the indices, and there is a unit of an independent
-- picture.
abbrev pub IsWhole : Payload → Type 0
IsWhole p =
    (p.sps < p.count)
    × (p.pps < p.count)
    × (type_at p.nals p.sps ≡ 7)
    × (type_at p.nals p.pps ≡ 8)
    × HasType p.nals p.count 5

pub IsRecorded-snoc :
    (ns : List Nal) (n : Nal) (count index wanted : ℕ)
    → length ns ≡ count
    → IsRecorded ns count index wanted
    → IsRecorded (ns ++ (n ∷ [])) (count + 1) (if n.nal_type == wanted then count else index) wanted
IsRecorded-snoc ns n count index wanted counted old = elim (Bool-cases (n.nal_type == wanted)) [
  | inl new ↦
      let kind : n.nal_type ≡ wanted = ground (arith, new) in
      rw new
        (inr (omega arith, ap (type_at (ns ++ (n ∷ []))) (sym counted) ∙ type_at-snoc ns n ∙ kind))
  | inr other ↦ rw other (elim old [
    | inl nowhere ↦ inl nowhere
    | inr (low, kind) ↦
        inr (omega (arith, low), type_at-append ns n index (omega (arith, low, counted)) ∙ kind)
  ])
]

pub HasType-snoc :
    (ns : List Nal) (n : Nal) (count wanted : ℕ) (before : Bool)
    → length ns ≡ count
    → (before ≡ true → HasType ns count wanted)
    → (before || n.nal_type == wanted) ≡ true
    → HasType (ns ++ (n ∷ [])) (count + 1) wanted
HasType-snoc ns n count wanted true counted old e =
    let (k, low, kind) = old refl in
    (k, omega (arith, low), type_at-append ns n k (omega (arith, low, counted)) ∙ kind)
HasType-snoc ns n count wanted false counted old e =
    let kind : n.nal_type ≡ wanted = ground (arith, e) in
    (count, omega arith, ap (type_at (ns ++ (n ∷ []))) (sym counted) ∙ type_at-snoc ns n ∙ kind)

pub All-snoc :
    (bytes : List ℕ) (size : ℕ) (ns : List Nal) (n : Nal)
    → All (IsUnit bytes size) ns
    → IsUnit bytes size n
    → All (IsUnit bytes size) (ns ++ (n ∷ []))
All-snoc bytes size [] n all inside = (inside, all)
All-snoc bytes size (m ∷ ns) n all inside = (all.0, All-snoc bytes size ns n all.1 inside)

pub IsRecorded-at :
    (ns : List Nal) (count index type : ℕ)
    → count ≤ max_nals
    → index < count
    → IsRecorded ns count index type
    → type_at ns index ≡ type
IsRecorded-at ns count index type few low (inl nowhere) = absurd (omega (arith, few, low, nowhere))
IsRecorded-at ns count index type few low (inr (again, kind)) = kind
