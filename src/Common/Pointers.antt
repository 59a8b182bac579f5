-- ===== src/Common/Pointers.antt =====
-- A pointer to bytes is an `Option`: `none` is the null pointer.
use Prim.Native.Nat.{ℕ}
use mathlib.Core.Bool.{Bool, true, false}
use mathlib.Core.Option.{Option, none, some}
use mathlib.Core.List.{List, []}

abbrev pub is_null {ℓ} : {A : Type ℓ} → Option A → Bool
is_null none = true
is_null (some a) = false

-- The bytes that a non-null pointer shows.
abbrev pub pointee : Option (List ℕ) → List ℕ
pointee none = []
pointee (some bytes) = bytes

abbrev pub pointee_or {ℓ} : {A : Type ℓ} → Option A → A → A
pointee_or none a = a
pointee_or (some x) a = x
