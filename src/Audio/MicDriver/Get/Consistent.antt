-- ===== src/Audio/MicDriver/Get/Consistent.antt =====
-- The three calls about properties agree: what exists can be read, whole.
use plank.Common.{
  ℕ, ◌≤◌, ◌≡◌, ◌≢◌, refl, ap, arith, Bool, true, false, none, some, Option-cases, inl, inr, ◌⊎◌,
}
use plank.Audio.CoreAudio.{Object, Scope, Selector, Address, no_error, Answer, answer_size}
use plank.Audio.MicDriver.{Driver}
use plank.Audio.MicDriver.Sizes.{general_size, device_size, side_size, look_up, property_size}
use plank.Audio.OutputDriver.Sizes.{plug_in_size, streams_size, stream_size}
use plank.Audio.MicDriver.Properties.{has, size_of}
use plank.Audio.OutputDriver.Get.{deliver}
use plank.Audio.OutputDriver.Get.Consistent.{IsSized, deliver_lem}
use plank.Audio.MicDriver.Get.{value_of, get}

module _ {Real : Type 0} where
  value_size :
      (d : Driver Real) (object : Object) (scope : Scope) (n : ℕ) (own : Bool) (selector : Selector)
      → look_up object scope selector ≡ some n
      → n ≢ 0
      → IsSized n (value_of d object scope true own selector)
  unfolding look_up general_size plug_in_size device_size side_size streams_size stream_size
      value_of
  value_size d object scope n own selector e some_bytes = ground arith

has_parts :
    (object : Object) (address : Address)
    → has true object (some address) ≡ true
    → (n : ℕ) × (property_size object (some address) true ≡ (no_error, n))
      × (look_up object address.scope address.selector ≡ some n)
unfolding has property_size
has_parts object address e = elim (Option-cases (look_up object address.scope address.selector)) [
  | inl none_found ↦ absurd (ground (arith, none_found, e))
  | inr (n, found) ↦ (n, ground (arith, found, e), found)
]

module _ {Real : Type 0} where
  get_delivers :
      (d : Driver Real) (object : Object) (address : Address) (own : Bool) (n capacity : ℕ)
      → property_size object (some address) true ≡ (no_error, n)
      → get d true object (some address) true own capacity true true
        ≡ deliver n capacity false (value_of d object address.scope true own address.selector)
  unfolding get size_of
  get_delivers d object address own n capacity e = rw (ap (λ r. r.0) e, ap (λ r. r.1) e) refl

  -- What `has` says exists, `get` gives, in the size that the size call says: with room for it and a
  -- qualifier where one is asked for, the status is no_error, and the answer that is copied has
  -- exactly the size, or there is nothing to copy.
  pub mic_get_lem :
      (d : Driver Real) (object : Object) (address : Address) (own : Bool) (capacity : ℕ)
      → has true object (some address) ≡ true
      → let needed = (size_of true object (some address) true).1 in
        needed ≤ capacity
        → let (status, actual, written) =
            get d true object (some address) true own capacity true true in
          (status ≡ no_error)
          × (actual ≡ needed)
          × (((needed ≡ 0) × (written ≡ none))
              ⊎ ((answer : Answer Real) × (written ≡ some answer) × (answer_size answer ≡ needed)))
  unfolding size_of
  mic_get_lem d object address own capacity exists room =
      let (n, sized, found) = has_parts object address exists in
      let same : (property_size object (some address) true).1 ≡ n = ap (λ r. r.1) sized in
      let v = value_of d object address.scope true own address.selector in
      rw (get_delivers d object address own n capacity sized, same)
        (deliver_lem n capacity v (omega (arith, same, room))
          (value_size d object address.scope n own address.selector found))
