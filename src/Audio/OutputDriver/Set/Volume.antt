-- ===== src/Audio/OutputDriver/Set/Volume.antt =====
-- What a client's `set` does to the volume and the mute switch.
use plank.Common.{
  ℕ, ◌≤◌, ◌≡◌, ◌⊎◌, inl, inr, refl, arith, Bool, true, false, ltb, ◌!=◌, Option, none, some, List,
  [], Bool-cases,
}
use plank.Audio.CoreAudio.{
  Object, Selector, device_volume, device_mute, scalar_value, decibel_value, boolean_value, Address,
  Status, no_error,
}
use plank.Audio.OutputDriver.Sizes.{property_size}
use plank.Audio.OutputDriver.{Driver}
use plank.Audio.OutputDriver.Properties.{Reals, settable}
use plank.Audio.OutputDriver.Set.{
  Data, Notice, new_gain, store_gain, set_gain, set_mute, set_value, set_checked, gain_notices,
  mute_notices, set,
}
use plank.Audio.OutputDriver.Set.Gain.{IsGain, new_gain-scalar, new_gain-decibels}

module _ {Real : Type 0} (reals : Reals Real) where
  -- The gain lies between 0 and 1, and the mute switch is 0 or 1.
  pub record IsValid (d : Driver Real) : Type 0 where
    pub not_below : reals.less d.gain reals.nought ≡ false
    pub not_above : reals.less reals.unity d.gain ≡ false
    pub switched : d.mute ≤ 1

  -- What a setter stores for a selector and the client's data: the gain of the data's number, or the
  -- data's word as the mute switch, which is 0 or 1; and the host, if there is one, is told.
  abbrev pub IsStored :
      Selector → Data Real → Driver Real → Status × Driver Real × List Notice → Type 0
  IsStored selector input d r =
      let next = r.1 in
      let notices = r.2 in
      (r.0 ≡ no_error)
      × (((gain : Real) × (next ≡ record d { gain = gain })
            × IsGain reals selector input.float gain
            × (notices ≡ gain_notices reals d.has_host))
          ⊎ (((selector ≡ device_mute) ⊎ (selector ≡ boolean_value))
              × (next ≡ record d { mute = input.word })
              × (input.word ≤ 1)
              × (notices ≡ mute_notices reals d.has_host)))

  -- The properties that `set` stores.
  abbrev pub is_stored : Selector → Bool
  is_stored device_volume = true
  is_stored scalar_value = true
  is_stored decibel_value = true
  is_stored device_mute = true
  is_stored boolean_value = true
  is_stored _ = false

  -- The driver as it was and no notice, and an error, unless the property is one that is not stored.
  abbrev pub IsQuiet : Selector → Driver Real → Status × Driver Real × List Notice → Type 0
  IsQuiet selector d r = (r.1 ≡ d) × (r.2 ≡ []) × (r.0 ≡ no_error → is_stored selector ≡ false)

  -- What `set` may leave: the driver as it was, after a refusal or a value that is fixed; or what the
  -- data that was given stores for the address's selector.
  abbrev pub IsEffect :
      Driver Real
      → Option Address
      → Option (Data Real)
      → Status × Driver Real × List Notice
      → Type 0
  IsEffect d address input r =
      ((r.1 ≡ d)
        × (r.2 ≡ [])
        × (r.0 ≡ no_error
            → (place : Address) × (address ≡ some place) × (is_stored place.selector ≡ false)))
      ⊎ ((place : Address) × (given : Data Real) × (address ≡ some place)
          × (input ≡ some given)
          × IsStored place.selector given d r)

  store_gain_lem :
      (d : Driver Real) (selector : Selector) (input : Data Real) (o : Option Real)
      → ((gain : Real) → o ≡ some gain → IsGain reals selector input.float gain)
      → IsQuiet selector d (store_gain reals d o) ⊎ IsStored selector input d (store_gain reals d o)
  unfolding store_gain
  store_gain_lem d selector input none ranged = inl (refl, refl, λ e. absurd (cc e))
  store_gain_lem d selector input (some gain) ranged =
      inr (refl, inl (gain, refl, ranged gain refl, refl))

  set_gain-scalar :
      (d : Driver Real) (selector : Selector) (input : Data Real)
      → (selector ≡ device_volume) ⊎ (selector ≡ scalar_value)
      → IsQuiet selector d (set_gain reals d false input.float)
        ⊎ IsStored selector input d (set_gain reals d false input.float)
  unfolding set_gain
  set_gain-scalar d selector input kind =
      store_gain_lem d selector input (new_gain reals false input.float)
        (λ gain. new_gain-scalar reals selector input.float gain kind)

  set_gain-decibels :
      (d : Driver Real) (input : Data Real)
      → IsQuiet decibel_value d (set_gain reals d true input.float)
        ⊎ IsStored decibel_value input d (set_gain reals d true input.float)
  unfolding set_gain
  set_gain-decibels d input =
      store_gain_lem d decibel_value input (new_gain reals true input.float)
        (new_gain-decibels reals input.float)

  set_mute_lem :
      (d : Driver Real) (selector : Selector) (input : Data Real)
      → (selector ≡ device_mute) ⊎ (selector ≡ boolean_value)
      → IsQuiet selector d (set_mute reals d input.word)
        ⊎ IsStored selector input d (set_mute reals d input.word)
  unfolding set_mute
  set_mute_lem d selector input kind = elim (Bool-cases (ltb 1 input.word)) [
    | inl large ↦ rw large (inl (refl, refl, λ e. absurd (cc e)))
    | inr small ↦
        let few : input.word ≤ 1 = ground (arith, small) in
        rw small (inr (refl, inr (kind, refl, few, refl)))
  ]

  set_value_lem :
      (d : Driver Real) (selector : Selector) (input : Data Real)
      → IsQuiet selector d (set_value reals d selector input)
        ⊎ IsStored selector input d (set_value reals d selector input)
  unfolding set_value
  set_value_lem d device_volume input = set_gain-scalar d device_volume input (inl refl)
  set_value_lem d scalar_value input = set_gain-scalar d scalar_value input (inr refl)
  set_value_lem d decibel_value input = set_gain-decibels d input
  set_value_lem d device_mute input = set_mute_lem d device_mute input (inl refl)
  set_value_lem d boolean_value input = set_mute_lem d boolean_value input (inr refl)
  set_value_lem d _ input = inl (refl, refl, λ e. refl)

  set_checked_lem :
      (d : Driver Real) (writable : Bool) (needed size : ℕ) (input : Option (Data Real))
      (place : Address)
      → IsEffect d
          (some place)
          input
          (set_checked reals d writable needed size input place.selector)
        × (((set_checked reals d writable needed size input place.selector).0 ≡ no_error)
            → (writable ≡ true) × (size ≡ needed))
  unfolding set_checked
  set_checked_lem d writable needed size none place = ground arith
  set_checked_lem d writable needed size (some given) place = elim (Bool-cases writable) [
    | inr refused ↦ rw refused (inl (refl, refl, λ e. absurd (cc e)), λ e. absurd (cc e))
    | inl allowed ↦ elim (Bool-cases (size != needed)) [
      | inl differs ↦
          rw (allowed, differs) (inl (refl, refl, λ e. absurd (cc e)), λ e. absurd (cc e))
      | inr fits ↦
          let same : size ≡ needed = ground (arith, fits) in
          rw (allowed, fits)
            (
              elim (set_value_lem d place.selector given) [
                | inl (kept, quiet, fixed) ↦ inl (kept, quiet, λ e. (place, refl, fixed e))
                | inr stored ↦ inr (place, given, refl, refl, stored)
              ],
              λ e. (refl, same),
            )
    ]
  ]

  pub output_set_lem :
      (d : Driver Real) (is_driver : Bool) (object : Object) (address : Option Address) (size : ℕ)
      (input : Option (Data Real))
      → IsEffect d address input (set reals d is_driver object address size input)
        × (((set reals d is_driver object address size input).0 ≡ no_error)
            → (settable is_driver object address true ≡ (no_error, true))
              × (size ≡ (property_size object address true).1))
  unfolding set
  output_set_lem d is_driver object none size input = ground arith
  output_set_lem d is_driver object (some place) size input =
      let writable = (settable is_driver object (some place) true).1 in
      let needed = (property_size object (some place) true).1 in
      ground (arith, set_checked_lem d writable needed size input place)

  -- So whatever is set, the gain stays between 0 and 1, and the mute switch is 0 or 1.
  set-IsValid :
      (d : Driver Real) (is_driver : Bool) (object : Object) (address : Option Address) (size : ℕ)
      (input : Option (Data Real))
      → IsValid d
      → IsValid (set reals d is_driver object address size input).1
  set-IsValid d is_driver object address size input v =
      elim (output_set_lem d is_driver object address size input).0 [
        | inl (same, quiet, refused) ↦ rw same v
        | inr (place, given, at_place, data_given, stored) ↦ elim stored.1 [
          | inl (gain, same, ranged, told) ↦ rw same (record {
            not_below = ranged.not_below;
            not_above = ranged.not_above;
            switched = v.switched;
          })
          | inr (kind, same, few, told) ↦
              rw same (record { not_below = v.not_below; not_above = v.not_above; switched = few })
        ]
      ]

  -- The clients are nothing of `set`'s.
  pub set_keeps_clients :
      (d : Driver Real) (is_driver : Bool) (object : Object) (address : Option Address) (size : ℕ)
      (input : Option (Data Real))
      → let next = (set reals d is_driver object address size input).1 in
        (next.clients ≡ d.clients) × (next.running ≡ d.running)
  set_keeps_clients d is_driver object address size input =
      elim (output_set_lem d is_driver object address size input).0 [
        | inl (same, quiet, refused) ↦ rw same (refl, refl)
        | inr (place, given, at_place, data_given, stored) ↦ elim stored.1 [
          | inl (gain, same, ranged, told) ↦ rw same (refl, refl)
          | inr (kind, same, few, told) ↦ rw same (refl, refl)
        ]
      ]
