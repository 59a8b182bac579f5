-- ===== src/Audio/OutputDriver/Set/Gain.antt =====
-- The gain that `set` takes from a client's number.
use plank.Common.{◌≡◌, ◌⊎◌, inl, inr, refl, arith, true, false, some}
use plank.Audio.CoreAudio.{Selector, device_volume, scalar_value, decibel_value}
use plank.Audio.OutputDriver.Properties.{Reals}
use plank.Audio.OutputDriver.Set.{new_gain}

module _ {Real : Type 0} (reals : Reals Real) where
  -- A gain that a selector stores for a value: the value is finite, and the gain is the value itself, or
  -- for decibels, which lie between -96 and 0, its power; the gain lies between 0 and 1.
  pub record IsGain (selector : Selector) (value gain : Real) : Type 0 where
    pub finite : reals.is_finite value ≡ true
    pub not_below : reals.less gain reals.nought ≡ false
    pub not_above : reals.less reals.unity gain ≡ false
    pub origin :
        (((selector ≡ device_volume) ⊎ (selector ≡ scalar_value)) × (gain ≡ value))
        ⊎ ((selector ≡ decibel_value)
            × (reals.less value reals.minus_96 ≡ false)
            × (reals.less reals.nought value ≡ false)
            × (gain ≡ reals.power_of_decibels value))

  pub new_gain-scalar :
      (selector : Selector) (value gain : Real)
      → (selector ≡ device_volume) ⊎ (selector ≡ scalar_value)
      → new_gain reals false value ≡ some gain
      → IsGain selector value gain
  unfolding new_gain
  new_gain-scalar selector value gain kind e = record {
    finite = ground arith;
    not_below = ground arith;
    not_above = ground arith;
    origin = inl (kind, ground arith);
  }

  pub new_gain-decibels :
      (value gain : Real) → new_gain reals true value ≡ some gain → IsGain decibel_value value gain
  unfolding new_gain
  new_gain-decibels value gain e = record {
    finite = ground arith;
    not_below = ground arith;
    not_above = ground arith;
    origin = inr (refl, ground arith, ground arith, ground arith);
  }
