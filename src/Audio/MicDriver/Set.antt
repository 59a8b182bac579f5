-- ===== src/Audio/MicDriver/Set.antt =====
-- microphone-driver.c, `set`: the fixed values that a client may set again.
use plank.Common.{ℕ, ◌*◌, Bool, true, not, ◌&&◌, ◌==◌, ◌!=◌, if◌then◌else◌, Option, none, some}
use plank.Audio.CoreAudio.{
  Object, Selector, Address, Status, no_error, unknown_property, unsupported_operation,
  bad_property_size, unsupported_format, word_size, nominal_rate, is_active,
}
use plank.Audio.OutputDriver.Properties.{Format}
use plank.Audio.MicDriver.Sizes.{property_size}
use plank.Audio.MicDriver.Properties.{settable}

abbrev pub channels : ℕ
channels = 2

-- The comparison of doubles, PLANKMicRate, and the constants of micFormat.
pub record Constants (Real : Type 0) : Type 0 where
  pub equal : Real → Real → Bool
  pub mic_rate : Real
  pub linear_pcm : ℕ
  pub native_float_packed : ℕ

-- What the data pointer of `set` shows, read as each of the types.
pub record Data (Real : Type 0) : Type 0 where
  pub double : Real
  pub word : ℕ
  pub format : Format Real

module _ {Real : Type 0} (constants : Constants Real) where
  pub same_format : Format Real → Bool
  same_format f =
      constants.equal f.rate constants.mic_rate
      && f.format_id == constants.linear_pcm
      && f.format_flags == constants.native_float_packed
      && f.bytes_per_packet == channels * word_size
      && f.frames_per_packet == 1
      && f.bytes_per_frame == channels * word_size
      && f.channels_per_frame == channels
      && f.bits_per_channel == 32

  pub set_value : Selector → Data Real → Status
  set_value selector input = elim selector [
    | nominal_rate ↦
        if constants.equal input.double constants.mic_rate then no_error else unsupported_format
    | is_active ↦ if input.word == 1 then no_error else unsupported_operation
    | _ ↦ if same_format input.format then no_error else unsupported_format
  ]

  -- `set` behind the check of the property.
  pub set_checked : Bool → ℕ → ℕ → Option (Data Real) → Selector → Status
  set_checked writable needed size none selector =
      if not writable then unsupported_operation else bad_property_size
  set_checked writable needed size (some input) selector =
      if not writable
      then unsupported_operation
      else if size != needed
      then bad_property_size
      else set_value selector input

  pub set : Bool → Object → Option Address → ℕ → Option (Data Real) → Status
  set is_driver object none size input = unknown_property
  set is_driver object (some address) size input =
      let (status, writable) = settable is_driver object (some address) true in
      let needed = (property_size object (some address) true).1 in
      elim status [
        | no_error ↦ set_checked writable needed size input address.selector
        | other ↦ other
      ]
