-- ===== src/Audio/OutputDriver/Set.antt =====
-- output-driver.c, `set`: what a client may set, and what the host is told.
pub mod Gain
pub mod Volume
use plank.Common.{
  ℕ, ◌*◌, ◌/◌, Bool, true, false, not, ◌||◌, ◌&&◌, ltb, ◌==◌, ◌!=◌, if◌then◌else◌, Option, none,
  some, List, [], ◌∷◌, take, is_null, pointee_or,
}
use plank.Audio.CoreAudio.{
  Object, plug_in, device, stream, volume, mute, Scope, global_scope, output_scope, Selector,
  Address, Status, no_error, bad_object, unknown_property, illegal_operation, unsupported_operation,
  bad_property_size, unsupported_format, Answer, number, object_id, no_object, class_id,
  output_scope_id, main_element, virtual_transport, speaker, object_ids, numbers, text, float32,
  sample_rate, decibel_limits, rate_limits, format, ranged_format, level_control, boolean_control,
  object_class, device_class, stream_class, volume_control, mute_control, plug_in_class, ClassId,
  unlisted_object, is_plug_in, is_device, is_stream, is_volume, is_mute, is_output, word_size,
  base_class, class, owner, name, manufacturer, owned_objects, device_list, translate_uid,
  resource_bundle, device_uid, model_uid, transport_type, clock_domain, is_alive, is_running,
  is_hidden, timestamp_period, nominal_rate, available_rates, control_list, related_devices,
  default_device, default_system_device, latency, safety_offset, preferred_channels, streams,
  device_volume, device_mute, control_scope, control_element, boolean_value, scalar_value,
  decibel_value, scalar_to_decibels, decibels_to_scalar, decibel_range, is_active, direction,
  terminal_type, starting_channel, virtual_format, physical_format, virtual_formats,
  physical_formats, unlisted_selector,
}
use plank.Audio.OutputDriver.{Driver, timestamp_frames}
use plank.Audio.OutputDriver.Sizes.{property_size}
use plank.Audio.OutputDriver.Properties.{
  Reals, Format, channels, has, is_writable, settable, size_of,
}

-- What the data pointer of `set` shows, read as each of the types.
pub record Data (Real : Type 0) : Type 0 where
  pub float : Real
  pub double : Real
  pub word : ℕ
  pub format : Format Real

-- A call of the host's PropertiesChanged: the object, and the selectors with their scope.
pub record Notice : Type 0 where
  pub object : Object
  pub scope : Scope
  pub selectors : List Selector

module _ {Real : Type 0} (reals : Reals Real) where
  -- The comparison of `set` with outputFormat.
  same_format : Format Real → Bool
  same_format f =
      reals.equal f.rate reals.output_rate
      && f.format_id == reals.linear_pcm
      && f.format_flags == reals.native_float_packed
      && f.bytes_per_packet == channels * word_size
      && f.frames_per_packet == 1
      && f.bytes_per_frame == channels * word_size
      && f.channels_per_frame == channels
      && f.bits_per_channel == 32

  -- The gain that a value sets, or the status of its refusal.
  pub new_gain : Bool → Real → Option Real
  new_gain is_decibels value =
      let gain = if is_decibels then reals.power_of_decibels value else value in
      if not (reals.is_finite value)
      then none
      else if is_decibels && (reals.less value reals.minus_96 || reals.less reals.nought value)
      then none
      else if reals.less gain reals.nought || reals.less reals.unity gain
      then none
      else some gain

  pub gain_notices : Bool → List Notice
  gain_notices has_host =
      if has_host
      then record {
        object = volume;
        scope = global_scope;
        selectors = scalar_value ∷ decibel_value ∷ [];
      }
        ∷ record { object = device; scope = output_scope; selectors = device_volume ∷ [] }
        ∷ []
      else []

  pub mute_notices : Bool → List Notice
  mute_notices has_host =
      if has_host
      then record { object = mute; scope = global_scope; selectors = boolean_value ∷ [] }
        ∷ record { object = device; scope = output_scope; selectors = device_mute ∷ [] }
        ∷ []
      else []

  -- The end of `set` for a gain.
  pub store_gain : Driver Real → Option Real → Status × Driver Real × List Notice
  store_gain d none = (illegal_operation, d, [])
  store_gain d (some gain) = (no_error, record d { gain = gain }, gain_notices d.has_host)

  pub set_gain : Driver Real → Bool → Real → Status × Driver Real × List Notice
  set_gain d is_decibels value = store_gain d (new_gain is_decibels value)

  pub set_mute : Driver Real → ℕ → Status × Driver Real × List Notice
  set_mute d value =
      if ltb 1 value
      then (illegal_operation, d, [])
      else (no_error, record d { mute = value }, mute_notices d.has_host)

  -- `set` behind its checks.
  pub set_value : Driver Real → Selector → Data Real → Status × Driver Real × List Notice
  set_value d selector input = elim selector [
    | device_volume ↦ set_gain d false input.float
    | scalar_value ↦ set_gain d false input.float
    | decibel_value ↦ set_gain d true input.float
    | device_mute ↦ set_mute d input.word
    | boolean_value ↦ set_mute d input.word
    | nominal_rate ↦
        (if reals.equal input.double reals.output_rate then no_error else unsupported_format, d, [])
    | is_active ↦ (if input.word == 1 then no_error else unsupported_operation, d, [])
    | _ ↦ (if same_format input.format then no_error else unsupported_format, d, [])
  ]

  -- `set` behind the check of the property.
  pub set_checked :
      Driver Real
      → Bool
      → ℕ
      → ℕ
      → Option (Data Real)
      → Selector
      → Status × Driver Real × List Notice
  set_checked d writable needed size none selector =
      (if not writable then unsupported_operation else bad_property_size, d, [])
  set_checked d writable needed size (some input) selector =
      let stored = set_value d selector input in
      if not writable
      then (unsupported_operation, d, [])
      else if size != needed
      then (bad_property_size, d, [])
      else stored

  pub set :
      Driver Real
      → Bool
      → Object
      → Option Address
      → ℕ
      → Option (Data Real)
      → Status × Driver Real × List Notice
  set d is_driver object none size input = (unknown_property, d, [])
  set d is_driver object (some address) size input =
      let (status, writable) = settable is_driver object (some address) true in
      let needed = (property_size object (some address) true).1 in
      let checked = set_checked d writable needed size input address.selector in
      elim status [ no_error ↦ checked | other ↦ (other, d, []) ]
