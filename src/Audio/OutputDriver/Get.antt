-- ===== src/Audio/OutputDriver/Get.antt =====
-- output-driver.c, `get`: what the properties of the objects hold.
pub mod Consistent
use plank.Common.{
  ℕ, ◌*◌, ◌/◌, Bool, true, false, not, ◌||◌, ◌&&◌, ltb, ◌==◌, ◌!=◌, if◌then◌else◌, Option, none,
  some, List, [], ◌∷◌, take, is_null, pointee_or,
}
use plank.Audio.CoreAudio.{
  Object, plug_in, device, stream, volume, mute, Scope, global_scope, output_scope, Selector,
  Address, Status, no_error, bad_object, unknown_property, illegal_operation, unsupported_operation,
  bad_property_size, unsupported_format, Answer, number, object_id, no_object, class_id,
  output_scope_id, main_element, virtual_transport, speaker, object_ids, numbers, text, float32,
  sample_rate, decibel_limits, rate_limits, format, ranged_format, level_control, boolean_control,
  object_class, device_class, stream_class, volume_control, mute_control, plug_in_class, ClassId,
  unlisted_object, is_plug_in, is_device, is_stream, is_volume, is_mute, is_output, word_size,
  base_class, class, owner, name, manufacturer, owned_objects, device_list, translate_uid,
  resource_bundle, device_uid, model_uid, transport_type, clock_domain, is_alive, is_running,
  is_hidden, timestamp_period, nominal_rate, available_rates, control_list, related_devices,
  default_device, default_system_device, latency, safety_offset, preferred_channels, streams,
  device_volume, device_mute, control_scope, control_element, boolean_value, scalar_value,
  decibel_value, scalar_to_decibels, decibels_to_scalar, decibel_range, is_active, direction,
  terminal_type, starting_channel, virtual_format, physical_format, virtual_formats,
  physical_formats, unlisted_selector,
}
use plank.Audio.OutputDriver.{Driver, timestamp_frames}
use plank.Audio.OutputDriver.Sizes.{property_size}
use plank.Audio.OutputDriver.Properties.{
  Reals, Format, channels, has, is_writable, settable, size_of,
}

-- How a `case` of `get` ends.
pub data Outcome (Real : Type 0) : Type 0 where
  copies : Answer Real → Outcome Real
  fails : Status → Outcome Real

abbrev pub one_if : Bool → ℕ
one_if b = if b then 1 else 0

abbrev pub object_class_id : Object → ClassId
object_class_id plug_in = plug_in_class
object_class_id device = device_class
object_class_id stream = stream_class
object_class_id volume = volume_control
object_class_id mute = mute_control
object_class_id unlisted_object = plug_in_class

abbrev pub base_class_id : Object → ClassId
base_class_id object =
    if is_volume object
    then level_control
    else if is_mute object
    then boolean_control
    else object_class

-- `get` behind the check of the property: a data pointer may be null where there is nothing to copy.
pub deliver : {Real : Type 0} → ℕ → ℕ → Bool → Outcome Real → Status × ℕ × Option (Answer Real)
deliver needed capacity is_null_data value =
    if ltb capacity needed || (needed != 0 && is_null_data)
    then (bad_property_size, 0, none)
    else if needed == 0
    then (no_error, 0, none)
    else elim value [
      | copies answer ↦ (no_error, needed, some answer)
      | fails why ↦ (why, needed, none)
    ]

module _ {Real : Type 0} (reals : Reals Real) where
  -- The `switch` of `get`. `needed` is the size of the property, `input` what the data pointer shows
  -- before, read as a float, and `is_own_uid` says that the qualifier is the UID of the device.
  pub value_of : Driver Real → Object → Scope → ℕ → Real → Bool → Bool → Selector → Outcome Real
  value_of d object scope needed input has_qualifier is_own_uid selector = elim selector [
    | base_class ↦ copies (class_id (base_class_id object))
    | class ↦ copies (class_id (object_class_id object))
    | owner ↦ copies (
        if is_device object
        then object_id plug_in
        else if not (is_plug_in object)
        then object_id device
        else no_object)
    | name ↦ copies (text "PLANK Output")
    | manufacturer ↦ copies (text "PLANK")
    | control_list ↦ copies (object_ids (volume ∷ mute ∷ []))
    | owned_objects ↦ copies (
        if is_device object
        then object_ids (take (needed / word_size) (stream ∷ volume ∷ mute ∷ []))
        else object_id device)
    | control_scope ↦ copies output_scope_id
    | control_element ↦ copies main_element
    | boolean_value ↦ copies (number d.mute)
    | device_mute ↦ copies (number d.mute)
    | scalar_value ↦ copies (float32 d.gain)
    | device_volume ↦ copies (float32 d.gain)
    | decibel_value ↦ copies (float32 (reals.gain_decibels d.gain))
    | decibel_range ↦ copies decibel_limits
    | scalar_to_decibels ↦
        if not (reals.is_finite input)
        then fails illegal_operation
        else copies (float32 (reals.to_decibels input))
    | decibels_to_scalar ↦
        if not (reals.is_finite input)
        then fails illegal_operation
        else copies (float32 (reals.from_decibels input))
    | device_list ↦ copies (object_id device)
    | related_devices ↦ copies (object_id device)
    | translate_uid ↦
        if not has_qualifier
        then fails bad_property_size
        else copies (if is_own_uid then object_id device else no_object)
    | resource_bundle ↦ copies (text "")
    | device_uid ↦ copies (text "la.instinctual.PLANK.Output")
    | model_uid ↦ copies (text "la.instinctual.PLANK.Output.Model")
    | transport_type ↦ copies virtual_transport
    | clock_domain ↦ copies (number 0)
    | is_hidden ↦ copies (number 0)
    | latency ↦ copies (number 0)
    | safety_offset ↦ copies (number 0)
    | is_alive ↦ copies (number 1)
    | is_active ↦ copies (number 1)
    | starting_channel ↦ copies (number 1)
    | direction ↦ copies (number 0)
    | is_running ↦ copies (number (one_if (d.running != 0)))
    | default_device ↦ copies (number (one_if (is_output scope)))
    | default_system_device ↦ copies (number (one_if (is_output scope)))
    | timestamp_period ↦ copies (number timestamp_frames)
    | nominal_rate ↦ copies sample_rate
    | available_rates ↦ copies rate_limits
    | streams ↦ copies (object_id stream)
    | preferred_channels ↦ copies (numbers (1 ∷ 2 ∷ []))
    | terminal_type ↦ copies speaker
    | virtual_format ↦ copies format
    | physical_format ↦ copies format
    | virtual_formats ↦ copies ranged_format
    | physical_formats ↦ copies ranged_format
    | unlisted_selector ↦ fails unknown_property
  ]

  -- The status, what is left behind `actual`, and what is copied behind the data pointer.
  pub get :
      Driver Real
      → Bool
      → Object
      → Option Address
      → Bool
      → Bool
      → ℕ
      → Bool
      → Option Real
      → Status × ℕ × Option (Answer Real)
  get d is_driver object none has_qualifier is_own_uid capacity has_actual input =
      if has_actual then (bad_object, 0, none) else (illegal_operation, 0, none)
  get d is_driver object (some address) has_qualifier is_own_uid capacity has_actual input =
      let (status, needed) = size_of is_driver object (some address) true in
      let shown = pointee_or input reals.nought in
      let value =
        value_of d object address.scope needed shown has_qualifier is_own_uid address.selector in
      if not has_actual then (illegal_operation, 0, none) else elim status [
        | no_error ↦ deliver needed capacity (is_null input) value
        | other ↦ (other, 0, none)
      ]
