-- ===== src/Audio/MicDriver/Get.antt =====
-- microphone-driver.c, `get`: what the properties of the objects hold.
pub mod Consistent
use plank.Common.{
  ℕ, ◌*◌, ◌/◌, Bool, true, false, not, ◌||◌, ◌&&◌, ltb, ◌==◌, ◌!=◌, if◌then◌else◌, Option, none,
  some, List, [], ◌∷◌, take, is_null, pointee_or,
}
use plank.Audio.CoreAudio.{
  Object, plug_in, device, stream, volume, mute, Scope, global_scope, output_scope, Selector,
  Address, Status, no_error, bad_object, unknown_property, illegal_operation, unsupported_operation,
  bad_property_size, unsupported_format, Answer, number, object_id, no_object, class_id,
  output_scope_id, main_element, virtual_transport, speaker, object_ids, numbers, text, float32,
  sample_rate, decibel_limits, rate_limits, format, ranged_format, level_control, boolean_control,
  object_class, device_class, stream_class, microphone, plug_in_class, ClassId, unlisted_object,
  is_plug_in, is_device, is_stream, is_volume, is_mute, is_output, is_input, word_size, base_class,
  class, owner, name, manufacturer, owned_objects, device_list, translate_uid, resource_bundle,
  device_uid, model_uid, transport_type, clock_domain, is_alive, is_running, is_hidden,
  timestamp_period, nominal_rate, available_rates, control_list, related_devices, default_device,
  default_system_device, latency, safety_offset, preferred_channels, streams, device_volume,
  device_mute, control_scope, control_element, boolean_value, scalar_value, decibel_value,
  scalar_to_decibels, decibels_to_scalar, decibel_range, is_active, direction, terminal_type,
  starting_channel, virtual_format, physical_format, virtual_formats, physical_formats,
  unlisted_selector,
}
use plank.Audio.OutputDriver.{timestamp_frames}
use plank.Audio.OutputDriver.Get.{Outcome, copies, fails, one_if, deliver}
use plank.Audio.MicDriver.{Driver}
use plank.Audio.MicDriver.Properties.{size_of}

abbrev pub object_class_id : Object → ClassId
object_class_id object =
    if is_device object
    then device_class
    else if is_stream object
    then stream_class
    else plug_in_class

module _ {Real : Type 0} where
  -- The `switch` of `get`; `is_own_uid` says that the qualifier is the UID of the device.
  pub value_of : Driver Real → Object → Scope → Bool → Bool → Selector → Outcome Real
  value_of d object scope has_qualifier is_own_uid selector = elim selector [
    | base_class ↦ copies (class_id object_class)
    | class ↦ copies (class_id (object_class_id object))
    | owner ↦ copies (
        if is_device object
        then object_id plug_in
        else if is_stream object
        then object_id device
        else no_object)
    | name ↦ copies (text "PLANK Microphone")
    | manufacturer ↦ copies (text "PLANK")
    | owned_objects ↦ copies (object_id (if is_device object then stream else device))
    | device_list ↦ copies (object_id device)
    | related_devices ↦ copies (object_id device)
    | translate_uid ↦
        if not has_qualifier
        then fails bad_property_size
        else copies (if is_own_uid then object_id device else no_object)
    | resource_bundle ↦ copies (text "")
    | device_uid ↦ copies (text "la.instinctual.PLANK.Microphone")
    | model_uid ↦ copies (text "la.instinctual.PLANK.Microphone.Model")
    | transport_type ↦ copies virtual_transport
    | clock_domain ↦ copies (number 0)
    | is_hidden ↦ copies (number 0)
    | latency ↦ copies (number 0)
    | safety_offset ↦ copies (number 0)
    | default_system_device ↦ copies (number 0)
    | is_alive ↦ copies (number 1)
    | is_active ↦ copies (number 1)
    | direction ↦ copies (number 1)
    | starting_channel ↦ copies (number 1)
    | is_running ↦ copies (number (one_if (d.running != 0)))
    | default_device ↦ copies (number (one_if (is_input scope)))
    | timestamp_period ↦ copies (number timestamp_frames)
    | nominal_rate ↦ copies sample_rate
    | available_rates ↦ copies rate_limits
    | streams ↦ copies (object_id stream)
    | preferred_channels ↦ copies (numbers (1 ∷ 2 ∷ []))
    | terminal_type ↦ copies microphone
    | virtual_format ↦ copies format
    | physical_format ↦ copies format
    | virtual_formats ↦ copies ranged_format
    | physical_formats ↦ copies ranged_format
    | _ ↦ fails unknown_property
  ]

  -- The status, what is left behind `actual`, and what is copied behind the data pointer.
  pub get :
      Driver Real
      → Bool
      → Object
      → Option Address
      → Bool
      → Bool
      → ℕ
      → Bool
      → Bool
      → Status × ℕ × Option (Answer Real)
  get d is_driver object none has_qualifier is_own_uid capacity has_actual has_data =
      if has_actual then (bad_object, 0, none) else (illegal_operation, 0, none)
  get d is_driver object (some address) has_qualifier is_own_uid capacity has_actual has_data =
      let (status, needed) = size_of is_driver object (some address) true in
      let value = value_of d object address.scope has_qualifier is_own_uid address.selector in
      if not has_actual then (illegal_operation, 0, none) else elim status [
        | no_error ↦ deliver needed capacity (not has_data) value
        | other ↦ (other, 0, none)
      ]
