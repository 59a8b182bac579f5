-- ===== src/Audio/OutputDriver/Sizes.antt =====
-- output-driver.c, `propertySize`: which properties the objects have, and how long they are.
use plank.Common.{ℕ, ◌*◌, Bool, true, false, not, ◌||◌, ◌&&◌, if◌then◌else◌, Option, none, some}
use plank.Audio.CoreAudio.{
  Object, Scope, Selector, Address, Status, no_error, bad_object, unknown_property, is_plug_in,
  is_device, is_stream, is_volume, is_mute, is_global, is_input, is_output, word_size, pointer_size,
  double_size, range_size, format_size, ranged_format_size, base_class, class, owner, name,
  manufacturer, owned_objects, device_list, translate_uid, resource_bundle, device_uid, model_uid,
  transport_type, clock_domain, is_alive, is_running, is_hidden, timestamp_period, nominal_rate,
  available_rates, control_list, related_devices, default_device, default_system_device, latency,
  safety_offset, preferred_channels, streams, device_volume, device_mute, control_scope,
  control_element, boolean_value, scalar_value, decibel_value, scalar_to_decibels,
  decibels_to_scalar, decibel_range, is_active, direction, terminal_type, starting_channel,
  virtual_format, physical_format, virtual_formats, physical_formats,
}

abbrev pub or_else {ℓ} : {A : Type ℓ} → Option A → Option A → Option A
or_else (some a) other = some a
or_else none other = other

abbrev pub when {ℓ} : {A : Type ℓ} → Bool → Option A → Option A
when true o = o
when false o = none

unfoldable pub object_exists : Object → Bool
object_exists object =
    is_plug_in object || is_device object || is_stream object || is_volume object || is_mute object

-- The `switch` statements of `propertySize`, in their order.
unfoldable pub general_size : Object → Selector → Option ℕ
general_size object selector = elim selector [
  | base_class ↦ some word_size
  | class ↦ some word_size
  | owner ↦ some word_size
  | name ↦ some pointer_size
  | manufacturer ↦ some pointer_size
  | owned_objects ↦
      some (if is_device object then 3 * word_size else if is_plug_in object then word_size else 0)
  | _ ↦ none
]

unfoldable pub plug_in_size : Selector → Option ℕ
plug_in_size selector = elim selector [
  | device_list ↦ some word_size
  | translate_uid ↦ some word_size
  | resource_bundle ↦ some pointer_size
  | _ ↦ none
]

unfoldable pub device_size : Selector → Option ℕ
device_size selector = elim selector [
  | device_uid ↦ some pointer_size
  | model_uid ↦ some pointer_size
  | transport_type ↦ some word_size
  | clock_domain ↦ some word_size
  | is_alive ↦ some word_size
  | is_running ↦ some word_size
  | is_hidden ↦ some word_size
  | timestamp_period ↦ some word_size
  | nominal_rate ↦ some double_size
  | available_rates ↦ some range_size
  | control_list ↦ some (2 * word_size)
  | related_devices ↦ some word_size
  | _ ↦ none
]

unfoldable pub side_size : Bool → Selector → Option ℕ
side_size is_output selector = elim selector [
  | default_device ↦ some word_size
  | default_system_device ↦ some word_size
  | latency ↦ some word_size
  | safety_offset ↦ some word_size
  | preferred_channels ↦ if is_output then some (word_size * 2) else none
  | streams ↦ some (if is_output then word_size else 0)
  | owned_objects ↦ some (if is_output then word_size else 0)
  | _ ↦ none
]

unfoldable pub streams_size : Selector → Option ℕ
streams_size selector = elim selector [ streams ↦ some word_size | _ ↦ none ]

unfoldable pub level_size : Selector → Option ℕ
level_size selector = elim selector [
  | device_volume ↦ some word_size
  | device_mute ↦ some word_size
  | _ ↦ none
]

unfoldable pub control_size : Object → Selector → Option ℕ
control_size object selector = elim selector [
  | control_scope ↦ some word_size
  | control_element ↦ some word_size
  | boolean_value ↦ if is_mute object then some word_size else none
  | scalar_value ↦ if is_volume object then some word_size else none
  | decibel_value ↦ if is_volume object then some word_size else none
  | scalar_to_decibels ↦ if is_volume object then some word_size else none
  | decibels_to_scalar ↦ if is_volume object then some word_size else none
  | decibel_range ↦ if is_volume object then some range_size else none
  | _ ↦ none
]

unfoldable pub stream_size : Selector → Option ℕ
stream_size selector = elim selector [
  | is_active ↦ some word_size
  | direction ↦ some word_size
  | terminal_type ↦ some word_size
  | starting_channel ↦ some word_size
  | latency ↦ some word_size
  | virtual_format ↦ some format_size
  | physical_format ↦ some format_size
  | virtual_formats ↦ some ranged_format_size
  | physical_formats ↦ some ranged_format_size
  | _ ↦ none
]

-- What the function looks up once the address is checked; none is an unknown property.
unfoldable pub look_up : Object → Scope → Selector → Option ℕ
look_up object scope selector =
    let global = is_global scope in
    let side = is_input scope || is_output scope in
    or_else (when global (general_size object selector)) (
      or_else (when (is_plug_in object && global) (plug_in_size selector)) (
        or_else (when (is_device object && global) (device_size selector)) (
          or_else (when (is_device object && side) (side_size (is_output scope) selector)) (
            or_else (when (is_device object && global) (streams_size selector)) (
              or_else (when (is_device object && is_output scope) (level_size selector)) (
                or_else
                  (when ((is_volume object || is_mute object) && global)
                    (control_size object selector))
                  (when (is_stream object && global) (stream_size selector))))))))

-- The status, and what is left behind the `size` pointer where it is no_error.
unfoldable pub property_size : Object → Option Address → Bool → Status × ℕ
property_size object none has_size = (bad_object, 0)
property_size object (some address) has_size =
    if not has_size || not (object_exists object)
    then (bad_object, 0)
    else if not address.is_main
    then (unknown_property, 0)
    else if not (is_global address.scope)
        && not (is_input address.scope)
        && not (is_output address.scope)
    then (unknown_property, 0)
    else elim (look_up object address.scope address.selector) [
      | none ↦ (unknown_property, 0)
      | some size ↦ (no_error, size)
    ]
