-- ===== src/Audio/MicDriver/Sizes.antt =====
-- microphone-driver.c, `propertySize`: which properties the objects have, and how long they are.
use plank.Common.{ℕ, ◌*◌, Bool, not, ◌||◌, ◌&&◌, if◌then◌else◌, Option, none, some}
use plank.Audio.CoreAudio.{
  Object, Scope, Selector, Address, Status, no_error, bad_object, unknown_property, is_plug_in,
  is_device, is_stream, is_global, is_input, is_output, word_size, pointer_size, double_size,
  range_size, base_class, class, owner, name, manufacturer, owned_objects, device_uid, model_uid,
  transport_type, clock_domain, is_alive, is_running, is_hidden, timestamp_period, nominal_rate,
  available_rates, control_list, related_devices, default_device, default_system_device, latency,
  safety_offset, preferred_channels, streams,
}
use plank.Audio.OutputDriver.Sizes.{or_else, when, plug_in_size, streams_size, stream_size}

unfoldable pub object_exists : Object → Bool
object_exists object = is_plug_in object || is_device object || is_stream object

-- The `switch` statements of `propertySize`, in their order.
unfoldable pub general_size : Object → Selector → Option ℕ
general_size object selector = elim selector [
  | base_class ↦ some word_size
  | class ↦ some word_size
  | owner ↦ some word_size
  | name ↦ some pointer_size
  | manufacturer ↦ some pointer_size
  | owned_objects ↦ some (if is_stream object then 0 else word_size)
  | _ ↦ none
]

unfoldable pub device_size : Selector → Option ℕ
device_size selector = elim selector [
  | device_uid ↦ some pointer_size
  | model_uid ↦ some pointer_size
  | transport_type ↦ some word_size
  | clock_domain ↦ some word_size
  | is_alive ↦ some word_size
  | is_running ↦ some word_size
  | is_hidden ↦ some word_size
  | timestamp_period ↦ some word_size
  | nominal_rate ↦ some double_size
  | available_rates ↦ some range_size
  | control_list ↦ some 0
  | related_devices ↦ some word_size
  | _ ↦ none
]

unfoldable pub side_size : Bool → Selector → Option ℕ
side_size is_input selector = elim selector [
  | default_device ↦ some word_size
  | default_system_device ↦ some word_size
  | latency ↦ some word_size
  | safety_offset ↦ some word_size
  | preferred_channels ↦ if is_input then some (word_size * 2) else none
  | streams ↦ some (if is_input then word_size else 0)
  | owned_objects ↦ some (if is_input then word_size else 0)
  | _ ↦ none
]

-- What the function looks up once the address is checked; none is an unknown property.
unfoldable pub look_up : Object → Scope → Selector → Option ℕ
look_up object scope selector =
    let global = is_global scope in
    let side = is_input scope || is_output scope in
    or_else (when global (general_size object selector)) (
      or_else (when (is_plug_in object && global) (plug_in_size selector)) (
        or_else (when (is_device object && global) (device_size selector)) (
          or_else (when (is_device object && side) (side_size (is_input scope) selector)) (
            or_else (when (is_device object && global) (streams_size selector))
              (when (is_stream object && global) (stream_size selector))))))

-- The status, and what is left behind the `size` pointer where it is no_error.
unfoldable pub property_size : Object → Option Address → Bool → Status × ℕ
property_size object none has_size = (bad_object, 0)
property_size object (some address) has_size =
    if not has_size || not (object_exists object)
    then (bad_object, 0)
    else if not address.is_main
    then (unknown_property, 0)
    else if not (is_global address.scope)
        && not (is_input address.scope)
        && not (is_output address.scope)
    then (unknown_property, 0)
    else elim (look_up object address.scope address.selector) [
      | none ↦ (unknown_property, 0)
      | some size ↦ (no_error, size)
    ]
