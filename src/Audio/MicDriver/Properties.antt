-- ===== src/Audio/MicDriver/Properties.antt =====
-- microphone-driver.c: which properties the objects have, and which of them a client may set. A null
-- pointer is `none`.
use plank.Common.{ℕ, Bool, true, false, not, ◌&&◌, if◌then◌else◌, Option, none, some}
use plank.Audio.CoreAudio.{
  Object, Selector, Address, Status, no_error, bad_object, unknown_property, illegal_operation,
  is_device, is_stream, nominal_rate, is_active, virtual_format, physical_format,
}
use plank.Audio.MicDriver.Sizes.{property_size}

unfoldable pub has : Bool → Object → Option Address → Bool
has is_driver object address =
    is_driver && elim (property_size object address true).0 [ no_error ↦ true | _ ↦ false ]

-- The objects and selectors whose value a client may set.
pub is_writable : Object → Selector → Bool
is_writable object selector = elim selector [
  | nominal_rate ↦ is_device object
  | virtual_format ↦ is_stream object
  | physical_format ↦ is_stream object
  | is_active ↦ is_stream object
  | _ ↦ false
]

-- The status, and what is left behind the result pointer.
pub settable : Bool → Object → Option Address → Bool → Status × Bool
settable is_driver object none has_result =
    if has_result then (unknown_property, false) else (illegal_operation, false)
settable is_driver object (some address) has_result =
    if not has_result
    then (illegal_operation, false)
    else if not (has is_driver object (some address))
    then (unknown_property, false)
    else (no_error, is_writable object address.selector)

unfoldable pub size_of : Bool → Object → Option Address → Bool → Status × ℕ
size_of is_driver object address has_result =
    if is_driver then property_size object address has_result else (bad_object, 0)
