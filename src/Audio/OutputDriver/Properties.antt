-- ===== src/Audio/OutputDriver/Properties.antt =====
-- output-driver.c: which properties the objects have, which of them a client may set, and what the
-- driver takes of floats. A null pointer is `none`.
use plank.Common.{ℕ, Bool, true, false, not, ◌&&◌, if◌then◌else◌, Option, none, some}
use plank.Audio.CoreAudio.{
  Object, Selector, Address, Status, no_error, bad_object, unknown_property, illegal_operation,
  is_device, is_stream, is_volume, is_mute, nominal_rate, device_volume, device_mute, boolean_value,
  scalar_value, decibel_value, is_active, virtual_format, physical_format,
}
use plank.Audio.OutputDriver.Sizes.{property_size}

-- What the driver computes on floats, and the constants of a sample format.
pub record Reals (Real : Type 0) : Type 0 where
  -- isfinite
  pub is_finite : Real → Bool
  -- x < y and x == y
  pub less : Real → Real → Bool
  pub equal : Real → Real → Bool
  pub nought : Real
  pub unity : Real
  pub minus_96 : Real
  pub output_rate : Real
  -- fmaxf(-96, 20 * log10f(fmaxf(0.000015848932f, x)))
  pub gain_decibels : Real → Real
  -- 20 * log10f(fmaxf(0.000015848932f, fminf(1, x)))
  pub to_decibels : Real → Real
  -- powf(10, fminf(0, fmaxf(-96, x)) / 20)
  pub from_decibels : Real → Real
  -- powf(10, x / 20)
  pub power_of_decibels : Real → Real
  pub linear_pcm : ℕ
  pub native_float_packed : ℕ

-- AudioStreamBasicDescription
pub record Format (Real : Type 0) : Type 0 where
  pub rate : Real
  pub format_id : ℕ
  pub format_flags : ℕ
  pub bytes_per_packet : ℕ
  pub frames_per_packet : ℕ
  pub bytes_per_frame : ℕ
  pub channels_per_frame : ℕ
  pub bits_per_channel : ℕ

abbrev pub channels : ℕ
channels = 2

unfoldable pub has : Bool → Object → Option Address → Bool
has is_driver object address =
    is_driver && elim (property_size object address true).0 [ no_error ↦ true | _ ↦ false ]

-- The objects and selectors whose value a client may set.
pub is_writable : Object → Selector → Bool
is_writable object selector = elim selector [
  | nominal_rate ↦ is_device object
  | device_volume ↦ is_device object
  | device_mute ↦ is_device object
  | scalar_value ↦ is_volume object
  | decibel_value ↦ is_volume object
  | boolean_value ↦ is_mute object
  | virtual_format ↦ is_stream object
  | physical_format ↦ is_stream object
  | is_active ↦ is_stream object
  | _ ↦ false
]

-- The status, and what is left behind the result pointer.
pub settable : Bool → Object → Option Address → Bool → Status × Bool
settable is_driver object none has_result =
    if has_result then (unknown_property, false) else (illegal_operation, false)
settable is_driver object (some address) has_result =
    if not has_result
    then (illegal_operation, false)
    else if not (has is_driver object (some address))
    then (unknown_property, false)
    else (no_error, is_writable object address.selector)

unfoldable pub size_of : Bool → Object → Option Address → Bool → Status × ℕ
size_of is_driver object address has_result =
    if is_driver then property_size object address has_result else (bad_object, 0)
