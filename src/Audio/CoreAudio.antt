-- ===== src/Audio/CoreAudio.antt =====
-- The words of Core Audio that the drivers use: objects, scopes, property selectors, results and what a
-- property holds. A selector is a constructor for each constant that the drivers name; the constants of
-- one `switch` are distinct, and kAudioDevicePropertyLatency and kAudioStreamPropertyLatency are the same
-- four characters, so both are `latency`. `unlisted` stands for every other number.
use plank.Common.{ℕ, ◌*◌, Bool, true, false, List, length}
use Prim.Native.String.{String}

pub data Object : Type 0 where
  plug_in : Object
  device : Object
  stream : Object
  volume : Object
  mute : Object
  unlisted_object : Object

pub data Scope : Type 0 where
  global_scope : Scope
  input_scope : Scope
  output_scope : Scope
  unlisted_scope : Scope

pub data Selector : Type 0 where
  base_class class owner name manufacturer owned_objects : Selector
  device_list translate_uid resource_bundle : Selector
  device_uid model_uid transport_type clock_domain is_alive is_running is_hidden : Selector
  timestamp_period nominal_rate available_rates control_list related_devices : Selector
  default_device default_system_device latency safety_offset preferred_channels streams : Selector
  device_volume device_mute : Selector
  control_scope control_element boolean_value scalar_value decibel_value : Selector
  scalar_to_decibels decibels_to_scalar decibel_range : Selector
  is_active direction terminal_type starting_channel : Selector
  virtual_format physical_format virtual_formats physical_formats : Selector
  unlisted_selector : Selector

-- What a call gives back; `no_error` is noErr and S_OK.
pub data Status : Type 0 where
  no_error bad_object unknown_property illegal_operation unsupported_operation : Status
  bad_property_size unsupported_format bad_pointer no_interface : Status

-- `is_main` is `mElement == kAudioObjectPropertyElementMain`.
pub record Address : Type 0 where
  pub selector : Selector
  pub scope : Scope
  pub is_main : Bool

pub data ClassId : Type 0 where
  level_control boolean_control object_class device_class stream_class : ClassId
  volume_control mute_control plug_in_class : ClassId

-- What the driver copies behind the data pointer: a UInt32 (a number, an object, a class or one of
-- Core Audio's constants), several of them, a CFStringRef, or one of the structures.
pub data Answer (Real : Type 0) : Type 0 where
  number : ℕ → Answer Real
  object_id : Object → Answer Real
  no_object : Answer Real
  class_id : ClassId → Answer Real
  output_scope_id main_element virtual_transport speaker microphone : Answer Real
  object_ids : List Object → Answer Real
  numbers : List ℕ → Answer Real
  text : String → Answer Real
  float32 : Real → Answer Real
  sample_rate : Answer Real
  decibel_limits rate_limits : Answer Real
  format : Answer Real
  ranged_format : Answer Real

-- The sizes of the types on the 64-bit systems that load the drivers.
abbrev pub word_size : ℕ
word_size = 4

abbrev pub pointer_size : ℕ
pointer_size = 8

abbrev pub double_size : ℕ
double_size = 8

abbrev pub range_size : ℕ
range_size = 16

abbrev pub format_size : ℕ
format_size = 40

abbrev pub ranged_format_size : ℕ
ranged_format_size = 56

-- How many bytes the copy of an answer writes.
abbrev pub answer_size : {Real : Type 0} → Answer Real → ℕ
answer_size (number n) = word_size
answer_size (object_id o) = word_size
answer_size no_object = word_size
answer_size (class_id c) = word_size
answer_size output_scope_id = word_size
answer_size main_element = word_size
answer_size virtual_transport = word_size
answer_size speaker = word_size
answer_size microphone = word_size
answer_size (object_ids os) = length os * word_size
answer_size (numbers ns) = length ns * word_size
answer_size (text s) = pointer_size
answer_size (float32 x) = word_size
answer_size sample_rate = double_size
answer_size decibel_limits = range_size
answer_size rate_limits = range_size
answer_size format = format_size
answer_size ranged_format = ranged_format_size

-- Which object it is.
abbrev pub is_plug_in : Object → Bool
is_plug_in plug_in = true
is_plug_in device = false
is_plug_in stream = false
is_plug_in volume = false
is_plug_in mute = false
is_plug_in unlisted_object = false

abbrev pub is_device : Object → Bool
is_device plug_in = false
is_device device = true
is_device stream = false
is_device volume = false
is_device mute = false
is_device unlisted_object = false

abbrev pub is_stream : Object → Bool
is_stream plug_in = false
is_stream device = false
is_stream stream = true
is_stream volume = false
is_stream mute = false
is_stream unlisted_object = false

abbrev pub is_volume : Object → Bool
is_volume plug_in = false
is_volume device = false
is_volume stream = false
is_volume volume = true
is_volume mute = false
is_volume unlisted_object = false

abbrev pub is_mute : Object → Bool
is_mute plug_in = false
is_mute device = false
is_mute stream = false
is_mute volume = false
is_mute mute = true
is_mute unlisted_object = false

abbrev pub is_global : Scope → Bool
is_global global_scope = true
is_global input_scope = false
is_global output_scope = false
is_global unlisted_scope = false

abbrev pub is_input : Scope → Bool
is_input global_scope = false
is_input input_scope = true
is_input output_scope = false
is_input unlisted_scope = false

abbrev pub is_output : Scope → Bool
is_output global_scope = false
is_output input_scope = false
is_output output_scope = true
is_output unlisted_scope = false
