-- ===== src/Audio/OutputDriver/Tests.antt =====
-- The output driver's theorems at concrete calls. A real number is a natural number here.
use plank.Common.{ℕ, ◌≤◌, ◌≡◌, ◌⊎◌, refl, arith, true, false, ltb, ◌==◌, some, none, List, [], ◌∷◌}
use plank.Audio.CoreAudio.{
  no_error, device, volume, Address, global_scope, scalar_value, related_devices, Answer,
  answer_size,
}
use plank.Audio.Clients.{max_clients}
use plank.Audio.OutputDriver.{initial}
use plank.Audio.OutputDriver.Sizes.{
  property_size, object_exists, look_up, general_size, device_size,
}
use plank.Audio.OutputDriver.Properties.{Reals, has, size_of}
use plank.Audio.OutputDriver.Get.{get}
use plank.Audio.OutputDriver.Get.Consistent.{output_get_lem}
use plank.Audio.OutputDriver.Set.{Data}
use plank.Audio.OutputDriver.Sharing.{IsValid}
use plank.Audio.OutputDriver.Runs.{
  Call, initializes, adds, changes_io, removes, sets, run, output_run_lem,
}

abbrev percent : Reals ℕ
percent = record {
  is_finite = λ x. ltb x 1000;
  less = ltb;
  equal = λ x y. x == y;
  nought = 0;
  unity = 100;
  minus_96 = 0;
  output_rate = 48000;
  gain_decibels = λ x. x;
  to_decibels = λ x. x;
  from_decibels = λ x. x;
  power_of_decibels = λ x. x;
  linear_pcm = 1;
  native_float_packed = 9;
}

abbrev related : Address
related = record { selector = related_devices; scope = global_scope; is_main = true }

device-has : has true device (some related) ≡ true
unfolding has property_size object_exists look_up general_size device_size
device-has = refl

related_size : (size_of true device (some related) true).1 ≤ 16
unfolding size_of property_size object_exists look_up general_size device_size
related_size = omega arith

output_get_lem_example :
    let needed = (size_of true device (some related) true).1 in
    let (status, actual, written) =
      get percent (initial 100 0) true device (some related) true false 16 true (some 5) in
    (status ≡ no_error)
    × (actual ≡ needed)
    × (((needed ≡ 0) × (written ≡ none))
        ⊎ ((answer : Answer ℕ) × (written ≡ some answer) × (answer_size answer ≡ needed)))
output_get_lem_example =
    output_get_lem percent (initial 100 0) device related false 16 5 device-has related_size refl

abbrev scalar : Address
scalar = record { selector = scalar_value; scope = global_scope; is_main = true }

abbrev half : Data ℕ
half = record {
  float = 50;
  double = 50;
  word = 50;
  format = record {
    rate = 0;
    format_id = 0;
    format_flags = 0;
    bytes_per_packet = 0;
    frames_per_packet = 0;
    bytes_per_frame = 0;
    channels_per_frame = 0;
    bits_per_channel = 0;
  };
}

-- Client 7 comes, starts, sets the volume, starts again, and goes while it runs.
abbrev calls : List (Call ℕ)
calls =
    initializes true true 500 1_000
    ∷ adds true device (some 7)
    ∷ changes_io true device 7 true 2_000
    ∷ sets true volume (some scalar) 4 (some half)
    ∷ changes_io true device 7 true 3_000
    ∷ removes true device (some 7)
    ∷ []

output_run_lem_example :
    let d = run percent (initial 100 0) calls in IsValid d × (d.running ≤ max_clients)
output_run_lem_example = output_run_lem percent calls
