-- ===== src/Audio/MicDriver/Tests.antt =====
-- The microphone driver's theorems at concrete calls. A real number is a natural number here.
use plank.Common.{ℕ, ◌≤◌, ◌≡◌, refl, arith, true, ltb, min, some, List, [], ◌∷◌}
use plank.Audio.CoreAudio.{device, Address, input_scope, preferred_channels}
use plank.Audio.Clients.{max_clients}
use plank.Audio.MicBuffer.{Float}
use plank.Audio.MicDriver.{initial}
use plank.Audio.MicDriver.Sizes.{
  property_size, object_exists, look_up, general_size, device_size, side_size,
}
use plank.Audio.MicDriver.Properties.{has, size_of}
use plank.Audio.MicDriver.Sharing.{IsValid}
use plank.Audio.MicDriver.Runs.{Call, initializes, adds, changes_io, removes, run, mic_run_lem}

abbrev numbers : Float ℕ
numbers = record { silence = 0; is_finite = λ x. ltb x 100; clamp = λ x. min 50 x }

-- Two clients come, the first starts, the second starts, and the first goes.
abbrev calls : List (Call ℕ)
calls =
    initializes numbers true true 500 1_000
    ∷ adds true device (some 7)
    ∷ adds true device (some 8)
    ∷ changes_io true device 7 true 2_000
    ∷ changes_io true device 8 true 3_000
    ∷ removes true device (some 7)
    ∷ []

mic_run_lem_example : let d = run (initial 0 0) calls in IsValid d × (d.running ≤ max_clients)
mic_run_lem_example = mic_run_lem 0 0 calls

abbrev preferred : Address
preferred = record { selector = preferred_channels; scope = input_scope; is_main = true }

device-has : has true device (some preferred) ≡ true
unfolding has property_size object_exists look_up general_size device_size side_size
device-has = refl

preferred_size : (size_of true device (some preferred) true).1 ≤ 8
unfolding size_of property_size object_exists look_up general_size device_size side_size
preferred_size = omega arith
