-- ===== src/Audio/MicLink/Tests.antt =====
-- The lease at a concrete run: a producer is admitted at 100 for 50 ticks, and asks for a far deadline.
use plank.Common.{
  ℕ, ◌+◌, ◌*◌, ◌≡◌, inl, refl, arith, true, false, ltb, min, some, none, List, [], ◌∷◌,
}
use plank.Audio.MicBuffer.{Float, Buffer, silences}
use plank.Audio.MicDriver.{initial}
use plank.Audio.MicLink.{Clock, Link, State, Message, gated_read}
use plank.Audio.MicLink.Gate.{IsGated}
use plank.Audio.MicLink.Lease.{Event, messages, timers, produces, run, lease_lem}

abbrev numbers : Float ℕ
numbers = record { silence = 0; is_finite = λ x. ltb x 100; clamp = λ x. min 50 x }

abbrev clock : Clock
clock = record { one_second = 25; two_seconds = 50; half_second = 12; frames_since = λ t. t * 10 }

abbrev samples : Buffer ℕ
samples = record {
  generation = 2;
  first_frame = 0;
  samples = λ k. record { frame = k + 1; bits = (k, k) };
}

abbrev region : Link ℕ
region = record {
  version = 2;
  clock_sequence = 0;
  anchor = 0;
  seed = 0;
  running = 0;
  producer_seed = 0;
  deadline = 0;
  ticks_per_frame = 0;
  samples = samples;
}

abbrev start : State ℕ
start = record {
  driver = record (initial 0 0) { has_host = true; running = 1; clock_seed = 2 };
  has_peer = true;
  link = none;
  lease = 0;
  broker_deadline = 0;
  connect_at = 0;
  copied_seed = 0;
  copied_generation = 0;
  input_deadline = 0;
  input_lease = 0;
}

abbrev admission : Message ℕ
admission = record {
  is_own_peer = true;
  is_error = false;
  is_root = true;
  is_dictionary = true;
  version = some 2;
  operation = some 1;
  lease = some 9;
  entries = 4;
  memory = some (record { bytes = 4096; mapping = some region });
  has_reply = true;
}

abbrev events : List (Event ℕ)
events =
    messages 100 admission
    ∷ produces (record region { producer_seed = 2; deadline = 1_000_000 })
    ∷ timers (λ block load. samples) 120
    ∷ []

start-IsGated : IsGated 150 start
start-IsGated = record { broker = omega arith; input = omega arith; closed = λ e. (refl, refl) }

lease_lem_example :
    gated_read numbers (λ t. samples) 150 150 (run numbers clock 4096 start events) start 2 0
    ≡ silences (0, 0) 2
lease_lem_example =
    lease_lem numbers clock 4096 150 start events (λ t. samples) 150 150 2 0 start start-IsGated
      (λ e. omega arith, refl) (inl (omega arith))
