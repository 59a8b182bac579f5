-- ===== src/Audio/MicQueue/Tests.antt =====
-- Runs of the queue, and its theorems at concrete packets. A sample is a number here, and finite below 100.
use plank.Common.{ℕ, ◌≡◌, refl, true, false, ltb, some, min, if◌then◌else◌}
use plank.Audio.MicQueue.{Float, Queue, Packet, bad_packet}

abbrev numbers : Float ℕ
numbers = record {
  silence = 0;
  is_finite = λ x. ltb x 100;
  clamp = λ x. min 50 x;
  blend = λ i consume x y. x;
}

-- Two packets wait, the first of them for 100 ms at the time 101_000_000.
abbrev waiting : Queue ℕ
waiting = record {
  samples = λ i. i;
  arrived = λ i. if ltb i 480 then 1_000_000 else 11_000_000;
  captured = λ i. 0;
  next_sample = 960;
  expired_frames = 0;
  discarded_frames = 0;
  head = 0;
  count = 960;
  average_frames256 = 0;
  has_sample = true;
  primed = false;
}

abbrev packet : Packet ℕ
packet = record { samples = some (λ i. 7); count = 480; sample_time = 960; capture_time = 0 }

good : bad_packet numbers waiting packet ≡ false
unfolding bad_packet
good = refl
