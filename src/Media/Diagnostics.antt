-- ===== src/Media/Diagnostics.antt =====
-- stream-diagnostics.h: the labels of transport failures, and the timing of input.
pub mod Labels
mod Tests
use plank.Common.{
  ℕ, ◌+◌, ◌-◌, ◌%◌, ◌^◌, Bool, true, false, ltb, leb, if◌then◌else◌, Option, none, some, List, [],
  ◌∷◌,
}
use plank.Common.Bits.{u64}
use text.Mathlib.Text.{◌==◌, starts_with}
use Prim.Native.String.{String}

-- A prefix of an error and the label for it.
pub record Lane : Type 0 where
  pub prefix : String
  pub label : String

abbrev pub lanes : List Lane
lanes =
    record { prefix = "native input receiver failed:"; label = "input-receiver-failed" }
    ∷ record { prefix = "native data receiver failed:"; label = "data-receiver-failed" }
    ∷ record { prefix = "native data sender failed:"; label = "data-sender-failed" }
    ∷ record { prefix = "native video sender failed:"; label = "video-sender-failed" }
    ∷ record { prefix = "native audio sender failed:"; label = "audio-sender-failed" }
    ∷ record { prefix = "native stats sampler failed:"; label = "stats-sampler-failed" }
    ∷ record {
      prefix = "native input receiver ended while the native endpoint was active";
      label = "input-receiver-ended";
    }
    ∷ record {
      prefix = "native data receiver ended while the native endpoint was active";
      label = "data-receiver-ended";
    }
    ∷ []

-- The loop over the lanes.
pub lane_label : String → List Lane → String
lane_label error [] = "other"
lane_label error (lane ∷ rest) =
    let later = lane_label error rest in if starts_with error lane.prefix then lane.label else later

pub failure_class : Option String → String
failure_class none = "none"
failure_class (some error) =
    if error == ""
    then "none"
    else if error == "native input receiver failed: native input receive queue exhausted"
    then "input-receive-queue-exhausted"
    else if error == "native data receiver failed: native reliable data receive queue exhausted"
    then "data-receive-queue-exhausted"
    else lane_label error lanes

-- PLANKMacInputTiming
pub record InputTiming : Type 0 where
  pub count : ℕ
  pub slow : ℕ
  pub maximum : ℕ

pub note : InputTiming → ℕ → ℕ → InputTiming
note timing start end =
    let elapsed = end - start in
    if ltb end start then timing else record {
      count = u64 (timing.count + 1);
      slow = if leb 20_000_000 elapsed then u64 (timing.slow + 1) else timing.slow;
      maximum = if ltb timing.maximum elapsed then elapsed else timing.maximum;
    }
