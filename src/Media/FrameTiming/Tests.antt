-- ===== src/Media/FrameTiming/Tests.antt =====
-- Runs of the trace, and its theorem at a concrete one.
use plank.Common.{
  ℕ, zero, suc, ◌≡◌, ◌≢◌, refl, arith, ap, some, none, List, ◌∷◌, replicate, length, get_or,
}
use plank.Media.FrameTiming.{Record, Trace, zero_record, append, stamp}
use plank.Media.FrameTiming.Bounds.{IsValid, append-IsValid}

abbrev storage : List Record
storage = replicate 8192 zero_record

length-replicate : (n : ℕ) → length (replicate n zero_record) ≡ n
length-replicate zero = refl
length-replicate (suc n) = ap suc (length-replicate n)

abbrev started : Trace
started = record { origin_ns = 1000; wall_ns = 99; count = 0; records = storage }

started-IsValid : IsValid started
started-IsValid = record {
  whole = length-replicate 8192;
  fits = omega arith;
  timed = λ i h. absurd (omega arith);
}

abbrev one_frame : Trace
one_frame = record {
  origin_ns = 1000;
  wall_ns = 99;
  count = 1;
  records = stamp zero_record 5000 ∷ replicate 8191 zero_record;
}

append_first : append (some started) 5000 ≡ some (0, one_frame)
unfolding append
append_first = refl

append_late : append (some started) 120_000_001_000 ≡ none
unfolding append
append_late = refl

append-IsValid_example :
    IsValid one_frame
    × (0 ≡ started.count)
    × (one_frame.count ≡ suc 0)
    × ((get_or one_frame.records 0 zero_record).capture_ns ≡ 5000)
    × ((j : ℕ) → j ≢ 0 → get_or one_frame.records j zero_record ≡ get_or storage j zero_record)
append-IsValid_example = append-IsValid started one_frame 5000 0 started-IsValid append_first
