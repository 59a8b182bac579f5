-- ===== src/Media/FrameTiming.antt =====
-- frame-timing.h: the trace of one capture session, bounded in records and in time.
mod Bounds
mod Tests
use plank.Common.{
  ℕ, ◌+◌, ◌-◌, Bool, ◌||◌, ltb, leb, ◌==◌, if◌then◌else◌, Option, none, some, List, set, get_or,
}

abbrev pub capacity : ℕ
capacity = 8192

abbrev pub duration_ns : ℕ
duration_ns = 120_000_000_000

pub record Record : Type 0 where
  pub capture_ns : ℕ
  pub submitted_ns : ℕ
  pub completed_ns : ℕ
  pub handled_ns : ℕ
  pub sent_ns : ℕ
  pub pts_ns : ℕ
  pub number : ℕ
  pub bytes : ℕ
  pub in_flight : ℕ
  pub forced : ℕ
  pub key : ℕ
  pub stage : ℕ
  pub result : ℕ

abbrev pub zero_record : Record
zero_record = record {
  capture_ns = 0;
  submitted_ns = 0;
  completed_ns = 0;
  handled_ns = 0;
  sent_ns = 0;
  pts_ns = 0;
  number = 0;
  bytes = 0;
  in_flight = 0;
  forced = 0;
  key = 0;
  stage = 0;
  result = 0;
}

pub record Trace : Type 0 where
  pub origin_ns : ℕ
  pub wall_ns : ℕ
  pub count : ℕ
  pub records : List Record

stamp : Record → ℕ → Record
stamp r now = record {
  capture_ns = now;
  submitted_ns = r.submitted_ns;
  completed_ns = r.completed_ns;
  handled_ns = r.handled_ns;
  sent_ns = r.sent_ns;
  pts_ns = r.pts_ns;
  number = r.number;
  bytes = r.bytes;
  in_flight = r.in_flight;
  forced = r.forced;
  key = r.key;
  stage = r.stage;
  result = r.result;
}

-- The record that the pointer shows is the one at the given index.
pub append : Option Trace → ℕ → Option (ℕ × Trace)
append none now = none
append (some trace) now =
    if ltb now trace.origin_ns || leb duration_ns (now - trace.origin_ns) || trace.count == capacity
    then none
    else some (
      trace.count,
      record {
        origin_ns = trace.origin_ns;
        wall_ns = trace.wall_ns;
        count = trace.count + 1;
        records =
            set trace.records trace.count
              (stamp (get_or trace.records trace.count zero_record) now);
      },
    )
