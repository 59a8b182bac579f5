-- ===== src/Media/FrameTiming/Bounds.antt =====
-- A trace stays within its capacity and its duration, whatever is appended.
use plank.Common.{
  ℕ, suc, ◌+◌, ◌≤◌, ◌<◌, ◌≡◌, ◌≢◌, ◌⊎◌, inl, inr, refl, sym, ◌∙◌, ap, arith, some, set, get_or,
  length, length-set, get_or-set_self, get_or-set_ne,
}
use plank.Media.FrameTiming.{Trace, zero_record, append, stamp, capacity, duration_ns}

-- The storage is whole, the records that count fit in it, and each was captured in the duration.
pub record IsValid (trace : Trace) : Type 0 where
  pub whole : length trace.records ≡ capacity
  pub fits : trace.count ≤ capacity
  pub timed :
      (i : ℕ)
      → i < trace.count
      → (trace.origin_ns ≤ (get_or trace.records i zero_record).capture_ns)
        × ((get_or trace.records i zero_record).capture_ns < trace.origin_ns + duration_ns)

append_cases :
    (trace next : Trace) (now i : ℕ)
    → append (some trace) now ≡ some (i, next)
    → (trace.origin_ns ≤ now)
      × (now < trace.origin_ns + duration_ns)
      × (trace.count ≢ capacity)
      × (i ≡ trace.count)
      × (next ≡ record {
        origin_ns = trace.origin_ns;
        wall_ns = trace.wall_ns;
        count = trace.count + 1;
        records =
            set trace.records trace.count
              (stamp (get_or trace.records trace.count zero_record) now);
      })
unfolding append
append_cases trace next now i e = ground arith

-- Appending to a valid trace gives a valid trace; the record that is handed out is the next one, it
-- has the time of the call, and every other record is as it was.
pub append-IsValid :
    (trace next : Trace) (now i : ℕ)
    → IsValid trace
    → append (some trace) now ≡ some (i, next)
    → IsValid next
      × (i ≡ trace.count)
      × (next.count ≡ suc i)
      × ((get_or next.records i zero_record).capture_ns ≡ now)
      × ((j : ℕ) → j ≢ i → get_or next.records j zero_record ≡ get_or trace.records j zero_record)
unfolding stamp
append-IsValid trace next now i valid e =
    let (after, before, room, here, same) = append_cases trace next now i e in
    let fresh = stamp (get_or trace.records trace.count zero_record) now in
    let inside : trace.count < length trace.records =
      omega (arith, valid.whole, valid.fits, room) in
    let written = get_or-set_self trace.records trace.count fresh zero_record inside in
    rw (same, here)
      (
        record {
          whole = length-set trace.records trace.count fresh ∙ valid.whole;
          fits = omega (arith, valid.fits, room);
          timed = λ j h. elim (Nat-cases j trace.count) [
            | inl last ↦ rw (last, written) (after, before)
            | inr other ↦
                rw
                  (get_or-set_ne trace.records trace.count j fresh zero_record (λ x. other (sym x)))
                  (valid.timed j (omega (arith, other)))
          ];
        },
        refl,
        omega arith,
        ap (λ r. r.capture_ns) written,
        λ j other. get_or-set_ne trace.records trace.count j fresh zero_record (λ x. other (sym x)),
      )
  where
    Nat-cases : (a b : ℕ) → (a ≡ b) ⊎ (a ≢ b)
    Nat-cases a b = omega arith
