-- ===== src/Media/ReverseClock.antt =====
-- reverse-media-clock.h: the clock that carries a source time of the Client to the time of the Host.
-- Times are in nanoseconds, below 2^64; the subtractions of the source never go below 0 where they
-- are used, except the signed difference of two source times, which is taken in both directions.
pub mod Bounds
mod Tests
use plank.Common.{
  ℕ, ◌+◌, ◌-◌, Bool, true, false, not, ◌||◌, ◌&&◌, ltb, leb, ◌==◌, ◌!=◌, if◌then◌else◌,
}

abbrev pub int64_max : ℕ
int64_max = 0x7fff_ffff_ffff_ffff

abbrev pub fresh_ns : ℕ
fresh_ns = 100_000_000

abbrev pub reach_ns : ℕ
reach_ns = 150_000_000

pub record Clock : Type 0 where
  pub source : ℕ
  pub host : ℕ
  pub observed : ℕ

abbrev pub clear : Clock
clear = record { source = 0; host = 0; observed = 0 }

pub active : Clock → ℕ → Bool
active clock now =
    clock.source != 0 && leb clock.observed now && ltb (now - clock.observed) fresh_ns

pub observe : Clock → ℕ → ℕ → ℕ → Bool × Clock
unfolding active
observe clock source host now =
    if source == 0
      || ltb int64_max source
      || host == 0
      || ltb int64_max host
      || now == 0
      || ltb fresh_ns (if leb now host then host - now else now - host)
    then (false, clear)
    else if active clock now && (leb source clock.source || leb host clock.host)
    then (false, clear)
    else (true, record { source = source; host = host; observed = now })

-- The conditions on the sum of the host time and the difference.
pub in_window : ℕ → ℕ → Bool
in_window mapped now = not (
    (ltb now mapped && ltb fresh_ns (mapped - now))
    || (leb mapped now && ltb reach_ns (now - mapped)))

-- `delta` is `source - clock.source` where that is positive, and `back` is its opposite where it is
-- negative; one of the two is 0.
pub map : Clock → ℕ → ℕ → ℕ
unfolding in_window
map clock source now =
    let delta = source - clock.source in
    let back = clock.source - source in
    let mapped = if leb clock.source source then clock.host + delta else clock.host - back in
    if not (active clock now) || source == 0 || ltb int64_max source
    then 0
    else if ltb reach_ns back
        || ltb reach_ns delta
        || (ltb 0 delta && ltb (int64_max - delta) clock.host)
        || (ltb 0 back && leb clock.host back)
    then 0
    else if in_window mapped now
    then mapped
    else 0
