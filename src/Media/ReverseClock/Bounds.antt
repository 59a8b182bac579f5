-- ===== src/Media/ReverseClock/Bounds.antt =====
-- What the clock promises: anchors that stay in range, and mapped times that are near the present,
-- in range, and as far apart as their sources.
use plank.Common.{ℕ, ◌+◌, ◌-◌, ◌≤◌, ◌<◌, ◌≡◌, ◌≢◌, ◌⊎◌, inl, inr, arith, true, false, ap}
use plank.Media.ReverseClock.{
  Clock, clear, active, observe, map, in_window, int64_max, fresh_ns, reach_ns,
}

-- An anchor is cleared, or has two times from 1 to INT64_MAX that were seen within 100 ms of each other.
abbrev pub IsValid : Clock → Type 0
IsValid clock =
    (clock ≡ clear)
    ⊎ ((0 < clock.source)
        × (clock.source ≤ int64_max)
        × (0 < clock.host)
        × (clock.host ≤ int64_max)
        × (0 < clock.observed)
        × (clock.host ≤ clock.observed + fresh_ns)
        × (clock.observed ≤ clock.host + fresh_ns))

-- `observe` takes the anchor as it is given or clears the clock, as its result says, and the clock
-- is valid either way. An anchor that is taken while the one before is fresh is later in both
-- times.
pub observe_lem :
    (clock : Clock) (source host now : ℕ)
    → let (taken, next) = observe clock source host now in
      IsValid next
      × (((taken ≡ true) × (next ≡ record { source = source; host = host; observed = now }))
          ⊎ ((taken ≡ false) × (next ≡ clear)))
      × ((active clock now ≡ true) → taken ≡ true → (clock.source < source) × (clock.host < host))
unfolding observe
observe_lem clock source host now = ground arith

in_window_lem :
    (mapped now : ℕ)
    → in_window mapped now ≡ true
    → (mapped ≤ now + fresh_ns) × (now ≤ mapped + reach_ns)
unfolding in_window
in_window_lem mapped now good = ground arith

active_source : (clock : Clock) (now : ℕ) → active clock now ≡ true → 0 < clock.source
unfolding active
active_source clock now good = ground arith

anchored : (clock : Clock) → IsValid clock → 0 < clock.source → clock.host ≤ int64_max
anchored clock (inl cleared) given = absurd (omega (arith, ap (λ c. c.source) cleared))
anchored clock (inr anchor) given = omega (arith, anchor)

-- What holds where `map` gives a time, for each direction of the difference.
map_cases :
    (clock : Clock) (source now : ℕ)
    → map clock source now ≢ 0
    → (active clock now ≡ true)
      × (in_window (map clock source now) now ≡ true)
      × (((clock.source ≤ source)
            × (map clock source now ≡ clock.host + (source - clock.source))
            × ((source ≡ clock.source) ⊎ (clock.host + (source - clock.source) ≤ int64_max)))
          ⊎ ((source < clock.source)
              × (clock.source - source < clock.host)
              × (map clock source now ≡ clock.host - (clock.source - source))))
unfolding map
map_cases clock source now given = ground arith

-- On a valid clock, a time that is given, which is one other than 0, is a signed 64-bit number, at
-- most 100 ms ahead of now and 150 ms behind it, and lies as far from the host time of the anchor
-- as the source time from its source time.
pub map_lem :
    (clock : Clock) (source now : ℕ)
    → IsValid clock
    → map clock source now ≢ 0
    → (map clock source now ≤ int64_max)
      × (map clock source now ≤ now + fresh_ns)
      × (now ≤ map clock source now + reach_ns)
      × (map clock source now + clock.source ≡ source + clock.host)
map_lem clock source now valid given =
    let (fresh, near, cases) = map_cases clock source now given in
    let top = anchored clock valid (active_source clock now fresh) in
    omega (arith, top, in_window_lem (map clock source now) now near, cases)

-- On a valid clock, two times that are given, each other than 0, are as far apart as their sources.
pub map-map :
    (clock : Clock) (first second now later : ℕ)
    → IsValid clock
    → map clock first now ≢ 0
    → map clock second later ≢ 0
    → map clock first now + second ≡ map clock second later + first
map-map clock first second now later valid g h =
    omega (arith, map_lem clock first now valid g, map_lem clock second later valid h)
