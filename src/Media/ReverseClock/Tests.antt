-- ===== src/Media/ReverseClock/Tests.antt =====
-- Runs of the clock, and its theorems at a concrete anchor.
use plank.Common.{◌+◌, ◌≤◌, ◌<◌, ◌≡◌, ◌⊎◌, inr, refl, arith, true, false}
use plank.Media.ReverseClock.{
  Clock, clear, active, observe, map, in_window, int64_max, fresh_ns, reach_ns,
}
use plank.Media.ReverseClock.Bounds.{IsValid, observe_lem, map_lem}

abbrev anchor : Clock
anchor = record { source = 5_000_000_000; host = 7_000_000_000; observed = 7_010_000_000 }

observe-anchor : observe clear 5_000_000_000 7_000_000_000 7_010_000_000 ≡ (true, anchor)
unfolding observe active
observe-anchor = refl

-- A time 20 ms after the anchor, asked for 30 ms after it was seen.
map_ahead : map anchor 5_020_000_000 7_040_000_000 ≡ 7_020_000_000
unfolding map active in_window
map_ahead = refl

map_behind : map anchor 4_990_000_000 7_020_000_000 ≡ 6_990_000_000
unfolding map active in_window
map_behind = refl

anchor-IsValid : IsValid anchor
anchor-IsValid = inr (omega arith)

observe_lem_example :
    let (taken, next) = observe anchor 5_010_000_000 7_000_000_000 7_020_000_000 in
    IsValid next
    × (((taken ≡ true)
          × (next
              ≡ record { source = 5_010_000_000; host = 7_000_000_000; observed = 7_020_000_000 }))
        ⊎ ((taken ≡ false) × (next ≡ clear)))
    × ((active anchor 7_020_000_000 ≡ true)
        → taken ≡ true
        → (5_000_000_000 < 5_010_000_000) × (7_000_000_000 < 7_000_000_000))
observe_lem_example = observe_lem anchor 5_010_000_000 7_000_000_000 7_020_000_000

map_lem_example :
    let mapped = map anchor 5_020_000_000 7_040_000_000 in
    (mapped ≤ int64_max)
    × (mapped ≤ 7_040_000_000 + fresh_ns)
    × (7_040_000_000 ≤ mapped + reach_ns)
    × (mapped + 5_000_000_000 ≡ 5_020_000_000 + 7_000_000_000)
map_lem_example =
    map_lem anchor 5_020_000_000 7_040_000_000 anchor-IsValid (rw map_ahead (omega arith))
