-- ===== src/Media/VideoRecovery/Tests.antt =====
-- Runs of the recovery state, and its theorems at concrete outcomes.
use plank.Common.{◌≡◌, refl, true, false, [], ◌∷◌, ◌++◌, All}
use plank.Media.VideoRecovery.{Recovery, begin, sent}
use plank.Media.VideoRecovery.Runs.{Outcome, send_all, mends, loses, send_all_lem}

abbrev idle : Recovery
idle = record { requested = false; encoding = false }

abbrev dropped : Outcome
dropped = record { key = false; accepted = true; evicted = true }

abbrev key_sent : Outcome
key_sent = record { key = true; accepted = true; evicted = true }

abbrev delta_sent : Outcome
delta_sent = record { key = false; accepted = true; evicted = false }

asked_after_drop :
    begin (sent idle false true true) ≡ (true, record { requested = true; encoding = true })
unfolding begin sent
asked_after_drop = refl

send_all_lem_example :
    ((loses dropped ≡ true)
      → All (λ x. mends x ≡ false) (delta_sent ∷ [])
      → (send_all idle ((key_sent ∷ []) ++ (dropped ∷ delta_sent ∷ []))).requested ≡ true)
    × ((mends dropped ≡ true)
        → All (λ x. loses x ≡ false) (delta_sent ∷ [])
        → (send_all idle ((key_sent ∷ []) ++ (dropped ∷ delta_sent ∷ []))).requested ≡ false)
send_all_lem_example = send_all_lem idle (key_sent ∷ []) (delta_sent ∷ []) dropped
