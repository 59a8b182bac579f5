-- ===== src/Media/VideoRecovery.antt =====
-- video-recovery.h: whether a recovery picture is wanted, and whether one is being encoded.
pub mod Runs
mod Tests
use plank.Common.{Bool, true, false, not, ◌||◌, ◌&&◌, if◌then◌else◌}

pub record Recovery : Type 0 where
  pub requested : Bool
  pub encoding : Bool

-- The result, and the state that the pointer shows afterwards.
pub begin : Recovery → Bool × Recovery
begin state =
    if not state.requested || state.encoding
    then (false, state)
    else (true, record { requested = state.requested; encoding = true })

pub sent : Recovery → Bool → Bool → Bool → Recovery
sent state key accepted evicted =
    if key && accepted
    then record { requested = false; encoding = state.encoding }
    else if not accepted || evicted
    then record { requested = true; encoding = state.encoding }
    else state
