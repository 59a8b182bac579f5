-- ===== src/Media/TapPolicy.antt =====
-- audio-tap-policy.h: whose processes may be tapped.
use plank.Common.{ℕ, Bool, false, ◌&&◌, ◌==◌, ◌!=◌, not}
use plank.Transport.Profiles.{ℤ, pos, negsuc}

-- Whether two process identities are the same.
abbrev pub same_process : ℤ → ℤ → Bool
same_process (pos m) (pos n) = m == n
same_process (pos m) (negsuc n) = false
same_process (negsuc m) (pos n) = false
same_process (negsuc m) (negsuc n) = m == n

abbrev pub is_process : ℤ → Bool
is_process (pos n) = n != 0
is_process (negsuc n) = false

pub process_owned : ℕ → ℤ → ℤ → ℕ → ℕ → Bool
process_owned owner caller candidate effective real =
    owner != 0
    && is_process candidate
    && not (same_process candidate caller)
    && effective == owner
    && real == owner
