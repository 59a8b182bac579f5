-- ===== src/Audio/MicQueue/Render/Bounds.antt =====
-- What `render` takes off the queue.
use plank.Common.{ℕ, ◌≤◌, arith}
use plank.Audio.MicQueue.Render.{smooth}

-- The smoothed count lies between the one before and the count now.
smooth_lem :
    (average now : ℕ)
    → ((average ≤ now) → (average ≤ smooth average now) × (smooth average now ≤ now))
      × ((now ≤ average) → (now ≤ smooth average now) × (smooth average now ≤ average))
unfolding smooth
smooth_lem average now = ground arith
