-- ===== src/Probes/Native10/Rows.antt =====
-- However many workers share the rows, the planes are those of a single one.
use plank.Common.{ℕ, zero, suc, ◌+◌, ◌-◌, ◌*◌, ◌/◌, ◌≤◌, ◌<◌, ◌≡◌, refl, ◌∙◌, arith}
use native.Mathlib.Nat.{
  le-div_iff_mul-le, div-mul-le_self, mul-div_cancel, mul-le-mul_left, le_trans, zero-div,
}
use plank.Probes.Native10.{
  Channels, Planes, unpack_row, unpack_rows, unpack_single, unpack_workers, unpack_parallel,
}

div_mono : (a b t : ℕ) → 0 < t → a ≤ b → a / t ≤ b / t
div_mono a b t some_t low = (le-div_iff_mul-le some_t).1 (le_trans (div-mul-le_self a t) low)

module _ (channels : Channels) (pixels : ℕ → ℕ → ℕ) (width : ℕ) where
  -- Rows that follow one another can be unpacked in two parts.
  rows_split :
      (y z m n total : ℕ) (p : Planes)
      → z ≡ y + m
      → total ≡ m + n
      → unpack_rows channels pixels width z n (unpack_rows channels pixels width y m p)
        ≡ unpack_rows channels pixels width y total p
  unfolding unpack_rows
  rows_split y z zero n total p from whole =
      let start : z ≡ y = omega (arith, from) in
      let rest : total ≡ n = omega (arith, whole) in rw (start, rest) refl
  rows_split y z (suc m) n zero p from whole = absurd (omega (arith, whole))
  rows_split y z (suc m) n (suc total) p from whole =
      rows_split (suc y) z m n total (unpack_row channels (pixels y) (y * width) 0 width p)
        (omega (arith, from)) (omega (arith, whole))

  module _ (height threads : ℕ) (some_threads : 0 < threads) where
    -- The workers from an index on unpack the rows from its first one on.
    workers_lem :
        (index n : ℕ) (p : Planes)
        → index + n ≡ threads
        → unpack_workers channels pixels width height threads index n p
          ≡ unpack_rows channels pixels width
              (height * index / threads)
              (height - height * index / threads)
              p
    unfolding unpack_workers unpack_rows
    workers_lem index zero p e =
        let all : index ≡ threads = omega (arith, e) in
        let done : height * threads / threads ≡ height = mul-div_cancel height some_threads in
        let nothing : height - height ≡ 0 = omega arith in rw (all, done, nothing) refl
    workers_lem index (suc n) p e =
        let first = height * index / threads in
        let next = height * (index + 1) / threads in
        let one : suc index ≡ index + 1 = omega arith in
        let up : first ≤ next =
          div_mono (height * index) (height * (index + 1)) threads some_threads
            (mul-le-mul_left height (omega arith)) in
        let all : height * threads / threads ≡ height = mul-div_cancel height some_threads in
        let bound : next ≤ height * threads / threads =
          div_mono (height * (index + 1)) (height * threads) threads some_threads
            (mul-le-mul_left height (omega (arith, e))) in
        let inside : next ≤ height = omega (arith, bound, all) in
        workers_lem (suc index) n (unpack_rows channels pixels width first (next - first) p)
          (omega (arith, e))
        ∙ rw one (
            rows_split first next (next - first) (height - next) (height - first) p
              (omega (arith, up)) (omega (arith, up, inside)))

  -- With one worker or more, the planes are those that a single worker unpacks.
  pub unpack_parallel_lem :
      (height threads : ℕ) (p : Planes)
      → 0 < threads
      → unpack_parallel channels pixels width height threads p
        ≡ unpack_single channels pixels width height p
  unfolding unpack_parallel unpack_single
  unpack_parallel_lem height threads p some_threads =
      let none_before : height * 0 / threads ≡ 0 = rw (the_zero height) (zero-div threads) in
      let whole : height - 0 ≡ height = omega arith in
      workers_lem height threads some_threads 0 threads p (omega arith)
      ∙ rw (none_before, whole) refl
    where
      the_zero : (height : ℕ) → height * 0 ≡ 0
      the_zero height = omega arith
