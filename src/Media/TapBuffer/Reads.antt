-- ===== src/Media/TapBuffer/Reads.antt =====
-- What the reader does to the blocks that wait.
use plank.Common.{
  ℕ, zero, suc, ◌+◌, ◌%◌, ◌≡◌, ◌≢◌, ◌⊎◌, inl, inr, refl, arith, ◌!=◌, none, some, [], ◌∷◌,
  Bool-cases,
}
use plank.Common.Bits.{u32}
use plank.Media.TapBuffer.{Block, Buffer, slots, distance, peek, pop, discard_overrun}
use plank.Media.TapBuffer.Contents.{contents, count, IsValid}

ℕ-cases : (n : ℕ) → (n ≡ 0) ⊎ ((k : ℕ) × (n ≡ suc k))
ℕ-cases zero = inl refl
ℕ-cases (suc n) = inr (n, refl)

module _ {Sample Position : Type 0} where
  -- On a valid ring, either `peek` shows nothing and no block waits, or `peek` shows the oldest
  -- block that waits, `pop` takes that block off the queue, and the ring stays valid.
  pub peek_lem :
      (b : Buffer Sample Position)
      → IsValid b
      → ((peek b ≡ none) × (contents b ≡ []))
        ⊎ ((block : Block Sample Position) × (peek b ≡ some block)
            × (contents b ≡ block ∷ contents (pop b))
            × IsValid (pop b))
  unfolding peek pop contents
  peek_lem b valid = elim (ℕ-cases (count b)) [
    | inl none_wait ↦
        let met : b.read_index ≡ b.write_index =
          omega (arith, valid.read_fits, valid.write_fits, none_wait) in
        inl (rw met (ground arith), rw none_wait refl)
    | inr (n, more) ↦
        let apart : b.read_index ≢ b.write_index = omega (arith, more) in
        let fewer : distance b.write_index (u32 (b.read_index + 1)) ≡ n =
          omega (arith, valid.read_fits, valid.write_fits, more) in
        inr (
          b.blocks (b.read_index % slots),
          ground (arith, apart),
          rw (more, fewer) refl,
          record {
            read_fits = omega arith;
            write_fits = valid.write_fits;
            bounded = omega (arith, fewer, more, valid.bounded);
          },
        )
  ]

  -- On a valid ring, the result is the count of overruns, which starts again at 0; if it is not 0
  -- the queue is empty afterwards, and if it is 0 the queue is as it was. The ring stays valid.
  pub discard_overrun_lem :
      (b : Buffer Sample Position)
      → IsValid b
      → let (lost, next) = discard_overrun b in
        IsValid next
        × (lost ≡ b.overruns)
        × (next.overruns ≡ 0)
        × (((lost ≡ 0) × (contents next ≡ contents b)) ⊎ ((lost ≢ 0) × (contents next ≡ [])))
  unfolding discard_overrun contents
  discard_overrun_lem b valid = elim (Bool-cases (b.overruns != 0)) [
    | inl lost ↦
        let some_lost : b.overruns ≢ 0 = ground (arith, lost) in
        rw lost (empty_valid, refl, refl, inr (some_lost, rw met refl))
    | inr none_lost ↦
        let same : b.overruns ≡ 0 = ground (arith, none_lost) in
        rw none_lost (same_valid, refl, refl, inl (same, refl))
  ]
    where
      met : distance b.write_index b.write_index ≡ 0
      met = omega arith

      same_valid : IsValid (record b { overruns = 0 })
      same_valid = record {
        read_fits = valid.read_fits;
        write_fits = valid.write_fits;
        bounded = valid.bounded;
      }

      empty_valid : IsValid (record b { overruns = 0; read_index = b.write_index })
      empty_valid = record {
        read_fits = valid.write_fits;
        write_fits = valid.write_fits;
        bounded = omega (arith, met);
      }
