-- ===== src/Media/TapBuffer/Runs.antt =====
-- Every sequence of the operations from a new ring: pushes, pops of a block that was peeked at,
-- discards of an overrun, and stops, in any order.
use plank.Common.{
  ℕ, ◌+◌, ◌≤◌, ◌<◌, ◌≡◌, ◌≢◌, refl, sym, arith, Bool, true, false, Option, none, some, length, zero,
  suc, ◌∙◌, ◌%◌, inl, inr,
}
use plank.Media.TapBuffer.{
  Block, Buffer, Input, slots, max_frames, left_sample, right_sample, copy, init, push, peek, pop,
  discard_overrun,
}
use plank.Media.TapBuffer.Contents.{length-ring_from, contents, count, IsValid}
use plank.Media.TapBuffer.Queue.{push-IsPush, store_lem}
use plank.Media.TapBuffer.Reads.{peek_lem, discard_overrun_lem}

-- One operation of one of the two threads.
pub data Step {Sample Position : Type 0} (is_finite : Sample → Bool)
    : Buffer Sample Position → Buffer Sample Position → Type 0 where
  pushes :
      {b : Buffer Sample Position} (input : Input Sample Position)
      → Step is_finite b (push is_finite b input).1
  pops :
      {b : Buffer Sample Position} (block : Block Sample Position)
      → peek b ≡ some block
      → Step is_finite b (pop b)
  discards : {b : Buffer Sample Position} → Step is_finite b (discard_overrun b).1
  stops : {b : Buffer Sample Position} → Step is_finite b (record b { stopped = true })

pub data Reaches {Sample Position : Type 0} (is_finite : Sample → Bool)
    : Buffer Sample Position → Buffer Sample Position → Type 0 where
  stays : {b : Buffer Sample Position} → Reaches is_finite b b
  then_step :
      {a b c : Buffer Sample Position}
      → Reaches is_finite a b
      → Step is_finite b c
      → Reaches is_finite a c

module _ {Sample : Type 0} (is_finite : Sample → Bool) where
  copy_finite :
      (left : ℕ → Sample) (right : Option (ℕ → Sample)) (rest i : ℕ) (samples : ℕ → Sample)
      → ((j : ℕ)
          → i ≤ j
          → j < i + rest
          → (is_finite (left_sample left right j) ≡ true)
            × (is_finite (right_sample left right j) ≡ true))
      → (copy is_finite left right rest i samples).0 ≡ true
  unfolding copy
  copy_finite left right zero i samples good = refl
  copy_finite left right (suc rest) i samples good =
      let (l, r) = good i (omega arith) (omega arith) in
      rw (l, r)
        (copy_finite left right rest (i + 1) _ (λ j low high. good j (omega arith) (omega arith)))

module _ {Sample Position : Type 0} (is_finite : Sample → Bool) where
  init-IsValid : (blocks : ℕ → Block Sample Position) → IsValid (init blocks)
  unfolding init
  init-IsValid blocks = record {
    read_fits = omega arith;
    write_fits = omega arith;
    bounded = omega arith;
  }

  Step-IsValid : (b c : Buffer Sample Position) → IsValid b → Step is_finite b c → IsValid c
  Step-IsValid b c valid (pushes input) = (push-IsPush is_finite b input valid).0
  Step-IsValid b c valid (pops block shown) = elim (peek_lem b valid) [
    | inl (empty, nothing) ↦ absurd (no_block (sym empty ∙ shown))
    | inr (first, same, front, next_valid) ↦ next_valid
  ]
    where
      no_block : none ≢ some block
      no_block e = ground arith
  Step-IsValid b c valid discards = (discard_overrun_lem b valid).0
  Step-IsValid b c valid stops = record {
    read_fits = valid.read_fits;
    write_fits = valid.write_fits;
    bounded = valid.bounded;
  }

  -- Whatever pushes, pops of a block that was shown, discards and stops run on a new ring, in any
  -- order, the ring is valid and at most 16 blocks wait in it.
  pub Reaches-IsValid :
      (blocks : ℕ → Block Sample Position) (b : Buffer Sample Position)
      → Reaches is_finite (init blocks) b
      → IsValid b × (length (contents b) ≤ slots)
  unfolding contents
  Reaches-IsValid blocks b run =
      let valid = go b run in
      (valid, omega (arith, valid.bounded, length-ring_from (count b) b.read_index b.blocks))
    where
      go : (b : Buffer Sample Position) → Reaches is_finite (init blocks) b → IsValid b
      go b stays = init-IsValid blocks
      go b (then_step {b = before} run step) = Step-IsValid before b (go before run) step

  -- An input is taken where the ring is not stopped, fewer than 16 blocks wait, and the input has a left
  -- channel, a time, and from 1 to 8192 frames, each of them finite.
  pub push_succeeds :
      (b : Buffer Sample Position) (input : Input Sample Position) (left : ℕ → Sample)
      → b.stopped ≡ false
      → count b < slots
      → input.left ≡ some left
      → 0 < input.frames
      → input.frames ≤ max_frames
      → 0 < input.host_time
      → ((j : ℕ)
          → j < input.frames
          → (is_finite (left_sample left input.right j) ≡ true)
            × (is_finite (right_sample left input.right j) ≡ true))
      → (push is_finite b input).0 ≡ true
  unfolding push
  push_succeeds b input left running room here some_frames few timed finite =
      let copied =
        copy_finite is_finite left input.right input.frames 0
          (b.blocks (b.write_index % slots)).samples (λ j low high. finite j (omega arith)) in
      let stored =
        store_lem is_finite b input
          (copy is_finite left input.right input.frames 0
            (b.blocks (b.write_index % slots)).samples).0
          (copy is_finite left input.right input.frames 0
            (b.blocks (b.write_index % slots)).samples).1 in
      ground (arith, copied, stored.0)
