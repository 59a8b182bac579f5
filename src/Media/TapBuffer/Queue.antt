-- ===== src/Media/TapBuffer/Queue.antt =====
-- What `push` does to the blocks that wait: the ring is a queue of at most 16 blocks.
use plank.Common.{
  ℕ, suc, ◌+◌, ◌*◌, ◌%◌, ◌<◌, ◌≡◌, ◌⊎◌, inl, inr, refl, arith, Bool, true, false, if◌then◌else◌,
  none, some, [], ◌∷◌, ◌++◌, Option-cases,
}
use plank.Common.Bits.{u32}
use plank.Media.TapBuffer.{
  Block, Buffer, Input, slots, update, left_sample, right_sample, copy, fill, store, push,
}
use plank.Media.TapBuffer.Contents.{ring_from, ring_from-write, contents, count, IsValid}
use plank.Media.TapBuffer.Copy.{copy_lem}

module _ {Sample Position : Type 0} (is_finite : Sample → Bool) where
  -- The block holds the input's frames, each of them finite, and its times.
  pub record IsCopyOf (block : Block Sample Position) (input : Input Sample Position)
      (left : ℕ → Sample) : Type 0 where
    pub same_frames : block.frames ≡ input.frames
    pub same_host_time : block.host_time ≡ input.host_time
    pub same_callback_time : block.callback_time ≡ input.callback_time
    pub same_sample_time : block.sample_time ≡ input.sample_time
    pub in_place :
        (j : ℕ)
        → j < input.frames
        → (block.samples (j * 2) ≡ left_sample left input.right j)
          × (block.samples (j * 2 + 1) ≡ right_sample left input.right j)
          × (is_finite (left_sample left input.right j) ≡ true)
          × (is_finite (right_sample left input.right j) ≡ true)

  pub write_next :
      (b : Buffer Sample Position) → IsValid b → b.write_index ≡ u32 (b.read_index + count b)
  write_next b valid = omega (arith, valid.read_fits, valid.write_fits)

  pub store_lem :
      (b : Buffer Sample Position) (input : Input Sample Position) (good : Bool) (out : ℕ → Sample)
      → let (stored, next) = store b input good out in
        (stored ≡ good)
        × (next.read_index ≡ b.read_index)
        × (next.write_index ≡ (if good then u32 (b.write_index + 1) else b.write_index))
        × (next.blocks ≡ update b.blocks (b.write_index % slots) (fill input out))
  unfolding store
  store_lem b input good out = ground arith

  -- What `push` may do, where `left` is no null pointer.
  push_cases :
      (b : Buffer Sample Position) (input : Input Sample Position) (left : ℕ → Sample)
      → input.left ≡ some left
      → let (good, out) =
          copy is_finite left input.right input.frames 0
            (b.blocks (b.write_index % slots)).samples in
        let (taken, next) = push is_finite b input in
        ((taken ≡ false)
          × (next.read_index ≡ b.read_index)
          × (next.write_index ≡ b.write_index)
          × (next.blocks ≡ b.blocks))
        ⊎ ((count b < slots) × (push is_finite b input ≡ store b input good out))
  unfolding push
  push_cases b input left here = ground arith

  push_null :
      (b : Buffer Sample Position) (input : Input Sample Position)
      → input.left ≡ none
      → let (taken, next) = push is_finite b input in
        (taken ≡ false)
        × (next.read_index ≡ b.read_index)
        × (next.write_index ≡ b.write_index)
        × (next.blocks ≡ b.blocks)
  unfolding push
  push_null b input here = ground arith

  pub same_queue :
      (b next : Buffer Sample Position)
      → IsValid b
      → next.read_index ≡ b.read_index
      → next.write_index ≡ b.write_index
      → ring_from (count b) b.read_index next.blocks ≡ ring_from (count b) b.read_index b.blocks
      → IsValid next × (contents next ≡ contents b)
  unfolding contents
  same_queue b next valid r w blocks = (
    record {
      read_fits = omega (arith, valid.read_fits, r);
      write_fits = omega (arith, valid.write_fits, w);
      bounded = rw (r, w) valid.bounded;
    },
    rw (r, w) blocks,
  )

  one_more :
      (b next : Buffer Sample Position) (block : Block Sample Position)
      → IsValid b
      → count b < slots
      → next.read_index ≡ b.read_index
      → next.write_index ≡ u32 (b.write_index + 1)
      → next.blocks ≡ update b.blocks (b.write_index % slots) block
      → IsValid next × (contents next ≡ contents b ++ (block ∷ []))
  unfolding contents
  one_more b next block valid room r w blocks =
      let more : count next ≡ suc (count b) =
        omega (arith, valid.read_fits, valid.write_fits, room, r, w) in
      (
        record {
          read_fits = omega (arith, valid.read_fits, r);
          write_fits = omega (arith, w);
          bounded = omega (arith, more, room);
        },
        rw (more, r, blocks)
            (ring_from-write (count b) b.read_index b.write_index b.blocks block
              (write_next b valid) room).1,
      )

  -- What `push` gives: either it refuses the input and the queue is as it was, or it takes it, and a copy
  -- of the input, every sample of it finite, is behind the blocks that waited.
  abbrev pub IsPush :
      Buffer Sample Position → Input Sample Position → Bool × Buffer Sample Position → Type 0
  IsPush b input (taken, next) =
      ((taken ≡ false) × (contents next ≡ contents b))
      ⊎ ((taken ≡ true)
          × (left : ℕ → Sample) × (block : Block Sample Position) × (input.left ≡ some left)
          × IsCopyOf block input left
          × (contents next ≡ contents b ++ (block ∷ [])))

  store-IsPush :
      (b : Buffer Sample Position) (input : Input Sample Position) (left out : ℕ → Sample)
      (good : Bool)
      → IsValid b
      → count b < slots
      → input.left ≡ some left
      → copy is_finite left input.right input.frames 0 (b.blocks (b.write_index % slots)).samples
        ≡ (good, out)
      → IsValid (store b input good out).1 × IsPush b input (store b input good out)
  unfolding fill
  store-IsPush b input left out false valid room here copied =
      let (taken, r, w, blocks) = store_lem b input false out in
      let stays =
        (ring_from-write (count b) b.read_index b.write_index b.blocks (fill input out)
          (write_next b valid) room).0 in
      let (next_valid, same) =
        same_queue b (store b input false out).1 valid r w (rw blocks stays) in
      (next_valid, inl (taken, same))
  store-IsPush b input left out true valid room here copied =
      let (taken, r, w, blocks) = store_lem b input true out in
      let (next_valid, same) =
        one_more b (store b input true out).1 (fill input out) valid room r w blocks in
      let (below, above) = copy_lem is_finite left input.right input.frames 0 _ out copied in
      (
        next_valid,
        inr (
          taken,
          left,
          fill input out,
          here,
          record {
            same_frames = refl;
            same_host_time = refl;
            same_callback_time = refl;
            same_sample_time = refl;
            in_place = λ j h. above j (omega arith) (omega arith);
          },
          same,
        ),
      )

  -- On a valid ring, `push` leaves the ring valid, and either refuses the input with the queue as
  -- it was, or takes it: then a copy of the input, with its frames and times and every sample
  -- finite, is behind the blocks that waited.
  pub push-IsPush :
      (b : Buffer Sample Position) (input : Input Sample Position)
      → IsValid b
      → IsValid (push is_finite b input).1 × IsPush b input (push is_finite b input)
  push-IsPush b input valid = elim (Option-cases input.left) [
    | inl null ↦
        let (taken, r, w, blocks) = push_null b input null in
        let (next_valid, same) =
          same_queue b (push is_finite b input).1 valid r w (rw blocks refl) in
        (next_valid, inl (taken, same))
    | inr (left, here) ↦ elim (push_cases b input left here) [
      | inl (taken, r, w, blocks) ↦
          let (next_valid, same) =
            same_queue b (push is_finite b input).1 valid r w (rw blocks refl) in
          (next_valid, inl (taken, same))
      | inr (room, stored) ↦ rw stored (store-IsPush b input left _ _ valid room here refl)
    ]
  ]
