-- ===== src/Audio/MicBuffer/Written.antt =====
-- What is written can be read back, where nothing comes between.
use plank.Common.{
  ℕ, zero, suc, ◌+◌, ◌%◌, ◌^◌, ◌≤◌, ◌<◌, ◌≡◌, ◌≢◌, refl, ap, subst, ◌∙◌, arith, true, false, ltb,
  ◌==◌, some, List, [], ◌∷◌, Bool-cases, inl, inr,
}
use plank.Audio.MicBuffer.{
  frames, max_io, Float, Buffer, clear_stamp, store_bits, stamp, at_slot, write_slot, read_slot,
  read_from, clamped, write_from, write, read,
}

module _ {Real : Type 0} where
  write_slot_same :
      (position : ℕ) (bits : Real × Real) (b : Buffer Real)
      → (write_slot position bits b).samples (position % frames)
        ≡ record { frame = position + 1; bits = bits }
  unfolding write_slot at_slot stamp store_bits clear_stamp
  write_slot_same position bits b = ground arith

  write_slot_other :
      (position k : ℕ) (bits : Real × Real) (b : Buffer Real)
      → k ≢ position % frames
      → (write_slot position bits b).samples k ≡ b.samples k
  unfolding write_slot at_slot
  write_slot_other position k bits b other = ground arith

  write_slot_rest :
      (position : ℕ) (bits : Real × Real) (b : Buffer Real)
      → ((write_slot position bits b).generation ≡ b.generation)
        × ((write_slot position bits b).first_frame ≡ b.first_frame)
  unfolding write_slot at_slot
  write_slot_rest position bits b = (refl, refl)

module _ {Real : Type 0} (float : Float Real) where
  write_from_rest :
      (frame : ℕ) (samples : ℕ → Real × Real) (i n : ℕ) (b : Buffer Real)
      → ((write_from float frame samples i n b).generation ≡ b.generation)
        × ((write_from float frame samples i n b).first_frame ≡ b.first_frame)
  unfolding write_from
  write_from_rest frame samples i zero b = (refl, refl)
  write_from_rest frame samples i (suc n) b =
      let bits = clamped float (samples i) in
      let (g, f) = write_from_rest frame samples (suc i) n (write_slot (frame + i) bits b) in
      let (g1, f1) = write_slot_rest (frame + i) bits b in (g ∙ g1, f ∙ f1)

  -- The slots of other positions keep what they have.
  write_from_other :
      (frame : ℕ) (samples : ℕ → Real × Real) (i n j : ℕ) (b : Buffer Real)
      → j < i
      → i + n ≤ j + frames
      → (write_from float frame samples i n b).samples ((frame + j) % frames)
        ≡ b.samples ((frame + j) % frames)
  unfolding write_from
  write_from_other frame samples i zero j b before room = refl
  write_from_other frame samples i (suc n) j b before room =
      let bits = clamped float (samples i) in
      write_from_other frame samples (suc i) n j (write_slot (frame + i) bits b) (omega arith)
        (omega arith)
      ∙ write_slot_other (frame + i) ((frame + j) % frames) bits b (omega arith)

  write_from_at :
      (frame : ℕ) (samples : ℕ → Real × Real) (i n j : ℕ) (b : Buffer Real)
      → i ≤ j
      → j < i + n
      → n ≤ frames
      → (write_from float frame samples i n b).samples ((frame + j) % frames)
        ≡ record { frame = frame + j + 1; bits = clamped float (samples j) }
  unfolding write_from
  write_from_at frame samples i zero j b low high few = absurd (omega arith)
  write_from_at frame samples i (suc n) j b low high few = elim (Bool-cases (j == i)) [
    | inl here ↦
        let e : i ≡ j = ground (arith, here) in
        let bits = clamped float (samples i) in
        let kept =
          write_from_other frame samples (suc i) n i (write_slot (frame + i) bits b) (omega arith)
            (omega arith) in
        subst
          (λ k.
            (write_from float frame samples (suc i) n (write_slot (frame + i) bits b)).samples
              ((frame + k) % frames)
            ≡ record { frame = frame + k + 1; bits = clamped float (samples k) })
          e (kept ∙ write_slot_same (frame + i) bits b)
    | inr later ↦
        write_from_at frame samples (suc i) n j
          (write_slot (frame + i) (clamped float (samples i)) b) (ground (arith, later, low))
          (omega arith) (omega arith)
  ]

  -- The frames from index i on, as they are stored.
  pub clamped_frames : (ℕ → Real × Real) → ℕ → ℕ → List (Real × Real)
  clamped_frames samples i zero = []
  clamped_frames samples i (suc n) = clamped float (samples i) ∷ clamped_frames samples (suc i) n

  read_slot_stamped :
      (silence bits : Real × Real) (position : ℕ)
      → read_slot silence position (position + 1) bits (position + 1) ≡ bits
  unfolding read_slot
  read_slot_stamped silence bits position = ground arith

  read_from_lem :
      (b : Buffer Real) (frame : ℕ) (samples : ℕ → Real × Real) (silence : Real × Real)
      (first i n : ℕ)
      → first ≤ frame
      → ((j : ℕ)
          → i ≤ j
          → j < i + n
          → b.samples ((frame + j) % frames)
            ≡ record { frame = frame + j + 1; bits = clamped float (samples j) })
      → read_from silence (λ t. b) first frame i n ≡ clamped_frames samples i n
  unfolding read_from clamped_frames
  read_from_lem b frame samples silence first i zero old stored = refl
  read_from_lem b frame samples silence first i (suc n) old stored =
      let here = stored i (omega arith) (omega arith) in
      let new : ltb (frame + i) first ≡ false = ground (arith, old) in
      rw (new, here, read_slot_stamped silence (clamped float (samples i)) (frame + i))
        (ap (λ r. clamped float (samples i) ∷ r)
          (read_from_lem b frame samples silence first (suc i) n old
            (λ j low high. stored j (omega arith) (omega arith))))

  write_parts :
      (frame : ℕ) (samples : ℕ → Real × Real) (count : ℕ) (b : Buffer Real)
      → (write float frame (some samples) count b).0 ≡ true
      → (count ≤ max_io)
        × (frame + count < 2 ^ 64)
        × (b.first_frame ≤ frame)
        × ((write float frame (some samples) count b).1 ≡ write_from float frame samples 0 count b)
  unfolding write
  write_parts frame samples count b good = ground arith

  read_parts :
      (b : Buffer Real) (frame count : ℕ)
      → count ≤ max_io
      → frame + count < 2 ^ 64
      → b.generation % 2 ≡ 0
      → read float (λ t. b) frame true count ≡ (
        true,
        some (read_from (float.silence, float.silence) (λ t. b) b.first_frame frame 0 count),
      )
  unfolding read
  read_parts b frame count few room even = ground arith

  -- Where no reset is under way and a write is taken, a read of the same frames that nothing
  -- interrupts gives them all, each clamped.
  pub write-read :
      (frame : ℕ) (samples : ℕ → Real × Real) (count : ℕ) (b : Buffer Real)
      → b.generation % 2 ≡ 0
      → let (taken, next) = write float frame (some samples) count b in
        taken ≡ true
        → read float (λ t. next) frame true count ≡ (true, some (clamped_frames samples 0 count))
  write-read frame samples count b even good =
      let (few, room, old, e) = write_parts frame samples count b good in
      let next = write_from float frame samples 0 count b in
      let (g, f) = write_from_rest frame samples 0 count b in
      let still : next.generation % 2 ≡ 0 = rw g even in
      let from : next.first_frame ≤ frame = rw f old in
      rw e (
        read_parts next frame count few room still
        ∙ ap (λ r. (true, some r))
            (read_from_lem next frame samples (float.silence, float.silence) next.first_frame 0
              count from
              (λ j low high.
                write_from_at frame samples 0 count j b (omega arith) (omega arith) (omega arith))))
