-- ===== src/Audio/MicBuffer/Heard.antt =====
-- A whole read while the producer writes and resets.
use plank.Common.{
  ℕ, zero, suc, ◌+◌, ◌*◌, ◌%◌, ◌≡◌, ◌⊎◌, inl, inr, refl, sym, ap, ◌∙◌, arith, Bool, ltb, ◌==◌, ◌&&◌,
  some, List, [], ◌∷◌, Bool-cases,
}
use plank.Audio.MicBuffer.{frames, Float, Buffer, read_slot, read_from, silences, read}
use plank.Audio.MicBuffer.Concurrent.{Slot, Steps, IsValid, steps-IsValid, untorn}

module _ {Real : Type 0} (content : ℕ → Real × Real) where
  -- The buffer at each load of a reader, and the producer's knowledge of its slots there: between one
  -- load and the next the producer makes any steps, in each of the slots.
  pub record IsHistory (memory : ℕ → Buffer Real) (history : ℕ → ℕ → Slot Real) : Type 0 where
    pub shown : (t k : ℕ) → (memory t).samples k ≡ (history t k).sample
    pub valid : (k : ℕ) → IsValid content (history 0 k)
    pub steps : (t next k : ℕ) → next ≡ t + 1 → Steps content (history t k) (history next k)

module _ {Real : Type 0} (content : ℕ → Real × Real) (silent : Real × Real) where
  -- Each frame from a position on is silent, or what was written at its position.
  abbrev pub IsHeard : ℕ → List (Real × Real) → Type 0
  IsHeard position [] = position ≡ position
  IsHeard position (x ∷ xs) = ((x ≡ silent) ⊎ (x ≡ content position)) × IsHeard (position + 1) xs

  silences-IsHeard : (position n : ℕ) → IsHeard position (silences silent n)
  unfolding silences
  silences-IsHeard position zero = refl
  silences-IsHeard position (suc n) = (inl refl, silences-IsHeard (position + 1) n)

  module _ (memory : ℕ → Buffer Real) (history : ℕ → ℕ → Slot Real)
      (h : IsHistory content memory history) where
    valid_at : (t k : ℕ) → IsValid content (history t k)
    valid_at zero k = h.valid k
    valid_at (suc t) k =
        steps-IsValid content (history t k) (history (suc t) k) (h.steps t (suc t) k (omega arith))
          (valid_at t k)

    slot-IsHeard :
        (position t u v : ℕ)
        → u ≡ t + 1
        → v ≡ u + 1
        → let k = position % frames in
          let x =
            read_slot silent position
              ((memory t).samples k).frame
              ((memory u).samples k).bits
              ((memory v).samples k).frame in
          (x ≡ silent) ⊎ (x ≡ content position)
    unfolding read_slot
    slot-IsHeard position t u v second third =
        let k = position % frames in
        let before = ((memory t).samples k).frame in
        let bits = ((memory u).samples k).bits in
        let after = ((memory v).samples k).frame in
        elim (Bool-cases (before == position + 1 && after == before)) [
          | inl same ↦
              let first : before ≡ position + 1 = ground (arith, same) in
              let last : after ≡ position + 1 = ground (arith, same) in
              let e =
                untorn content position (history t k) (history u k) (history v k) (valid_at t k)
                  (h.steps t u k second) (h.steps u v k third)
                  (sym (ap (λ s. s.frame) (h.shown t k)) ∙ first)
                  (sym (ap (λ s. s.frame) (h.shown v k)) ∙ last) in
              rw same (inr (ap (λ s. s.bits) (h.shown u k) ∙ e))
          | inr differs ↦ rw differs (inl refl)
        ]

    read_from-IsHeard :
        (first frame i n position : ℕ)
        → position ≡ frame + i
        → IsHeard position (read_from silent memory first frame i n)
    unfolding read_from
    read_from-IsHeard first frame i zero position at = refl
    read_from-IsHeard first frame i (suc n) position at =
        let rest = read_from-IsHeard first frame (suc i) n (position + 1) (omega (arith, at)) in
        let one =
          slot-IsHeard (frame + i) (3 * i + 2) (3 * i + 3) (3 * i + 4) (omega arith)
            (omega arith) in
        (
          rw at (elim (Bool-cases (ltb (frame + i) first)) [
            | inl old ↦ rw old (inl refl)
            | inr new ↦ rw new one
          ]),
          rest,
        )

module _ {Real : Type 0} (float : Float Real) (content : ℕ → Real × Real) where
  -- Whatever the producer writes and resets while a reader runs, as long as it writes at increasing
  -- positions: every frame of the read is silent, or what was written at its own position, both
  -- channels of the same write.
  pub read_untorn :
      (memory : ℕ → Buffer Real) (history : ℕ → ℕ → Slot Real) (frame : ℕ) (has_samples : Bool)
      (count : ℕ) (out : List (Real × Real))
      → IsHistory content memory history
      → (read float memory frame has_samples count).1 ≡ some out
      → IsHeard content (float.silence, float.silence) frame out
  unfolding read
  read_untorn memory history frame has_samples count out h e =
      let silent : Real × Real = (float.silence, float.silence) in
      let blank = silences-IsHeard content silent frame count in
      let heard =
        read_from-IsHeard content silent memory history h (memory 1).first_frame frame 0 count frame
          (omega arith) in
      ground (arith, e, blank, heard)
