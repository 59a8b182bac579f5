-- ===== src/Audio/MicBuffer/Concurrent.antt =====
-- A reader while the producer writes: its loads fall anywhere between the producer's stores.
use plank.Common.{
  ℕ, ◌+◌, ◌≤◌, ◌<◌, ◌≡◌, ◌≢◌, ◌⊎◌, inl, inr, refl, sym, ap, subst, ◌∙◌, arith, Bool, false, ◌==◌,
}
use plank.Audio.MicBuffer.{Sample, clear_stamp, store_bits, stamp}

-- Where the producer stands in one slot: between its writes, after it has cleared the stamp for a
-- position, or after it has stored the payload.
pub data Phase : Type 0 where
  resting : Phase
  cleared : ℕ → Phase
  stored : ℕ → Phase

-- A slot, and what the producer knows: where it stands, and a bound of the positions it has begun.
pub record Slot (Real : Type 0) : Type 0 where
  pub sample : Sample Real
  pub phase : Phase
  pub bound : ℕ

module _ {Real : Type 0} (content : ℕ → Real × Real) where
  -- A store of the producer: the three of a write, at a position beyond those before, or the one of a
  -- reset. `content` is what is written at each position.
  pub data Step : Slot Real → Slot Real → Type 0 where
    begins :
        (s : Slot Real) (position : ℕ)
        → s.phase ≡ resting
        → s.bound ≤ position
        → Step s (record {
          sample = clear_stamp s.sample;
          phase = cleared position;
          bound = position + 1;
        })
    fills :
        (s : Slot Real) (position : ℕ)
        → s.phase ≡ cleared position
        → Step s
            (record s { sample = store_bits (content position) s.sample; phase = stored position })
    publishes :
        (s : Slot Real) (position : ℕ)
        → s.phase ≡ stored position
        → Step s (record s { sample = stamp position s.sample; phase = resting })
    resets :
        (s : Slot Real) → s.phase ≡ resting → Step s (record s { sample = clear_stamp s.sample })

  pub data Steps : Slot Real → Slot Real → Type 0 where
    here : (s : Slot Real) → Steps s s
    more : (s next last : Slot Real) → Step s next → Steps next last → Steps s last

  -- What holds of the slot at each of the producer's places.
  abbrev IsInPhase : ℕ → Real × Real → ℕ → Phase → Type 0
  IsInPhase frame bits bound resting = (p : ℕ) → frame ≡ p + 1 → (bits ≡ content p) × (p < bound)
  IsInPhase frame bits bound (cleared q) = (frame ≡ 0) × (q < bound)
  IsInPhase frame bits bound (stored q) = (frame ≡ 0) × (q < bound) × (bits ≡ content q)

  abbrev pub IsValid : Slot Real → Type 0
  IsValid s = IsInPhase s.sample.frame s.sample.bits s.bound s.phase

  step-IsValid : (s next : Slot Real) → Step s next → IsValid s → IsValid next
  unfolding clear_stamp store_bits stamp
  step-IsValid s next (begins _ position rests new) v = (refl, omega arith)
  step-IsValid s next (fills _ position e) v =
      let w = subst (IsInPhase s.sample.frame s.sample.bits s.bound) e v in (w.0, w.1, refl)
  step-IsValid s next (publishes _ position e) v =
      let w = subst (IsInPhase s.sample.frame s.sample.bits s.bound) e v in
      λ p same.
        let q : position ≡ p = omega (arith, same) in (w.2 ∙ ap content q, omega (arith, w.1, q))
  step-IsValid s next (resets _ rests) v =
      subst (IsInPhase 0 s.sample.bits s.bound) (sym rests) (λ p same. absurd (omega (arith, same)))

  abbrev is_writing : ℕ → Phase → Bool
  is_writing p resting = false
  is_writing p (cleared q) = q == p
  is_writing p (stored q) = q == p

  -- The slot holds what was written at the position, or it never will again.
  record IsStored (p : ℕ) (s : Slot Real) : Type 0 where
    rests : s.phase ≡ resting
    begun : p < s.bound
    bits : s.sample.bits ≡ content p

  record IsPast (p : ℕ) (s : Slot Real) : Type 0 where
    idle : is_writing p s.phase ≡ false
    begun : p < s.bound
    gone : s.sample.frame ≢ p + 1

  IsStored-Step : (p : ℕ) (s next : Slot Real) → Step s next → IsStored p s → IsPast p next
  unfolding clear_stamp store_bits stamp
  IsStored-Step p s next (begins _ position rests new) h = record {
    idle = ground (arith, h.begun, new);
    begun = omega (arith, h.begun, new);
    gone = omega arith;
  }
  IsStored-Step p s next (fills _ position e) h = absurd (cc (sym e ∙ h.rests))
  IsStored-Step p s next (publishes _ position e) h = absurd (cc (sym e ∙ h.rests))
  IsStored-Step p s next (resets _ rests) h = record {
    idle = rw rests refl;
    begun = h.begun;
    gone = omega arith;
  }

  IsPast-Step : (p : ℕ) (s next : Slot Real) → Step s next → IsPast p s → IsPast p next
  unfolding clear_stamp store_bits stamp
  IsPast-Step p s next (begins _ position rests new) h = record {
    idle = ground (arith, h.begun, new);
    begun = omega (arith, h.begun, new);
    gone = omega arith;
  }
  IsPast-Step p s next (fills _ position e) h = record {
    idle = sym (ap (is_writing p) e) ∙ h.idle;
    begun = h.begun;
    gone = h.gone;
  }
  IsPast-Step p s next (publishes _ position e) h =
      let other : (position == p) ≡ false = sym (ap (is_writing p) e) ∙ h.idle in
      record { idle = refl; begun = h.begun; gone = ground (arith, other) }
  IsPast-Step p s next (resets _ rests) h = record {
    idle = rw rests refl;
    begun = h.begun;
    gone = omega arith;
  }

  IsPast-Steps : (p : ℕ) (s last : Slot Real) → Steps s last → IsPast p s → IsPast p last
  IsPast-Steps p s last (here _) h = h
  IsPast-Steps p s last (more _ next _ one rest) h =
      IsPast-Steps p next last rest (IsPast-Step p s next one h)

  IsStored-Steps :
      (p : ℕ) (s last : Slot Real) → Steps s last → IsStored p s → IsStored p last ⊎ IsPast p last
  IsStored-Steps p s last (here _) h = inl h
  IsStored-Steps p s last (more _ next _ one rest) h =
      inr (IsPast-Steps p next last rest (IsStored-Step p s next one h))

  pub steps-IsValid : (s last : Slot Real) → Steps s last → IsValid s → IsValid last
  steps-IsValid s last (here _) v = v
  steps-IsValid s last (more _ next _ one rest) v =
      steps-IsValid next last rest (step-IsValid s next one v)

  IsValid-IsStored : (p : ℕ) (s : Slot Real) → IsValid s → s.sample.frame ≡ p + 1 → IsStored p s
  IsValid-IsStored p s v e = elim (phase_cases s.phase) [
    | inl rests ↦
        let (b, few) = subst (IsInPhase s.sample.frame s.sample.bits s.bound) rests v p e in
        record { rests = rests; begun = few; bits = b }
    | inr (q, inl cleared_at) ↦
        absurd (
          omega (arith, e, (subst (IsInPhase s.sample.frame s.sample.bits s.bound) cleared_at v).0))
    | inr (q, inr stored_at) ↦
        absurd
          (omega (arith, e, (subst (IsInPhase s.sample.frame s.sample.bits s.bound) stored_at v).0))
  ]
    where
      phase_cases : (ph : Phase) → (ph ≡ resting) ⊎ ((q : ℕ) × ((ph ≡ cleared q) ⊎ (ph ≡ stored q)))
      phase_cases resting = inl refl
      phase_cases (cleared q) = inr (q, inl refl)
      phase_cases (stored q) = inr (q, inr refl)

  -- A reader whose stamps agree has the payload of their position, whatever the producer has done
  -- between the three loads.
  pub untorn :
      (p : ℕ) (s0 s1 s2 : Slot Real)
      → IsValid s0
      → Steps s0 s1
      → Steps s1 s2
      → s0.sample.frame ≡ p + 1
      → s2.sample.frame ≡ p + 1
      → s1.sample.bits ≡ content p
  untorn p s0 s1 s2 v first second before after =
      elim (IsStored-Steps p s0 s1 first (IsValid-IsStored p s0 v before)) [
        | inl h ↦ h.bits
        | inr past ↦ absurd ((IsPast-Steps p s1 s2 second past).gone after)
      ]
