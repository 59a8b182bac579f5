-- ===== src/Media/MicDecoder/Decoded.antt =====
-- What the decoder gives: a whole block of finite samples, the converter's at its end.
use plank.Common.{
  ℕ, zero, suc, ◌+◌, ◌-◌, ◌*◌, ◌≤◌, ◌<◌, ◌≡◌, inl, inr, refl, arith, Bool, true, false, ltb, ◌==◌,
  Option, List, Bool-cases,
}
use plank.Media.MicDecoder.{
  Decoder, Conversion, packet_valid, all_finite, pad_front, bad_conversion, decode,
}

module _ {Real : Type 0} (is_finite : Real → Bool) (silence : Real) where
  all_finite_lem :
      (samples : ℕ → Real) (i n k : ℕ)
      → all_finite is_finite silence samples i n ≡ true
      → i ≤ k
      → k < i + n
      → is_finite (samples k) ≡ true
  unfolding all_finite
  all_finite_lem samples i zero k e low high = absurd (omega arith)
  all_finite_lem samples i (suc n) k e low high = elim (Bool-cases (k == i)) [
    | inl here ↦ let same : k ≡ i = ground (arith, here) in rw same (ground (arith, e))
    | inr later ↦
        all_finite_lem samples (suc i) n k (ground (arith, e)) (ground (arith, later, low))
          (omega arith)
  ]

  pad_front_lem :
      (frames : ℕ) (samples : ℕ → Real) (k : ℕ)
      → frames ≤ 480
      → ((k < (480 - frames) * 2 → pad_front is_finite silence frames samples k ≡ silence))
        × ((k < frames * 2)
            → pad_front is_finite silence frames samples ((480 - frames) * 2 + k) ≡ samples k)
  unfolding pad_front
  pad_front_lem frames samples k few = (
    λ before. ground (arith, before, few),
    λ inside. elim (Bool-cases (ltb frames 480)) [
      | inr whole ↦
          let nothing : (480 - frames) * 2 + k ≡ k = ground (arith, whole) in
          rw (whole, nothing) refl
      | inl short ↦
          let within : ltb ((480 - frames) * 2 + k) 960 ≡ true = ground (arith, inside, few) in
          let behind : ltb ((480 - frames) * 2 + k) ((480 - frames) * 2) ≡ false = ground arith in
          let back : (480 - frames) * 2 + k - (480 - frames) * 2 ≡ k = omega arith in
          rw (short, within, behind, back) refl
    ],
  )

  -- What a successful decode has: a valid packet and a count of frames.
  decode_parts :
      (has_decoder : Bool) (d : Decoder) (bytes : Option (List ℕ)) (size : ℕ) (has_samples : Bool)
      (before : ℕ → Real) (c : Conversion Real)
      → let (good, next, out) =
          decode is_finite silence has_decoder d bytes size has_samples before c in
        good ≡ true
        → (packet_valid bytes size ≡ true)
          × (1 ≤ c.frames)
          × (c.frames ≤ 480)
          × ((d.priming ≡ false) → c.frames ≡ 480)
          × (next ≡ record d { priming = false })
          × (out ≡ pad_front is_finite silence c.frames c.samples)
          × (all_finite is_finite silence (pad_front is_finite silence c.frames c.samples) 0 960
              ≡ true)
  unfolding decode bad_conversion
  decode_parts has_decoder d bytes size has_samples before c e = ground (arith, e)

  -- Where decode is true, the packet is valid and the decoder is no longer priming; every one of the 960
  -- samples is finite; the converter gave from 1 to 480 frames, all 480 unless the decoder was priming,
  -- and they stand at the end, behind silence.
  pub decode_lem :
      (has_decoder : Bool) (d : Decoder) (bytes : Option (List ℕ)) (size : ℕ) (has_samples : Bool)
      (before : ℕ → Real) (c : Conversion Real) (k : ℕ)
      → let (good, next, out) =
          decode is_finite silence has_decoder d bytes size has_samples before c in
        good ≡ true
        → (packet_valid bytes size ≡ true)
          × (next.priming ≡ false)
          × (k < 960 → is_finite (out k) ≡ true)
          × (1 ≤ c.frames)
          × (c.frames ≤ 480)
          × ((d.priming ≡ false) → c.frames ≡ 480)
          × (k < (480 - c.frames) * 2 → out k ≡ silence)
          × (k < c.frames * 2 → out ((480 - c.frames) * 2 + k) ≡ c.samples k)
  decode_lem has_decoder d bytes size has_samples before c k e =
      let (valid, several, few, whole, next, out, finite) =
        decode_parts has_decoder d bytes size has_samples before c e in
      let (front, back) = pad_front_lem c.frames c.samples k few in
      rw (next, out)
        (
          valid,
          refl,
          λ below.
              all_finite_lem (pad_front is_finite silence c.frames c.samples) 0 960 k finite
                (omega arith) (omega (arith, below)),
          several,
          few,
          whole,
          front,
          back,
        )
