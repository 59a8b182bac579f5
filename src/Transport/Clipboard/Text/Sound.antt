-- ===== src/Transport/Clipboard/Text/Sound.antt =====
-- What `valid_text` accepts is UTF-8: an accepting round took the encoding of a scalar value.
use plank.Common.{
  ℕ, zero, suc, ◌+◌, ◌-◌, ◌*◌, ◌/◌, ◌≤◌, ◌<◌, ◌≡◌, ◌≢◌, refl, ap, subst, ◌∙◌, arith, true, false,
  some, List, [], ◌∷◌, ◌++◌, length, All, All-append_right, drop, get_or, inr,
}
use plank.Common.Bits.{IsByte}
use plank.Transport.Clipboard.Text.{extra_bytes, bad_second, continues, valid_loop}
use plank.Transport.Clipboard.Text.Utf8.{
  IsScalar, ascii, two, three, four, stray, lead, extra_two, extra_three, extra_four, continues-suc,
  utf8_two, utf8_three, utf8_four, second_e0, second_ed, second_f0, second_f4, utf8, utf8_text,
  tail_byte,
}

-- A round that accepts: it took the encoding of a scalar, and the next round is on the rest.
record Round (fuel : ℕ) (bytes : List ℕ) : Type 0 where
  scalar : ℕ
  is_scalar : IsScalar scalar
  rest : List ℕ
  split : bytes ≡ utf8 scalar ++ rest
  goes_on : valid_loop fuel rest ≡ some true

-- What the tests of a round on a lead byte of a longer sequence have shown when it accepts.
record Passed (fuel c extra : ℕ) (rest : List ℕ) : Type 0 where
  enough : suc extra ≤ length rest
  second : bad_second c (get_or rest 0 0) ≡ false
  tails : continues (suc extra) rest ≡ true
  goes_on : valid_loop fuel (drop (suc extra) rest) ≡ some true

passed :
    (fuel c extra : ℕ) (rest : List ℕ)
    → 0x80 ≤ c
    → extra_bytes c ≡ suc extra
    → valid_loop (suc fuel) (c ∷ rest) ≡ some true
    → Passed fuel c extra rest
unfolding valid_loop
passed fuel c extra rest high count e = ground arith

module _ (fuel c : ℕ) where
  Round-ascii :
      (t : List ℕ) → c < 0x80 → valid_loop (suc fuel) (c ∷ t) ≡ some true → Round fuel (c ∷ t)
  unfolding valid_loop
  Round-ascii t h e = record {
    scalar = c;
    is_scalar = ground arith;
    rest = t;
    split = ground arith;
    goes_on = ground arith;
  }

  Round-two :
      (d : ℕ) (t : List ℕ)
      → 0xc2 ≤ c
      → c ≤ 0xdf
      → IsByte d
      → Passed fuel c 0 (d ∷ t)
      → Round fuel (c ∷ d ∷ t)
  Round-two d t lo hi byte pass =
      let tail = continues-suc 0 d t byte pass.tails in
      let v : ℕ = (c - 0xc0) * 64 + (d - 0x80) in
      let form = utf8_two v (omega (arith, tail.0)) (omega (arith, tail.0)) in
      let first : 0xc0 + v / 64 ≡ c = omega (arith, tail.0) in
      let second : tail_byte v ≡ d = omega (arith, tail.0) in
      record {
        scalar = v;
        is_scalar = omega (arith, tail.0);
        rest = t;
        split = rw (form, first, second);
        goes_on = pass.goes_on;
      }

  Round-three :
      (d f : ℕ) (t : List ℕ)
      → 0xe0 ≤ c
      → c ≤ 0xef
      → IsByte d
      → IsByte f
      → Passed fuel c 1 (d ∷ f ∷ t)
      → Round fuel (c ∷ d ∷ f ∷ t)
  Round-three d f t lo hi byte byte' pass =
      let tail = continues-suc 1 d (f ∷ t) byte pass.tails in
      let tail' = continues-suc 0 f t byte' tail.1 in
      let v : ℕ = (c - 0xe0) * 4096 + (d - 0x80) * 64 + (f - 0x80) in
      let shortest = second_e0 c d pass.second in
      let plain = second_ed c d pass.second in
      let scalar : IsScalar v = omega (arith, tail.0, tail'.0, shortest, plain) in
      let form =
        utf8_three v (omega (arith, tail.0, tail'.0, shortest)) (omega (arith, tail.0, tail'.0)) in
      let first : 0xe0 + v / 4096 ≡ c = omega (arith, tail.0, tail'.0) in
      let second : tail_byte (v / 64) ≡ d = omega (arith, tail.0, tail'.0) in
      let third : tail_byte v ≡ f = omega (arith, tail.0, tail'.0) in
      record {
        scalar = v;
        is_scalar = scalar;
        rest = t;
        split = rw (form, first, second, third);
        goes_on = pass.goes_on;
      }

  Round-four :
      (d f g : ℕ) (t : List ℕ)
      → 0xf0 ≤ c
      → c ≤ 0xf4
      → IsByte d
      → IsByte f
      → IsByte g
      → Passed fuel c 2 (d ∷ f ∷ g ∷ t)
      → Round fuel (c ∷ d ∷ f ∷ g ∷ t)
  Round-four d f g t lo hi byte byte' byte'' pass =
      let tail = continues-suc 2 d (f ∷ g ∷ t) byte pass.tails in
      let tail' = continues-suc 1 f (g ∷ t) byte' tail.1 in
      let tail'' = continues-suc 0 g t byte'' tail'.1 in
      let v : ℕ = (c - 0xf0) * 262144 + (d - 0x80) * 4096 + (f - 0x80) * 64 + (g - 0x80) in
      let shortest = second_f0 c d pass.second in
      let last = second_f4 c d pass.second in
      let low : 0x1_0000 ≤ v = omega (arith, tail.0, tail'.0, tail''.0, shortest) in
      let high : v < 0x11_0000 = omega (arith, tail.0, tail'.0, tail''.0, last) in
      let form = utf8_four v low in
      let first : 0xf0 + v / 262144 ≡ c = omega (arith, tail.0, tail'.0, tail''.0) in
      let second : tail_byte (v / 4096) ≡ d = omega (arith, tail.0, tail'.0, tail''.0) in
      let third : tail_byte (v / 64) ≡ f = omega (arith, tail.0, tail'.0, tail''.0) in
      let fourth : tail_byte v ≡ g = omega (arith, tail.0, tail'.0, tail''.0) in
      record {
        scalar = v;
        is_scalar = record {
          not_zero = omega arith;
          in_range = high;
          no_surrogate = inr (omega arith);
        };
        rest = t;
        split = rw (form, first, second, third, fourth);
        goes_on = pass.goes_on;
      }

stray_refused :
    (fuel c : ℕ) (t : List ℕ)
    → 0x80 ≤ c
    → extra_bytes c ≡ 0
    → valid_loop (suc fuel) (c ∷ t) ≡ some false
unfolding valid_loop
stray_refused fuel c t high none_follow = ground arith

-- A round that accepts took one scalar.
Round-sound :
    (fuel c : ℕ) (t : List ℕ)
    → All IsByte (c ∷ t)
    → valid_loop (suc fuel) (c ∷ t) ≡ some true
    → Round fuel (c ∷ t)
Round-sound fuel c t bytes e = elim (lead c) [
  | ascii low ↦ Round-ascii fuel c t low e
  | two lo hi ↦ two_of t bytes.1 lo hi (passed fuel c 0 t (omega arith) (extra_two c lo hi) e)
  | three lo hi ↦ three_of t bytes.1 lo hi (passed fuel c 1 t (omega arith) (extra_three c lo hi) e)
  | four lo hi ↦ four_of t bytes.1 lo hi (passed fuel c 2 t (omega arith) (extra_four c lo hi) e)
  | stray high none_follow ↦ cc (e, stray_refused fuel c t high none_follow)
]
  where
    two_of :
        (t : List ℕ) → All IsByte t → 0xc2 ≤ c → c ≤ 0xdf → Passed fuel c 0 t → Round fuel (c ∷ t)
    two_of [] b lo hi pass = absurd (omega (arith, pass.enough))
    two_of (d ∷ t) b lo hi pass = Round-two fuel c d t lo hi b.0 pass

    three_of :
        (t : List ℕ) → All IsByte t → 0xe0 ≤ c → c ≤ 0xef → Passed fuel c 1 t → Round fuel (c ∷ t)
    three_of [] b lo hi pass = absurd (omega (arith, pass.enough))
    three_of (d ∷ []) b lo hi pass = absurd (omega (arith, pass.enough))
    three_of (d ∷ f ∷ t) b lo hi pass = Round-three fuel c d f t lo hi b.0 b.1.0 pass

    four_of :
        (t : List ℕ) → All IsByte t → 0xf0 ≤ c → c ≤ 0xf4 → Passed fuel c 2 t → Round fuel (c ∷ t)
    four_of [] b lo hi pass = absurd (omega (arith, pass.enough))
    four_of (d ∷ []) b lo hi pass = absurd (omega (arith, pass.enough))
    four_of (d ∷ f ∷ []) b lo hi pass = absurd (omega (arith, pass.enough))
    four_of (d ∷ f ∷ g ∷ t) b lo hi pass = Round-four fuel c d f g t lo hi b.0 b.1.0 b.1.1.0 pass

pub loop_sound :
    (fuel : ℕ) (p : List ℕ)
    → All IsByte p
    → valid_loop fuel p ≡ some true
    → (vs : List ℕ) × All IsScalar vs × (p ≡ utf8_text vs)
loop_sound fuel [] bytes e = ([], tt, refl)
loop_sound zero (c ∷ t) bytes e = absurd (out_of_fuel e)
  where
    out_of_fuel : valid_loop 0 (c ∷ t) ≢ some true
    out_of_fuel = unfold valid_loop in λ h. cc
loop_sound (suc fuel) (c ∷ t) bytes e =
    let round = Round-sound fuel c t bytes e in
    let left =
      All-append_right IsByte (utf8 round.scalar) round.rest
        (subst (λ l. All IsByte l) round.split bytes) in
    let (vs, scalars, text) = loop_sound fuel round.rest left round.goes_on in
    (
      round.scalar ∷ vs,
      (round.is_scalar, scalars),
      round.split ∙ ap (λ r. utf8 round.scalar ++ r) text,
    )
