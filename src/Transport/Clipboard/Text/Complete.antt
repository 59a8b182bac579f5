-- ===== src/Transport/Clipboard/Text/Complete.antt =====
-- `valid_text` accepts all UTF-8 without 0, and answers on every text.
use plank.Common.{
  ℕ, zero, suc, ◌+◌, ◌/◌, ◌≤◌, ◌<◌, ◌≡◌, ◌≢◌, ◌↔◌, refl, sym, ◌∙◌, arith, Bool, true, false, not,
  ◌||◌, Option, none, some, List, [], ◌∷◌, ◌++◌, length, All, ltb, ◌==◌, if◌then◌else◌,
  length-append, length-drop, drop, get_or,
}
use native.Mathlib.Decide.{dec_lt}
use plank.Common.Bits.{IsByte}
use plank.Transport.Clipboard.Text.{extra_bytes, bad_second, continues, valid_loop, valid_text}
use plank.Transport.Clipboard.Text.Utf8.{
  IsScalar, extra_two, extra_three, extra_four, continues_tail, utf8_two, utf8_three, utf8_four,
  second_good, utf8, utf8_text, tail_byte,
}
use plank.Transport.Clipboard.{text_limit}
use plank.Transport.Clipboard.Text.Sound.{loop_sound}

utf8_pos : (v : ℕ) → 0 < length (utf8 v)
utf8_pos v = ground arith

-- The tests of a round hold of a lead byte and the bytes that it asks for.
accepted :
    (fuel c extra : ℕ) (rest : List ℕ)
    → 0x80 ≤ c
    → extra_bytes c ≡ suc extra
    → suc extra ≤ length rest
    → bad_second c (get_or rest 0 0) ≡ false
    → continues (suc extra) rest ≡ true
    → valid_loop (suc fuel) (c ∷ rest) ≡ valid_loop fuel (drop (suc extra) rest)
unfolding valid_loop
accepted fuel c extra rest high count enough second tails = ground arith

module _ (fuel v : ℕ) (t : List ℕ) where
  ascii_complete : 0 < v → v < 0x80 → valid_loop (suc fuel) (utf8 v ++ t) ≡ valid_loop fuel t
  unfolding valid_loop
  ascii_complete pos h = ground arith

  two_complete : 0x80 ≤ v → v < 0x800 → valid_loop (suc fuel) (utf8 v ++ t) ≡ valid_loop fuel t
  two_complete lo hi =
      let c : ℕ = 0xc0 + v / 64 in
      rw (utf8_two v lo hi) (
        accepted fuel c 0 (tail_byte v ∷ t) (omega arith) (extra_two c (omega arith) (omega arith))
          (omega arith)
          (second_good c (tail_byte v) (omega arith) (omega arith) (omega arith) (omega arith))
          (continues_tail 0 (tail_byte v) t (omega arith) ∙ unfold continues in refl))

  three_complete :
      IsScalar v
      → 0x800 ≤ v
      → v < 0x1_0000
      → valid_loop (suc fuel) (utf8 v ++ t) ≡ valid_loop fuel t
  three_complete scalar lo hi =
      let c : ℕ = 0xe0 + v / 4096 in
      let d : ℕ = tail_byte (v / 64) in
      let f : ℕ = tail_byte v in
      rw (utf8_three v lo hi) (
        accepted fuel c 1 (d ∷ f ∷ t) (omega arith) (extra_three c (omega arith) (omega arith))
          (omega arith)
          (second_good c d (omega arith) (omega (arith, scalar.no_surrogate)) (omega arith)
            (omega arith))
          (continues_tail 1 d (f ∷ t) (omega arith)
            ∙ continues_tail 0 f t (omega arith)
            ∙ unfold continues in refl))

  four_complete :
      IsScalar v → 0x1_0000 ≤ v → valid_loop (suc fuel) (utf8 v ++ t) ≡ valid_loop fuel t
  four_complete scalar lo =
      let top : v < 0x11_0000 = scalar.in_range in
      let c : ℕ = 0xf0 + v / 262144 in
      let d : ℕ = tail_byte (v / 4096) in
      let f : ℕ = tail_byte (v / 64) in
      let g : ℕ = tail_byte v in
      rw (utf8_four v lo) (
        accepted fuel c 2 (d ∷ f ∷ g ∷ t) (omega arith) (extra_four c (omega arith) (omega arith))
          (omega arith) (second_good c d (omega arith) (omega arith) (omega arith) (omega arith))
          (continues_tail 2 d (f ∷ g ∷ t) (omega arith)
            ∙ continues_tail 1 f (g ∷ t) (omega arith)
            ∙ continues_tail 0 g t (omega arith)
            ∙ unfold continues in refl))

-- A round on the encoding of a scalar goes on behind it.
round_complete :
    (fuel v : ℕ) (t : List ℕ) → IsScalar v → valid_loop (suc fuel) (utf8 v ++ t) ≡ valid_loop fuel t
round_complete fuel v t scalar = elim (dec_lt v 0x80) [
  | yes p ↦ ascii_complete fuel v t scalar.not_zero p
  | no p ↦ elim (dec_lt v 0x800) [
    | yes q ↦ two_complete fuel v t (omega arith) q
    | no q ↦ elim (dec_lt v 0x1_0000) [
      | yes r ↦ three_complete fuel v t scalar (omega arith) r
      | no r ↦ four_complete fuel v t scalar (omega arith)
    ]
  ]
]

loop_complete :
    (fuel : ℕ) (vs : List ℕ)
    → All IsScalar vs
    → length (utf8_text vs) ≤ fuel
    → valid_loop fuel (utf8_text vs) ≡ some true
loop_complete fuel [] scalars enough = unfold valid_loop in refl
loop_complete zero (v ∷ vs) scalars enough =
    absurd (omega (arith, length-append (utf8 v) (utf8_text vs), utf8_pos v))
loop_complete (suc fuel) (v ∷ vs) scalars enough =
    round_complete fuel v (utf8_text vs) scalars.0
    ∙ loop_complete fuel vs scalars.1
        (omega (arith, length-append (utf8 v) (utf8_text vs), utf8_pos v))

if_ne_none : (b : Bool) {x y : Option Bool} → x ≢ none → y ≢ none → (if b then x else y) ≢ none
if_ne_none true hx hy = hx
if_ne_none false hx hy = hy

-- The loop ends before the fuel does.
loop_total : (fuel : ℕ) (p : List ℕ) → length p ≤ fuel → valid_loop fuel p ≢ none
unfolding valid_loop
loop_total fuel [] enough = λ h. cc
loop_total zero (c ∷ t) enough = absurd (omega arith)
loop_total (suc fuel) (c ∷ t) enough =
    let refused : some false ≢ none = λ h. cc in
    let behind : length (drop (extra_bytes c) t) ≤ fuel =
      omega (arith, length-drop (extra_bytes c) t) in
    if_ne_none (c == 0) refused (
      if_ne_none (ltb c 0x80) (loop_total fuel t (omega arith)) (
        if_ne_none (extra_bytes c == 0 || ltb (length t) (extra_bytes c)) refused (
          if_ne_none (bad_second c (get_or t 0 0)) refused (
            if_ne_none (not (continues (extra_bytes c) t)) refused
              (loop_total fuel (drop (extra_bytes c) t) behind)))))

answer :
    (p : List ℕ)
    → 0 < length p
    → length p ≤ text_limit
    → valid_text (some p) (length p) ≡ valid_loop (length p) p
unfolding valid_text
answer p some_bytes short = ground arith

-- On every text of bytes that has at least one byte and is within the limit, the answer is true
-- exactly when the bytes are the UTF-8 encoding of scalar values none of which is 0, and there is
-- an answer.
pub valid_text_lem :
    (p : List ℕ)
    → All IsByte p
    → 0 < length p
    → length p ≤ text_limit
    → ((valid_text (some p) (length p) ≡ some true)
        ↔ ((vs : List ℕ) × All IsScalar vs × (p ≡ utf8_text vs)))
      × (valid_text (some p) (length p) ≢ none)
valid_text_lem p bytes some_bytes short =
    let e = answer p some_bytes short in
    (
      (
        λ h. loop_sound (length p) p bytes (sym e ∙ h),
        λ (vs, scalars, text). e ∙ decoded vs scalars text,
      ),
      λ h. loop_total (length p) p (omega arith) (sym e ∙ h),
    )
  where
    decoded :
        (vs : List ℕ) → All IsScalar vs → p ≡ utf8_text vs → valid_loop (length p) p ≡ some true
    decoded vs scalars text =
        rw text (loop_complete (length (utf8_text vs)) vs scalars (omega arith))
