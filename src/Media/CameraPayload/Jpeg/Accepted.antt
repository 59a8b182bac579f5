-- ===== src/Media/CameraPayload/Jpeg/Accepted.antt =====
-- The parser of JPEG pictures gives an answer on every payload, and what it accepts has its frame.
use plank.Common.{
  ℕ, zero, suc, ◌+◌, ◌-◌, ◌≤◌, ◌<◌, ◌≡◌, ◌≢◌, inl, inr, refl, sym, ap, ◌∙◌, arith, Bool, true,
  false, ◌||◌, ◌&&◌, ltb, leb, ◌==◌, ◌!=◌, if◌then◌else◌, Option, none, some, List, get_or,
  Bool-cases,
}
use plank.Media.CameraPayload.Jpeg.{
  State, big_endian, skip_fill, skip_entropy, segment, Turn, answers, goes, past_entropy,
  past_segment, round_segment, round, rounds, start, parse_jpeg,
}
use plank.Media.CameraPayload.Jpeg.Frames.{
  HasFrame, HasSeen, IsSegment, skip_fill_lem, skip_fill_prefix, skip_entropy_lem, segment_lem,
}

-- The same, and the place is inside the bytes.
abbrev IsValid : List ℕ → ℕ → ℕ → ℕ → State → Type 0
IsValid bytes size width height s =
    (s.at ≤ size)
    × (s.components ≢ 0 → HasFrame bytes size width height)
    × (s.scan ≡ true → s.components ≢ 0)

-- The last two bytes are FF D9.
abbrev pub IsEnded : List ℕ → ℕ → Type 0
IsEnded bytes size = (get_or bytes (size - 1) 0 ≡ 0xd9) × (get_or bytes (size - 2) 0 ≡ 0xff)

-- What a round that began at a place leaves.
abbrev IsTurn : List ℕ → ℕ → ℕ → ℕ → ℕ → Turn → Type 0
IsTurn bytes size width height at (answers b) =
    b ≡ true → HasFrame bytes size width height × IsEnded bytes size
IsTurn bytes size width height at (goes next) =
    IsValid bytes size width height next × (at < next.at)

past_entropy-IsTurn :
    (bytes : List ℕ) (size width height at : ℕ) (s : State) (o : Option ℕ)
    → at < s.at
    → HasSeen bytes size width height s
    → ((next : ℕ) → o ≡ some next → (s.at ≤ next) × (next ≤ size))
    → IsTurn bytes size width height at (past_entropy s o)
unfolding past_entropy
past_entropy-IsTurn bytes size width height at s none moves seen inside = λ e. absurd (cc e)
past_entropy-IsTurn bytes size width height at s (some next) moves seen inside =
    elim (Bool-cases (next == s.at)) [
      | inl empty ↦ rw empty (λ e. absurd (cc e))
      | inr passed ↦
          let (low, high) = inside next refl in
          rw passed ((high, seen.0, seen.1), omega (arith, low, moves))
    ]

past_segment-IsTurn :
    (bytes : List ℕ) (size width height from at : ℕ) (o : Option State)
    → from < at
    → at ≤ size
    → ((next : State) → o ≡ some next → HasSeen bytes size width height next)
    → IsTurn bytes size width height from (past_segment bytes size at o)
unfolding past_segment
past_segment-IsTurn bytes size width height from at none moves inside seen = λ e. absurd (cc e)
past_segment-IsTurn bytes size width height from at (some s) moves inside seen =
    let moved = record s { at = at } in
    let entropy = past_entropy moved (skip_entropy bytes size (size - at) at) in
    let passed =
      past_entropy-IsTurn bytes size width height from moved
        (skip_entropy bytes size (size - at) at) moves (seen s refl)
        (λ next e. skip_entropy_lem bytes size (size - at) at next e inside) in
    either_turn bytes size width height from s.scan entropy (goes moved) passed
      ((inside, (seen s refl).0, (seen s refl).1), moves)
  where
    either_turn :
        (bytes : List ℕ) (size width height from : ℕ) (b : Bool) (x y : Turn)
        → IsTurn bytes size width height from x
        → IsTurn bytes size width height from y
        → IsTurn bytes size width height from (if b then x else y)
    either_turn bytes size width height from true x y hx hy = hx
    either_turn bytes size width height from false x y hx hy = hy

round_segment-IsTurn :
    (bytes : List ℕ) (size width height from at marker : ℕ) (s : State)
    → from < at
    → 1 ≤ at
    → get_or bytes (at - 1) 0 ≡ 0xff
    → get_or bytes at 0 ≡ marker
    → HasSeen bytes size width height s
    → IsTurn bytes size width height from (round_segment bytes size width height (at + 1) marker s)
unfolding round_segment
round_segment-IsTurn bytes size width height from at marker s moves behind prefix is_marker seen =
    let length = big_endian bytes (at + 1) in
    let next = segment bytes (at + 1 + 2) (length - 2) width height marker s in
    elim (Bool-cases (
      s.scan
      || marker == 0
      || marker == 1
      || (leb 0xd0 marker && leb marker 0xd8)
      || ltb (size - (at + 1)) 2)) [
        | inl bad ↦ rw bad (λ e. absurd (cc e))
        | inr fits ↦ elim (Bool-cases (ltb length 2 || ltb (size - (at + 1)) length)) [
          | inl bad ↦ rw (fits, bad) (λ e. absurd (cc e))
          | inr long ↦
              let enough : 2 ≤ length = ground (arith, long) in
              let inside : at + 1 + length ≤ size = ground (arith, long, fits) in
              let placed : IsSegment bytes size at (at + 1 + 2) (length - 2) marker = record {
                behind = behind;
                prefix = prefix;
                is_marker = is_marker;
                place = omega arith;
                long = omega (arith, enough);
                room = omega (arith, inside, enough);
              } in
              rw (fits, long)
                (past_segment-IsTurn bytes size width height from (at + 1 + length) next
                  (omega (arith, moves)) inside
                  (λ after e.
                    segment_lem bytes size at (at + 1 + 2) (length - 2) width height marker s after
                      placed seen e))
        ]
      ]

round-IsTurn :
    (bytes : List ℕ) (size width height : ℕ) (s : State)
    → s.at < size
    → IsValid bytes size width height s
    → IsTurn bytes size width height s.at (round bytes size width height s)
unfolding round
round-IsTurn bytes size width height s more v =
    let filled = skip_fill bytes size (size - (s.at + 1)) (s.at + 1) in
    let fill = skip_fill_lem bytes size (size - (s.at + 1)) (s.at + 1) in
    let next = record s { markers = s.markers + 1 } in
    elim (Bool-cases (ltb 512 (s.markers + 1) || get_or bytes s.at 0 != 0xff)) [
      | inl bad ↦ rw bad (λ e. absurd (cc e))
      | inr first ↦
          let mark : get_or bytes s.at 0 ≡ 0xff = ground (arith, first) in
          let prefix = skip_fill_prefix bytes size (size - (s.at + 1)) s.at mark in
          elim (Bool-cases (filled == size)) [
            | inl bad ↦ rw (first, bad) (λ e. absurd (cc e))
            | inr second ↦ elim (Bool-cases (get_or bytes filled 0 == 0xd9)) [
              | inl ends ↦
                  rw (first, second, ends)
                    (λ e.
                      let scans : s.scan ≡ true = ground (arith, e) in
                      let last : filled ≡ size - 1 = ground (arith, e, more) in
                      let byte : get_or bytes filled 0 ≡ 0xd9 = ground (arith, ends) in
                      (
                        v.1 (v.2 scans),
                        (
                          sym (ap (λ k. get_or bytes k 0) last) ∙ byte,
                          ap (λ k. get_or bytes k 0) (omega (arith, last)) ∙ prefix,
                        ),
                      ))
              | inr goes_on ↦
                  rw (first, second, goes_on)
                    (round_segment-IsTurn bytes size width height s.at filled
                      (get_or bytes filled 0) next (omega (arith, fill)) (omega (arith, fill))
                      prefix refl (v.1, v.2))
            ]
          ]
    ]

-- The answer of the loop, if there is one.
abbrev IsAnswer : List ℕ → ℕ → ℕ → ℕ → Option Bool → Type 0
IsAnswer bytes size width height o =
    (b : Bool) × (o ≡ some b) × (b ≡ true → HasFrame bytes size width height × IsEnded bytes size)

answered :
    (bytes : List ℕ) (size width height at : ℕ) (follow : State → Option Bool)
    → ((next : State)
        → IsValid bytes size width height next
        → at < next.at
        → IsAnswer bytes size width height (follow next))
    → (turn : Turn) → IsTurn bytes size width height at turn
    → IsAnswer bytes size width height (elim turn [ answers b ↦ some b | goes next ↦ follow next ])
answered bytes size width height at follow rest (answers b) h = (b, refl, h)
answered bytes size width height at follow rest (goes next) (valid, moves) = rest next valid moves

rounds-IsAnswer :
    (fuel : ℕ) (bytes : List ℕ) (size width height : ℕ) (s : State)
    → size ≤ s.at + fuel
    → IsValid bytes size width height s
    → IsAnswer bytes size width height (rounds fuel bytes size width height s)
unfolding rounds
rounds-IsAnswer zero bytes size width height s enough v =
    let over : ltb s.at size ≡ false = ground (arith, enough) in
    rw over (false, refl, λ e. absurd (cc e))
rounds-IsAnswer (suc fuel) bytes size width height s enough v = elim (Bool-cases (ltb s.at size)) [
  | inr over ↦ rw over (false, refl, λ e. absurd (cc e))
  | inl more ↦
      let turned = round-IsTurn bytes size width height s (ground (arith, more)) v in
      let follow : State → Option Bool = λ next. rounds fuel bytes size width height next in
      rw more (
        answered bytes size width height s.at follow
          (λ next valid moves.
            rounds-IsAnswer fuel bytes size width height next (omega (arith, moves, enough)) valid)
          (round bytes size width height s) turned)
]

-- The parser gives an answer on every payload. What it accepts begins with FF D8 and ends with FF D9,
-- and in it a frame header stands behind its marker FF C0: with its length, 8 bits, the width and the
-- height, and one component or three.
pub parse_jpeg_lem :
    (bytes : List ℕ) (size width height : ℕ)
    → (b : Bool) × (parse_jpeg bytes size width height ≡ some b)
      × (b ≡ true
          → (get_or bytes 0 0 ≡ 0xff)
            × (get_or bytes 1 0 ≡ 0xd8)
            × IsEnded bytes size
            × HasFrame bytes size width height)
unfolding parse_jpeg
parse_jpeg_lem bytes size width height =
    elim (Bool-cases (ltb size 4 || get_or bytes 0 0 != 0xff || get_or bytes 1 0 != 0xd8)) [
      | inl bad ↦ rw bad (false, refl, λ e. absurd (cc e))
      | inr good ↦
          let room : 2 ≤ size = ground (arith, good) in
          let (b, e, h) =
            rounds-IsAnswer size bytes size width height start (omega arith)
              (room, λ none_yet. absurd (none_yet refl), λ no. absurd (cc no)) in
          let first : get_or bytes 0 0 ≡ 0xff = ground (arith, good) in
          let second : get_or bytes 1 0 ≡ 0xd8 = ground (arith, good) in
          rw good (b, e, λ yes. (first, second, (h yes).1, (h yes).0))
    ]
