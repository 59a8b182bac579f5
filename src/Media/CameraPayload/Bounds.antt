-- ===== src/Media/CameraPayload/Bounds.antt =====
-- Every unit that the parser finds lies inside the bytes, and the parser always gives an answer.
use plank.Common.{
  ℕ, zero, suc, ◌+◌, ◌-◌, ◌≤◌, ◌<◌, ◌≡◌, ◌≢◌, ◌⊎◌, inl, inr, refl, ap, arith, Bool, true, false,
  ◌&&◌, ltb, some, List, [], ◌∷◌, length, length-append, get_or, bit_and, All, Bool-cases,
}
use plank.Media.CameraPayload.{
  Nal, Payload, State, max_nals, start_code, find_end, trim, add_nal, round, rounds, start,
  complete, finish, parse_avc,
}
use plank.Media.CameraPayload.Units.{
  IsUnit, IsRecorded, HasType, IsWhole, IsRecorded-snoc, HasType-snoc, All-snoc, IsRecorded-at,
}

start_code_lem :
    (bytes : List ℕ) (size at : ℕ)
    → (start_code bytes size at ≡ 0)
      ⊎ ((3 ≤ start_code bytes size at) × (at + start_code bytes size at ≤ size))
unfolding start_code
start_code_lem bytes size at = ground arith

find_end_lem :
    (bytes : List ℕ) (size rest end : ℕ)
    → (end ≤ find_end bytes size rest end) × (find_end bytes size rest end ≤ end + rest)
unfolding find_end
find_end_lem bytes size zero end = omega arith
find_end_lem bytes size (suc rest) end =
    let more = find_end_lem bytes size rest (end + 1) in ground (arith, more)

trim_lem :
    (bytes : List ℕ) (begin more : ℕ)
    → (begin ≤ trim bytes begin more) × (trim bytes begin more ≤ begin + more)
unfolding trim
trim_lem bytes begin zero = omega arith
trim_lem bytes begin (suc more) = let less = trim_lem bytes begin more in ground (arith, less)

-- The units so far are units of the bytes, as many as counted, at most 64; the indices of the parameter
-- sets are those of units of their types, once they are set.
pub record IsValid (bytes : List ℕ) (size : ℕ) (s : State) : Type 0 where
  pub inside : All (IsUnit bytes size) s.result.nals
  pub counted : length s.result.nals ≡ s.result.count
  pub few : s.result.count ≤ max_nals
  pub not_past : s.at ≤ size
  pub has_sps : IsRecorded s.result.nals s.result.count s.result.sps 7
  pub has_pps : IsRecorded s.result.nals s.result.count s.result.pps 8
  pub has_picture : s.result.independent ≡ true → HasType s.result.nals s.result.count 5

round_cases :
    (bytes : List ℕ) (size : ℕ) (s next : State)
    → round bytes size s ≡ (true, next)
    → let prefix = start_code bytes size s.at in
      let begin = s.at + prefix in
      let found = find_end bytes size (size - begin) begin in
      let end = trim bytes begin (found - begin) in
      (prefix ≢ 0)
      × (s.result.count ≢ max_nals)
      × (end ≢ begin)
      × (next
          ≡ add_nal
              (record s { at = found })
              begin
              (end - begin)
              (bit_and (get_or bytes begin 0) 31))
unfolding round
round_cases bytes size s next e = ground arith

-- A round that goes on keeps what is found valid and takes bytes.
round-IsValid :
    (bytes : List ℕ) (size : ℕ) (s next : State)
    → IsValid bytes size s
    → s.at < size
    → round bytes size s ≡ (true, next)
    → IsValid bytes size next × (s.at < next.at)
unfolding add_nal
round-IsValid bytes size s next valid more e =
    let prefix = start_code bytes size s.at in
    let begin = s.at + prefix in
    let found = find_end bytes size (size - begin) begin in
    let end = trim bytes begin (found - begin) in
    let (some_prefix, room, some_bytes, same) = round_cases bytes size s next e in
    let code = start_code_lem bytes size s.at in
    let until = find_end_lem bytes size (size - begin) begin in
    let cut = trim_lem bytes begin (found - begin) in
    let type = bit_and (get_or bytes begin 0) 31 in
    let unit : Nal = record { offset = begin; size = end - begin; nal_type = type } in
    let old = s.result in
    rw same (
      record {
        inside =
            All-snoc bytes size old.nals unit valid.inside
              (omega (arith, some_prefix, some_bytes, code, until, cut), refl);
        counted = omega (arith, valid.counted, length-append old.nals (unit ∷ []));
        few = omega (arith, valid.few, room);
        not_past = omega (arith, some_prefix, code, until);
        has_sps = IsRecorded-snoc old.nals unit old.count old.sps 7 valid.counted valid.has_sps;
        has_pps = IsRecorded-snoc old.nals unit old.count old.pps 8 valid.counted valid.has_pps;
        has_picture =
            HasType-snoc old.nals unit old.count 5 old.independent valid.counted valid.has_picture;
      },
      omega (arith, some_prefix, code, until),
    )

-- With fuel for the bytes that are left there is an answer, and a good answer leaves a valid state.
rounds_lem :
    (fuel : ℕ) (bytes : List ℕ) (size : ℕ) (s : State)
    → IsValid bytes size s
    → size ≤ s.at + fuel
    → (good : Bool) × (last : State) × (rounds fuel bytes size s ≡ some (good, last))
      × ((good ≡ true) → IsValid bytes size last)
unfolding rounds
rounds_lem zero bytes size s valid enough =
    let done : ltb s.at size ≡ false = ground arith in rw done (true, s, refl, λ e. valid)
rounds_lem (suc fuel) bytes size s valid enough = elim (Bool-cases (ltb s.at size)) [
  | inr done ↦ rw done (true, s, refl, λ e. valid)
  | inl left ↦
      let more : s.at < size = ground (arith, left) in
      elim (Bool-cases (round bytes size s).0) [
        | inl good ↦
            let next = (round bytes size s).1 in
            let same : round bytes size s ≡ (true, next) = ap (λ b. (b, next)) good in
            let (v, further) = round-IsValid bytes size s next valid more same in
            rw (left, good) (rounds_lem fuel bytes size next v (omega (arith, further, enough)))
        | inr bad ↦ rw (left, bad) (false, _, refl, λ e. absurd (ground (arith, e)))
      ]
]

complete_lem :
    (s : State)
    → complete s ≡ true
    → (0 < s.result.count)
      × ((s.result.independent ≡ true)
          → (s.result.sps < s.result.count) × (s.result.pps < s.result.count))
unfolding complete
complete_lem s e = ground arith

both : (a b : Bool) → (a && b) ≡ true → (a ≡ true) × (b ≡ true)
both a b e = ground arith

-- The parser gives an answer on every payload. Where it is true, every unit that was found is not empty,
-- lies inside the bytes and has the type that its first byte says, and there are from 1 to 64 of them. A
-- picture that does not depend on others then has a unit of type 5, and the two indices are those of
-- units of type 7 and 8.
pub parse_avc_lem :
    (bytes : List ℕ) (result : Payload)
    → result.nals ≡ []
    → result.count ≡ 0
    → result.independent ≡ false
    → (good : Bool) × (found : Payload) × (parse_avc bytes (length bytes) result
        ≡ some (good, found))
      × ((good ≡ true)
          → All (IsUnit bytes (length bytes)) found.nals
            × (length found.nals ≡ found.count)
            × (0 < found.count)
            × (found.count ≤ max_nals)
            × ((found.independent ≡ true) → IsWhole found))
unfolding parse_avc finish
parse_avc_lem bytes result empty none_yet dependent =
    let (good, last, runs, valid) =
      rounds_lem (length bytes) bytes (length bytes) (start result) begins (omega arith) in
    (
      good && complete last,
      last.result,
      ap finish runs,
      λ e.
          let (well, whole) = both good (complete last) e in
          let v = valid well in
          let (some_units, sets) = complete_lem last whole in
          let p = last.result in
          (
            v.inside,
            v.counted,
            some_units,
            v.few,
            λ alone.
                let (low, small) = sets alone in
                (
                  low,
                  small,
                  IsRecorded-at p.nals p.count p.sps 7 v.few low v.has_sps,
                  IsRecorded-at p.nals p.count p.pps 8 v.few small v.has_pps,
                  v.has_picture alone,
                ),
          ),
    )
  where
    begins : IsValid bytes (length bytes) (start result)
    begins = record {
      inside = rw empty (ground arith);
      counted = rw (empty, none_yet) refl;
      few = omega (arith, none_yet);
      not_past = omega arith;
      has_sps = inl refl;
      has_pps = inl refl;
      has_picture = λ alone. absurd (cc (alone, dependent));
    }
