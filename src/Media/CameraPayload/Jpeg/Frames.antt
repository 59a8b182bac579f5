-- ===== src/Media/CameraPayload/Jpeg/Frames.antt =====
-- What the segments of a JPEG picture leave: the frame header that has been seen.
use plank.Common.{
  ℕ, zero, suc, ◌+◌, ◌-◌, ◌*◌, ◌≤◌, ◌≡◌, ◌≢◌, ◌⊎◌, inl, inr, refl, sym, ap, ◌∙◌, arith, true, false,
  ◌&&◌, ltb, ◌==◌, Option, none, some, List, get_or, Bool-cases,
}
use plank.Media.CameraPayload.Jpeg.{
  State, big_endian, skip_fill, skip_entropy, frame_ids, bad_frame, with_ids, frame, start_scan,
  segment,
}

-- A frame header stands behind its marker, FF C0, whose second byte is at a place: the length of the
-- segment, which lies inside the bytes and is what its components take, then 8 bits, the height and the
-- width, and one component or three.
pub record IsFrameAt (bytes : List ℕ) (size width height at : ℕ) : Type 0 where
  pub behind : 1 ≤ at
  pub prefix : get_or bytes (at - 1) 0 ≡ 0xff
  pub marker : get_or bytes at 0 ≡ 0xc0
  pub inside : at + 1 + big_endian bytes (at + 1) ≤ size
  pub sized : big_endian bytes (at + 1) ≡ 8 + 3 * get_or bytes (at + 8) 0
  pub bits : get_or bytes (at + 3) 0 ≡ 8
  pub has_height : big_endian bytes (at + 4) ≡ height
  pub has_width : big_endian bytes (at + 6) ≡ width
  pub components : (get_or bytes (at + 8) 0 ≡ 1) ⊎ (get_or bytes (at + 8) 0 ≡ 3)

abbrev pub HasFrame : List ℕ → ℕ → ℕ → ℕ → Type 0
HasFrame bytes size width height = (at : ℕ) × IsFrameAt bytes size width height at

pub skip_fill_lem :
    (bytes : List ℕ) (size rest at : ℕ)
    → (at ≤ skip_fill bytes size rest at) × (skip_fill bytes size rest at ≤ at + rest)
unfolding skip_fill
skip_fill_lem bytes size zero at = omega arith
skip_fill_lem bytes size (suc rest) at =
    let more = skip_fill_lem bytes size rest (at + 1) in ground (arith, more)

pub skip_entropy_lem :
    (bytes : List ℕ) (size rest at next : ℕ)
    → skip_entropy bytes size rest at ≡ some next
    → at ≤ size
    → (at ≤ next) × (next ≤ size)
unfolding skip_entropy
skip_entropy_lem bytes size zero at next e inside = ground (arith, e)
skip_entropy_lem bytes size (suc rest) at next e inside =
    let one = skip_entropy_lem bytes size rest (at + 1) next in
    let two = skip_entropy_lem bytes size rest (at + 2) next in ground (arith, e, one, two)

-- The byte in front of the place where the loop over the fill bytes ends is FF, like the first.
pub skip_fill_prefix :
    (bytes : List ℕ) (size rest at : ℕ)
    → get_or bytes at 0 ≡ 0xff
    → get_or bytes (skip_fill bytes size rest (at + 1) - 1) 0 ≡ 0xff
unfolding skip_fill
skip_fill_prefix bytes size zero at first = ap (λ k. get_or bytes k 0) (omega arith) ∙ first
skip_fill_prefix bytes size (suc rest) at first =
    elim (Bool-cases (ltb (at + 1) size && get_or bytes (at + 1) 0 == 0xff)) [
      | inr ends ↦ rw ends (ap (λ k. get_or bytes k 0) (omega arith) ∙ first)
      | inl fill ↦ rw fill (skip_fill_prefix bytes size rest (at + 1) (ground (arith, fill)))
    ]

-- A segment behind its marker, FF and the byte at a place, which its length and its payload follow.
pub record IsSegment (bytes : List ℕ) (size at body payload marker : ℕ) : Type 0 where
  pub behind : 1 ≤ at
  pub prefix : get_or bytes (at - 1) 0 ≡ 0xff
  pub is_marker : get_or bytes at 0 ≡ marker
  pub place : body ≡ at + 3
  pub long : big_endian bytes (at + 1) ≡ payload + 2
  pub room : body + payload ≤ size

-- A frame has been seen where there are components, and a scan has components.
abbrev pub HasSeen : List ℕ → ℕ → ℕ → ℕ → State → Type 0
HasSeen bytes size width height s =
    (s.components ≢ 0 → HasFrame bytes size width height) × (s.scan ≡ true → s.components ≢ 0)

with_ids_lem :
    (s next : State) (components : ℕ) (o : Option (ℕ → ℕ))
    → with_ids s components o ≡ some next
    → (next.components ≡ components) × (next.scan ≡ s.scan)
unfolding with_ids
with_ids_lem s next components none e = absurd (cc e)
with_ids_lem s next components (some ids) e = ground (arith, e)

bad_frame_lem :
    (bytes : List ℕ) (size at body payload width height : ℕ) (s : State)
    → IsSegment bytes size at body payload 0xc0
    → bad_frame bytes body payload width height s ≡ false
    → (s.components ≡ 0) × IsFrameAt bytes size width height at
unfolding bad_frame
bad_frame_lem bytes size at body payload width height s g good =
    let byte : (k : ℕ) → get_or bytes (at + (3 + k)) 0 ≡ get_or bytes (body + k) 0 =
      λ k. ap (λ p. get_or bytes p 0) (omega (arith, g.place)) in
    let pair : (k : ℕ) → big_endian bytes (at + (3 + k)) ≡ big_endian bytes (body + k) =
      λ k. ap (big_endian bytes) (omega (arith, g.place)) in
    let first : get_or bytes (at + 3) 0 ≡ get_or bytes body 0 =
      ap (λ p. get_or bytes p 0) (sym g.place) in
    let count : get_or bytes (at + 8) 0 ≡ get_or bytes (body + 5) 0 = byte 5 in
    let payload_is : payload ≡ 6 + 3 * get_or bytes (body + 5) 0 = ground (arith, good) in
    let three : (get_or bytes (body + 5) 0 ≡ 1) ⊎ (get_or bytes (body + 5) 0 ≡ 3) =
      ground (arith, good) in
    (
      ground (arith, good),
      record {
        behind = g.behind;
        prefix = g.prefix;
        marker = g.is_marker;
        inside = omega (arith, g.place, g.long, g.room);
        sized = omega (arith, g.long, count, payload_is);
        bits = first ∙ ground (arith, good);
        has_height = pair 1 ∙ ground (arith, good);
        has_width = pair 3 ∙ ground (arith, good);
        components = rw count three;
      },
    )

frame_lem :
    (bytes : List ℕ) (size at body payload width height : ℕ) (s next : State)
    → IsSegment bytes size at body payload 0xc0
    → HasSeen bytes size width height s
    → frame bytes body payload width height s ≡ some next
    → HasSeen bytes size width height next
unfolding frame
frame_lem bytes size at body payload width height s next g seen e =
    let components = get_or bytes (body + 5) 0 in
    let o = frame_ids bytes body 0 components s.ids in
    elim (Bool-cases (bad_frame bytes body payload width height s)) [
      | inl bad ↦ absurd (ground (arith, bad, e))
      | inr good ↦
          let (nothing, header) = bad_frame_lem bytes size at body payload width height s g good in
          let named : with_ids s components o ≡ some next = ground (arith, good, e) in
          let (count, same) = with_ids_lem s next components o named in
          (λ some_of_them. (at, header), λ scans. absurd (seen.1 (sym same ∙ scans) nothing))
    ]

start_scan_lem :
    (bytes : List ℕ) (size body payload width height : ℕ) (s next : State)
    → HasSeen bytes size width height s
    → start_scan bytes body payload s ≡ some next
    → HasSeen bytes size width height next
unfolding start_scan
start_scan_lem bytes size body payload width height s next seen e =
    elim (Bool-cases (s.components == 0)) [
      | inl nothing ↦ absurd (ground (arith, nothing, e))
      | inr several ↦
          let count : s.components ≢ 0 = ground (arith, several) in
          let same : next.components ≡ s.components = ground (arith, e) in
          (λ some_of_them. seen.0 count, λ scans. ground (arith, same, count))
    ]

pub segment_lem :
    (bytes : List ℕ) (size at body payload width height marker : ℕ) (s next : State)
    → IsSegment bytes size at body payload marker
    → HasSeen bytes size width height s
    → segment bytes body payload width height marker s ≡ some next
    → HasSeen bytes size width height next
unfolding segment
segment_lem bytes size at body payload width height marker s next g seen e =
    elim (Bool-cases (marker == 0xc0)) [
      | inl framed ↦
          let first : marker ≡ 0xc0 = ground (arith, framed) in
          let start : IsSegment bytes size at body payload 0xc0 = rw⁻¹ first g in
          frame_lem bytes size at body payload width height s next start seen
            (sym (rw framed refl) ∙ e)
      | inr other ↦ elim (Bool-cases (marker == 0xda)) [
        | inl scanned ↦
            start_scan_lem bytes size body payload width height s next seen
              (sym (rw (other, scanned) refl) ∙ e)
        | inr skipped ↦ let same : s ≡ next = ground (arith, other, skipped, e) in rw⁻¹ same seen
      ]
    ]
