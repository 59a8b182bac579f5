-- ===== src/Media/CameraPayload/Jpeg.antt =====
-- native-camera-payload.h, its parser of JPEG pictures. A byte is read at an index below the size; the
-- bytes left of a loop that moves on by one at least are its fuel.
pub mod Frames
pub mod Accepted
mod Tests
use plank.Common.{
  ℕ, zero, suc, ◌+◌, ◌-◌, ◌*◌, ◌/◌, ◌%◌, ◌^◌, ◌≤◌, ◌<◌, Bool, true, false, not, ◌||◌, ◌&&◌, ltb,
  leb, ◌==◌, ◌!=◌, if◌then◌else◌, Option, none, some, List, [], ◌∷◌, get_or, bit_and, bit_or,
}

abbrev pub max_markers : ℕ
max_markers = 512

-- What the loop over the markers holds. `ids` is an array of three bytes.
pub record State : Type 0 where
  pub at : ℕ
  pub components : ℕ
  pub ids : ℕ → ℕ
  pub markers : ℕ
  pub scan : Bool

-- Two bytes, the high one first.
pub big_endian : List ℕ → ℕ → ℕ
big_endian bytes at = get_or bytes at 0 * 256 + get_or bytes (at + 1) 0

-- The loop over the fill bytes in front of a marker.
pub skip_fill : List ℕ → ℕ → ℕ → ℕ → ℕ
skip_fill bytes size zero at = at
skip_fill bytes size (suc rest) at =
    let next = skip_fill bytes size rest (at + 1) in
    if ltb at size && get_or bytes at 0 == 0xff then next else at

-- The loop over the entropy bytes: where it ends, or none for a refusal.
pub skip_entropy : List ℕ → ℕ → ℕ → ℕ → Option ℕ
skip_entropy bytes size zero at = some at
skip_entropy bytes size (suc rest) at =
    let one = skip_entropy bytes size rest (at + 1) in
    let two = skip_entropy bytes size rest (at + 2) in
    let second = get_or bytes (at + 1) 0 in
    if not (ltb at size)
    then some at
    else if get_or bytes at 0 != 0xff
    then one
    else if ltb (size - at) 2
    then none
    else if second == 0 || (leb 0xd0 second && leb second 0xd7)
    then two
    else some at

-- The inner loop over the identities before: whether one of the first n is the one.
pub is_repeated : (ℕ → ℕ) → ℕ → ℕ → Bool
is_repeated ids id zero = false
is_repeated ids id (suc n) = let earlier = is_repeated ids id n in ids n == id || earlier

-- Sampling factors from 1 to 4, and a quantization table up to 3.
pub bad_component : List ℕ → ℕ → ℕ → Bool
bad_component bytes body i =
    let sampling = get_or bytes (body + (7 + 3 * i)) 0 in
    sampling / 16 == 0
    || ltb 4 (sampling / 16)
    || sampling % 16 == 0
    || ltb 4 (sampling % 16)
    || ltb 3 (get_or bytes (body + (8 + 3 * i)) 0)

-- The loop over the components of a frame, from index i with n left; none is a refusal.
pub frame_ids : List ℕ → ℕ → ℕ → ℕ → (ℕ → ℕ) → Option (ℕ → ℕ)
frame_ids bytes body i zero ids = some ids
frame_ids bytes body i (suc n) ids =
    let id = get_or bytes (body + (6 + 3 * i)) 0 in
    let now : ℕ → ℕ = λ k. if k == i then id else ids k in
    let rest = frame_ids bytes body (suc i) n now in
    if bad_component bytes body i || is_repeated now id i then none else rest

pub bad_frame : List ℕ → ℕ → ℕ → ℕ → ℕ → State → Bool
bad_frame bytes body payload width height s =
    let components = get_or bytes (body + 5) 0 in
    s.components != 0
    || ltb payload 6
    || get_or bytes body 0 != 8
    || big_endian bytes (body + 1) != height
    || big_endian bytes (body + 3) != width
    || (components != 1 && components != 3)
    || payload != 6 + 3 * components

pub with_ids : State → ℕ → Option (ℕ → ℕ) → Option State
with_ids s components none = none
with_ids s components (some ids) = some (record s { components = components; ids = ids })

-- The marker 0xc0: the state afterwards, or none.
pub frame : List ℕ → ℕ → ℕ → ℕ → ℕ → State → Option State
frame bytes body payload width height s =
    let components = get_or bytes (body + 5) 0 in
    let named = with_ids s components (frame_ids bytes body 0 components s.ids) in
    if bad_frame bytes body payload width height s then none else named

-- The inner loop that looks for a component, from index j with n left.
pub find_id : (ℕ → ℕ) → ℕ → ℕ → ℕ → ℕ → ℕ
find_id ids selector j zero found = found
find_id ids selector j (suc n) found =
    find_id ids selector (suc j) n (if ids j == selector then j else found)

-- The loop over the components of a scan, from index i with n left.
pub scan_components : List ℕ → ℕ → State → ℕ → ℕ → ℕ → Bool
scan_components bytes body s i zero seen = true
scan_components bytes body s i (suc n) seen =
    let selector = get_or bytes (body + (1 + 2 * i)) 0 in
    let tables = get_or bytes (body + (2 + 2 * i)) 0 in
    let found = find_id s.ids selector 0 s.components s.components in
    let rest = scan_components bytes body s (suc i) n (bit_or seen (2 ^ found)) in
    if found == s.components
      || bit_and seen (2 ^ found) != 0
      || ltb 3 (tables / 16)
      || ltb 3 (tables % 16)
    then false
    else rest

-- The marker 0xda.
pub start_scan : List ℕ → ℕ → ℕ → State → Option State
start_scan bytes body payload s =
    let good = scan_components bytes body s 0 s.components 0 in
    if s.components == 0
      || payload != 4 + 2 * s.components
      || get_or bytes body 0 != s.components
      || get_or bytes (body + (payload - 3)) 0 != 0
      || get_or bytes (body + (payload - 2)) 0 != 63
      || get_or bytes (body + (payload - 1)) 0 != 0
    then none
    else if not good
    then none
    else some (record s { scan = true })

-- What the marker's segment does; none is a refusal.
pub segment : List ℕ → ℕ → ℕ → ℕ → ℕ → ℕ → State → Option State
segment bytes body payload width height marker s =
    let framed = frame bytes body payload width height s in
    let scanned = start_scan bytes body payload s in
    if marker == 0xc0
    then framed
    else if marker == 0xda
    then scanned
    else if marker != 0xc4
        && marker != 0xdb
        && marker != 0xdd
        && marker != 0xfe
        && not (leb 0xe0 marker && leb marker 0xef)
    then none
    else some s

-- How a round of the loop ends: with an answer, or with the next state.
pub data Turn : Type 0 where
  answers : Bool → Turn
  goes : State → Turn

-- The end of a round, once the entropy bytes that begin at `at` are passed.
pub past_entropy : State → Option ℕ → Turn
past_entropy s none = answers false
past_entropy s (some at) = if at == s.at then answers false else goes (record s { at = at })

-- The end of a round, behind the segment.
pub past_segment : List ℕ → ℕ → ℕ → Option State → Turn
past_segment bytes size at none = answers false
past_segment bytes size at (some s) =
    let moved = record s { at = at } in
    let entropy = past_entropy moved (skip_entropy bytes size (size - at) at) in
    if s.scan then entropy else goes moved

-- The segment of a marker, whose length stands at `at`.
pub round_segment : List ℕ → ℕ → ℕ → ℕ → ℕ → ℕ → State → Turn
round_segment bytes size width height at marker s =
    let length = big_endian bytes at in
    let next = segment bytes (at + 2) (length - 2) width height marker s in
    let turn = past_segment bytes size (at + length) next in
    if s.scan
      || marker == 0
      || marker == 1
      || (leb 0xd0 marker && leb marker 0xd8)
      || ltb (size - at) 2
    then answers false
    else if ltb length 2 || ltb (size - at) length
    then answers false
    else turn

pub round : List ℕ → ℕ → ℕ → ℕ → State → Turn
round bytes size width height s =
    let filled = skip_fill bytes size (size - (s.at + 1)) (s.at + 1) in
    let marker = get_or bytes filled 0 in
    let next = record s { markers = s.markers + 1 } in
    let turn = round_segment bytes size width height (filled + 1) marker next in
    if ltb max_markers (s.markers + 1) || get_or bytes s.at 0 != 0xff
    then answers false
    else if filled == size
    then answers false
    else if marker == 0xd9
    then answers (s.scan && filled + 1 == size)
    else turn

-- The size is enough fuel; `none` would mean that it was not.
pub rounds : ℕ → List ℕ → ℕ → ℕ → ℕ → State → Option Bool
rounds zero bytes size width height s = if ltb s.at size then none else some false
rounds (suc fuel) bytes size width height s =
    let following : State → Option Bool = λ next. rounds fuel bytes size width height next in
    let turn = round bytes size width height s in
    if not (ltb s.at size)
    then some false
    else elim turn [ answers b ↦ some b | goes next ↦ following next ]

abbrev pub start : State
start = record { at = 2; components = 0; ids = λ k. 0; markers = 0; scan = false }

pub parse_jpeg : List ℕ → ℕ → ℕ → ℕ → Option Bool
parse_jpeg bytes size width height =
    let parsed = rounds size bytes size width height start in
    if ltb size 4 || get_or bytes 0 0 != 0xff || get_or bytes 1 0 != 0xd8
    then some false
    else parsed
