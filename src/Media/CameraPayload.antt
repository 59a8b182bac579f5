-- ===== src/Media/CameraPayload.antt =====
-- native-camera-payload.h, its parser of H.264 access units: the NAL units of a picture that came
-- from a device, found before the platform's decoder sees them.
pub mod Units
pub mod Bounds
pub mod Jpeg
pub mod Choice
mod Tests
use plank.Common.{
  ℕ, zero, suc, ◌+◌, ◌-◌, ◌*◌, Bool, true, false, not, ◌||◌, ◌&&◌, ltb, leb, ◌==◌, ◌!=◌,
  if◌then◌else◌, Option, none, some, List, [], ◌∷◌, ◌++◌, get_or, bit_and,
}
use plank.Transport.Camera.{max_frame_bytes}

abbrev pub max_nals : ℕ
max_nals = 64

abbrev pub max_parameter_bytes : ℕ
max_parameter_bytes = 4096

pub record Nal : Type 0 where
  pub offset : ℕ
  pub size : ℕ
  pub nal_type : ℕ

-- `nals` is the part of the array that `count` covers.
pub record Payload : Type 0 where
  pub nals : List Nal
  pub count : ℕ
  pub sps : ℕ
  pub pps : ℕ
  pub independent : Bool

pub start_code : List ℕ → ℕ → ℕ → ℕ
start_code bytes size at =
    if ltb size at || ltb (size - at) 3 || get_or bytes at 0 != 0 || get_or bytes (at + 1) 0 != 0
    then 0
    else if get_or bytes (at + 2) 0 == 1
    then 3
    else if leb 4 (size - at) && get_or bytes (at + 2) 0 == 0 && get_or bytes (at + 3) 0 == 1
    then 4
    else 0

-- The loop that looks for the next start code, on the bytes that are left.
pub find_end : List ℕ → ℕ → ℕ → ℕ → ℕ
find_end bytes size zero end = end
find_end bytes size (suc rest) end =
    let next = find_end bytes size rest (end + 1) in
    if ltb end size && start_code bytes size end == 0 then next else end

-- The loop that drops trailing zeros, on the bytes from `begin`.
pub trim : List ℕ → ℕ → ℕ → ℕ
trim bytes begin zero = begin
trim bytes begin (suc more) =
    let shorter = trim bytes begin more in
    if get_or bytes (begin + more) 0 == 0 then shorter else begin + suc more

-- What the loop over the units holds.
pub record State : Type 0 where
  pub at : ℕ
  pub adapted : ℕ
  pub dependent : Bool
  pub result : Payload

pub bad_type : ℕ → ℕ → Bool
bad_type type length =
    (type != 1 && type != 5 && (ltb type 6 || ltb 12 type))
    || ((type == 1 || type == 5 || type == 7 || type == 8) && ltb length 2)

-- A parameter set comes too late, again, or is too long.
pub bad_parameters : State → ℕ → ℕ → Bool
bad_parameters s type length =
    (type == 7 || type == 8)
    && (s.dependent
        || s.result.independent
        || (if type == 7 then s.result.sps else s.result.pps) != max_nals
        || ltb max_parameter_bytes length)

pub add_nal : State → ℕ → ℕ → ℕ → State
add_nal s begin length type = record {
  at = s.at;
  adapted = s.adapted + 4 + length;
  dependent = s.dependent || type == 1;
  result = record {
    nals = s.result.nals ++ (record { offset = begin; size = length; nal_type = type } ∷ []);
    count = s.result.count + 1;
    sps = if type == 7 then s.result.count else s.result.sps;
    pps = if type == 8 then s.result.count else s.result.pps;
    independent = s.result.independent || type == 5;
  };
}

-- One round of the loop, from the start code that `prefix` bytes make up; false is a refusal.
pub round : List ℕ → ℕ → State → Bool × State
round bytes size s =
    let prefix = start_code bytes size s.at in
    let begin = s.at + prefix in
    let found = find_end bytes size (size - begin) begin in
    let end = trim bytes begin (found - begin) in
    let next = record s { at = found } in
    let type = bit_and (get_or bytes begin 0) 31 in
    let added = add_nal next begin (end - begin) type in
    if prefix == 0 || s.result.count == max_nals
    then (false, s)
    else if end == begin || bit_and (get_or bytes begin 0) 0x80 != 0
    then (false, next)
    else if bad_type type (end - begin) || bad_parameters next type (end - begin)
    then (false, next)
    else if ltb max_frame_bytes added.adapted
    then (false, added)
    else (true, added)

-- Each round moves on by a start code at least, so the size is enough fuel; `none` would mean that it
-- was not.
pub rounds : ℕ → List ℕ → ℕ → State → Option (Bool × State)
rounds zero bytes size s = if ltb s.at size then none else some (true, s)
rounds (suc fuel) bytes size s =
    let (good, next) = round bytes size s in
    let rest = rounds fuel bytes size next in
    if not (ltb s.at size) then some (true, s) else if not good then some (false, next) else rest

abbrev pub start : Payload → State
start result = record {
  at = 0;
  adapted = 0;
  dependent = false;
  result = record result { sps = max_nals; pps = max_nals };
}

-- The last test, on what the loop leaves.
pub complete : State → Bool
complete s =
    s.result.count != 0
    && (s.dependent && not s.result.independent || not s.dependent && s.result.independent)
    && (not s.result.independent
        || (ltb s.result.sps s.result.count && ltb s.result.pps s.result.count))

-- The answer that the end of the loop gives, and the result behind the pointer.
pub finish : Option (Bool × State) → Option (Bool × Payload)
finish none = none
finish (some (good, s)) = some (good && complete s, s.result)

pub parse_avc : List ℕ → ℕ → Payload → Option (Bool × Payload)
parse_avc bytes size result = finish (rounds size bytes size (start result))
