-- ===== src/Media/CameraPayload/Choice.antt =====
-- native-camera-payload.h, the choice between its two parsers, with the null pointers.
mod Tests
use plank.Common.{
  ℕ, ◌-◌, ◌<◌, ◌≤◌, ◌≡◌, ◌⊎◌, inl, inr, refl, ap, arith, Bool, true, false, not, ◌&&◌, ◌==◌, ◌!=◌,
  if◌then◌else◌, Option, none, some, List, [], length, get_or, bit_and, All, Bool-cases,
}
use plank.Transport.Camera.{Header, header_valid, h264, mjpeg, key_frame}
use plank.Media.CameraPayload.{Payload, max_nals, parse_avc}
use plank.Media.CameraPayload.Units.{IsUnit, IsWhole}
use plank.Media.CameraPayload.Bounds.{parse_avc_lem}
use plank.Media.CameraPayload.Jpeg.{parse_jpeg}
use plank.Media.CameraPayload.Jpeg.Frames.{HasFrame}
use plank.Media.CameraPayload.Jpeg.Accepted.{IsEnded, parse_jpeg_lem}

abbrev pub cleared : Payload
cleared = record { nals = []; count = 0; sps = 0; pps = 0; independent = false }

abbrev pub same : Bool → Bool → Bool
same true b = b
same false b = not b

pub after_jpeg : Option Bool → Option (Bool × Payload)
after_jpeg none = none
after_jpeg (some good) = some (good, record cleared { independent = true })

pub after_avc : Bool → Option (Bool × Payload) → Option (Bool × Payload)
after_avc is_key none = none
after_avc is_key (some (good, found)) = some (good && same found.independent is_key, found)

-- The answer, and what is behind the `result` pointer.
pub parse_payload : Header → Option (List ℕ) → ℕ → Bool → Payload → Option (Bool × Payload)
parse_payload header none size has_result result =
    some (false, if has_result then cleared else result)
parse_payload header (some bytes) size has_result result =
    let jpeg = after_jpeg (parse_jpeg bytes size header.width header.height) in
    let avc = after_avc (bit_and header.flags key_frame != 0) (parse_avc bytes size cleared) in
    if not has_result
    then some (false, result)
    else if not (header_valid header size)
    then some (false, cleared)
    else if header.codec == mjpeg
    then jpeg
    else avc

-- What an accepted payload is, for each of the codecs.
abbrev pub IsJpeg : List ℕ → ℕ → ℕ → Payload → Type 0
IsJpeg bytes width height found =
    (found.independent ≡ true)
    × (found.count ≡ 0)
    × (get_or bytes 0 0 ≡ 0xff)
    × (get_or bytes 1 0 ≡ 0xd8)
    × IsEnded bytes (length bytes)
    × HasFrame bytes (length bytes) width height

abbrev pub IsAvc : List ℕ → Bool → Payload → Type 0
IsAvc bytes is_key found =
    (found.independent ≡ is_key)
    × All (IsUnit bytes (length bytes)) found.nals
    × (length found.nals ≡ found.count)
    × (0 < found.count)
    × (found.count ≤ max_nals)
    × ((found.independent ≡ true) → IsWhole found)

IsJpeg-case :
    (bytes : List ℕ) (width height : ℕ)
    → (good : Bool) × (found : Payload) × (after_jpeg (parse_jpeg bytes (length bytes) width height)
        ≡ some (good, found))
      × (good ≡ true → IsJpeg bytes width height found)
unfolding after_jpeg
IsJpeg-case bytes width height =
    let (good, e, h) = parse_jpeg_lem bytes (length bytes) width height in
    (
      good,
      record cleared { independent = true },
      ap after_jpeg e,
      λ yes.
          let (first, second, ended, framed) = h yes in (refl, refl, first, second, ended, framed),
    )

same_lem : (a b : Bool) → same a b ≡ true → a ≡ b
same_lem true true e = refl
same_lem true false e = absurd (cc e)
same_lem false true e = absurd (cc e)
same_lem false false e = refl

both : (a b : Bool) → (a && b) ≡ true → (a ≡ true) × (b ≡ true)
both a b e = ground arith

IsAvc-case :
    (bytes : List ℕ) (is_key : Bool)
    → (good : Bool) × (found : Payload) × (after_avc is_key (parse_avc bytes (length bytes) cleared)
        ≡ some (good, found))
      × (good ≡ true → IsAvc bytes is_key found)
unfolding after_avc
IsAvc-case bytes is_key =
    let (good, found, e, h) = parse_avc_lem bytes cleared refl refl refl in
    (
      good && same found.independent is_key,
      found,
      ap (after_avc is_key) e,
      λ yes.
          let (well, matches) = both good (same found.independent is_key) yes in
          let (inside, counted, several, few, sets) = h well in
          (same_lem found.independent is_key matches, inside, counted, several, few, sets),
    )

other_codec :
    (header : Header) (size : ℕ)
    → header_valid header size ≡ true
    → (header.codec == mjpeg) ≡ false
    → header.codec ≡ h264
unfolding header_valid
other_codec header size valid other = ground (arith, valid, other)

-- With a result pointer, the parser gives an answer on every payload, and what it accepts has a valid
-- header. Where the header's codec is MJPEG, it is a JPEG picture, from FF D8 to FF D9, with a frame
-- header of the header's width and height behind its marker. Otherwise the codec is H.264, and it is a
-- picture whose units, from 1 to 64, lie inside the bytes and have the types that their first bytes say,
-- that is independent exactly where the header has the key flag, and that then has a unit of type 5 and
-- both parameter sets.
pub parse_payload_lem :
    (header : Header) (bytes : List ℕ) (result : Payload)
    → (good : Bool) × (found : Payload) × (parse_payload header
          (some bytes)
          (length bytes)
          true
          result
        ≡ some (good, found))
      × (good ≡ true
          → (header_valid header (length bytes) ≡ true)
            × (((header.codec ≡ mjpeg) × IsJpeg bytes header.width header.height found)
                ⊎ ((header.codec ≡ h264)
                    × IsAvc bytes (bit_and header.flags key_frame != 0) found)))
unfolding parse_payload
parse_payload_lem header bytes result = elim (Bool-cases (header_valid header (length bytes))) [
  | inr bad ↦ rw bad (false, cleared, refl, λ e. absurd (cc e))
  | inl valid ↦ elim (Bool-cases (header.codec == mjpeg)) [
    | inl jpeg ↦
        let (good, found, e, h) = IsJpeg-case bytes header.width header.height in
        let codec : header.codec ≡ mjpeg = ground (arith, jpeg) in
        rw (valid, jpeg) (good, found, e, λ yes. (refl, inl (codec, h yes)))
    | inr avc ↦
        let (good, found, e, h) = IsAvc-case bytes (bit_and header.flags key_frame != 0) in
        let codec = other_codec header (length bytes) valid avc in
        rw (valid, avc) (good, found, e, λ yes. (refl, inr (codec, h yes)))
  ]
]
