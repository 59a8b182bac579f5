-- ===== src/Media/CameraPayload/Jpeg/Tests.antt =====
-- Runs of the JPEG parser, and its theorem at a concrete picture.
use plank.Common.{ℕ, ◌≡◌, refl, true, Bool, some, List, [], ◌∷◌, get_or}
use plank.Media.CameraPayload.Jpeg.{
  parse_jpeg, rounds, round, round_segment, past_segment, past_entropy, segment, frame, bad_frame,
  with_ids, frame_ids, bad_component, is_repeated, start_scan, scan_components, find_id, skip_fill,
  skip_entropy, big_endian,
}
use plank.Media.CameraPayload.Jpeg.Frames.{HasFrame}
use plank.Media.CameraPayload.Jpeg.Accepted.{IsEnded, parse_jpeg_lem}

-- A grey picture of 32 by 16: a frame header, a scan header and one entropy byte.
abbrev grey : List ℕ
grey =
    0xff ∷ 0xd8 ∷ 0xff ∷ 0xc0 ∷ 0 ∷ 11 ∷ 8 ∷ 0 ∷ 16 ∷ 0 ∷ 32 ∷ 1 ∷ 1 ∷ 0x11 ∷ 0 ∷ 0xff ∷ 0xda ∷ 0
    ∷ 8 ∷ 1 ∷ 1 ∷ 0 ∷ 0 ∷ 63 ∷ 0 ∷ 0x55 ∷ 0xff ∷ 0xd9 ∷ []

parse_grey : parse_jpeg grey 28 32 16 ≡ some true
unfolding parse_jpeg rounds round round_segment past_segment past_entropy segment frame bad_frame
    with_ids frame_ids bad_component is_repeated start_scan scan_components find_id skip_fill
    skip_entropy big_endian
parse_grey = refl

parse_jpeg_lem_example :
    (b : Bool) × (parse_jpeg grey 28 32 16 ≡ some b)
    × (b ≡ true
        → (get_or grey 0 0 ≡ 0xff)
          × (get_or grey 1 0 ≡ 0xd8)
          × IsEnded grey 28
          × HasFrame grey 28 32 16)
parse_jpeg_lem_example = parse_jpeg_lem grey 28 32 16
