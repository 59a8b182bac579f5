-- ===== src/Media/CameraPayload/Tests.antt =====
-- Runs of the parser, and its theorem at a concrete picture.
use plank.Common.{ℕ, ◌<◌, ◌≤◌, ◌≡◌, refl, true, Bool, some, List, [], ◌∷◌, length, All}
use plank.Media.CameraPayload.{
  Nal, Payload, max_nals, start_code, find_end, trim, add_nal, bad_type, bad_parameters, round,
  rounds, complete, finish, parse_avc,
}
use plank.Media.CameraPayload.Choice.{cleared}
use plank.Media.CameraPayload.Units.{IsUnit, IsWhole}
use plank.Media.CameraPayload.Bounds.{parse_avc_lem}

-- A sequence and a picture parameter set and a picture, each behind a start code.
abbrev picture : List ℕ
picture =
    0 ∷ 0 ∷ 0 ∷ 1 ∷ 0x67 ∷ 0x42 ∷ 0 ∷ 0 ∷ 1 ∷ 0x68 ∷ 0xce ∷ 0 ∷ 0 ∷ 1 ∷ 0x65 ∷ 0x88 ∷ 0x84 ∷ []

abbrev units : List Nal
units =
    record { offset = 4; size = 2; nal_type = 7 }
    ∷ record { offset = 9; size = 2; nal_type = 8 }
    ∷ record { offset = 14; size = 3; nal_type = 5 }
    ∷ []

parse_picture :
    parse_avc picture 17 cleared
    ≡ some (true, record { nals = units; count = 3; sps = 0; pps = 1; independent = true })
unfolding parse_avc finish rounds round start_code find_end trim bad_type bad_parameters add_nal
    complete
parse_picture = refl

parse_avc_lem_example :
    (good : Bool) × (found : Payload) × (parse_avc picture 17 cleared ≡ some (good, found))
    × ((good ≡ true)
        → All (IsUnit picture 17) found.nals
          × (length found.nals ≡ found.count)
          × (0 < found.count)
          × (found.count ≤ max_nals)
          × ((found.independent ≡ true) → IsWhole found))
parse_avc_lem_example = parse_avc_lem picture cleared refl refl refl
