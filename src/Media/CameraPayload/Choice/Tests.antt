-- ===== src/Media/CameraPayload/Choice/Tests.antt =====
-- A run of the choice between the parsers, and its theorem at a payload that is accepted.
use plank.Common.{ℕ, ◌⊎◌, ◌!=◌, bit_and, ◌≡◌, refl, true, Bool, some, List, [], ◌∷◌}
use plank.Transport.Camera.{Header, header_valid, h264, mjpeg, key_frame}
use plank.Media.CameraPayload.{
  Nal, Payload, start_code, find_end, trim, add_nal, bad_type, bad_parameters, round, rounds,
  complete, finish, parse_avc,
}
use plank.Media.CameraPayload.Choice.{
  cleared, after_avc, parse_payload, IsJpeg, IsAvc, parse_payload_lem,
}

-- A sequence and a picture parameter set and a picture, each behind a start code.
abbrev picture : List ℕ
picture =
    0 ∷ 0 ∷ 0 ∷ 1 ∷ 0x67 ∷ 0x42 ∷ 0 ∷ 0 ∷ 1 ∷ 0x68 ∷ 0xce ∷ 0 ∷ 0 ∷ 1 ∷ 0x65 ∷ 0x88 ∷ 0x84 ∷ []

abbrev units : List Nal
units =
    record { offset = 4; size = 2; nal_type = 7 }
    ∷ record { offset = 9; size = 2; nal_type = 8 }
    ∷ record { offset = 14; size = 3; nal_type = 5 }
    ∷ []

abbrev header : Header
header = record {
  generation = 1;
  sequence = 1;
  capture_time_us = 1;
  codec = h264;
  colorspace = 0;
  transfer = 0;
  ycbcr = 0;
  quantization = 0;
  driver_sequence = 0;
  width = 1280;
  height = 720;
  flags = 1;
}

parse_picture_payload :
    parse_payload header (some picture) 17 true cleared
    ≡ some (true, record { nals = units; count = 3; sps = 0; pps = 1; independent = true })
unfolding parse_payload after_avc header_valid parse_avc finish rounds round start_code find_end
    trim bad_type bad_parameters add_nal complete
parse_picture_payload = refl

parse_payload_lem_example :
    (good : Bool) × (found : Payload) × (parse_payload header (some picture) 17 true cleared
      ≡ some (good, found))
    × (good ≡ true
        → (header_valid header 17 ≡ true)
          × (((header.codec ≡ mjpeg) × IsJpeg picture 1280 720 found)
              ⊎ ((header.codec ≡ h264)
                  × IsAvc picture (bit_and header.flags key_frame != 0) found)))
parse_payload_lem_example = parse_payload_lem header picture cleared
