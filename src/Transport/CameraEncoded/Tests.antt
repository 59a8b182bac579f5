-- ===== src/Transport/CameraEncoded/Tests.antt =====
-- Runs of the codec of version 2, and its theorems at concrete records.
use plank.Common.{
  ℕ, ◌+◌, ◌^◌, ◌≡◌, refl, arith, true, false, some, List, [], ◌∷◌, ◌++◌, length, drop, replicate,
}
use plank.Transport.BigEndian.{join_u16, join_u32, read_u16, read_u32}
use plank.Transport.Camera
use plank.Transport.Camera.{header_bytes, h264, join_u64, read_u64}
use plank.Transport.CameraEncoded.{
  Header, zero_header, header_valid, encode, decode, read_header, bad_frame,
}
use plank.Transport.CameraEncoded.RoundTrip.{layout, decode-encode_second}
use plank.Transport.CameraEncoded.Sound.{decode_one_version}

abbrev frame : Header
frame = record {
  generation = 2 ^ 40 + 7;
  sequence = 3;
  capture_time_us = 123456789;
  codec = h264;
  platform = 1;
  encoder = 1;
  source_pixel_format = 1;
  width = 1280;
  height = 720;
  nominal_fps = 30;
  flags = 1;
  primaries = 1;
  transfer = 1;
  matrix = 1;
  range = 1;
}

abbrev room : List ℕ
room = replicate 64 0xee ++ (9 ∷ 8 ∷ 7 ∷ [])

abbrev camera_record : List ℕ
camera_record = layout frame ++ (9 ∷ 8 ∷ 7 ∷ [])

frame_valid : header_valid frame 3 ≡ true
unfolding header_valid
frame_valid = refl

decode_record : decode (some camera_record) 67 (some zero_header) ≡ (true, some frame)
unfolding decode bad_frame read_header header_valid read_u16 read_u32 read_u64 join_u16 join_u32
    join_u64
decode_record = refl

decode-encode_second_example :
    (out : List ℕ) × (encode (some frame) 3 (some room) 67 ≡ some out)
    × (length out ≡ 67)
    × (drop header_bytes out ≡ 9 ∷ 8 ∷ 7 ∷ [])
    × (decode (some out) (length out) (some zero_header) ≡ (true, some frame))
decode-encode_second_example =
    decode-encode_second frame zero_header room (omega arith) (omega arith) frame_valid

decode_one_version_example :
    Camera.decode (some camera_record) 67 (some Camera.zero_header)
    ≡ (false, some Camera.zero_header)
decode_one_version_example =
    decode_one_version camera_record 67 frame zero_header Camera.zero_header decode_record
