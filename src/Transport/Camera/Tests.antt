-- ===== src/Transport/Camera/Tests.antt =====
-- Runs of the camera codec, and its theorems at concrete records and commands.
use plank.Common.{
  ℕ, ◌+◌, ◌^◌, ◌≡◌, ◌⊎◌, inl, inr, refl, arith, true, false, some, List, [], ◌∷◌, ◌++◌, length,
  take, drop, replicate,
}
use plank.Transport.BigEndian.{join_u16, join_u32, read_u16, read_u32}
use plank.Transport.Control
use plank.Transport.Control.{Packet, Encoded}
use plank.Transport.Camera.{
  Header, Command, Outputs, header_bytes, h264, zero_header, header_valid, encode, decode,
  read_header, bad_frame, join_u64, read_u64, control_decode,
}
use plank.Transport.Camera.RoundTrip.{Fits, layout, decode-encode_first}
use plank.Transport.Camera.Commands.{
  command, command_words, HasNull, IsDecoded, control_decode_across, control_decode_cases,
}

abbrev first_frame : Header
first_frame = record {
  generation = 2 ^ 40 + 7;
  sequence = 3;
  capture_time_us = 123456789;
  codec = h264;
  colorspace = 8;
  transfer = 1;
  ycbcr = 2;
  quantization = 2;
  driver_sequence = 41;
  width = 1280;
  height = 720;
  flags = 1;
}

abbrev room : List ℕ
room = replicate 64 0xee ++ (9 ∷ 8 ∷ 7 ∷ [])

abbrev camera_record : List ℕ
camera_record = layout first_frame ++ (9 ∷ 8 ∷ 7 ∷ [])

fits : Fits first_frame
fits = omega arith

first_frame_valid : header_valid first_frame 3 ≡ true
unfolding header_valid
first_frame_valid = refl

decode_record : decode (some camera_record) 67 (some zero_header) ≡ (true, some first_frame)
unfolding decode bad_frame read_header header_valid read_u16 read_u32 read_u64 join_u16 join_u32
    join_u64
decode_record = refl

-- No payload behind the header.
decode_empty : decode (some (layout first_frame)) 64 (some first_frame) ≡ (false, some zero_header)
unfolding decode bad_frame
decode_empty = refl

decode-encode_first_example :
    (out : List ℕ) × (encode (some first_frame) 3 (some room) 67 ≡ some out)
    × (length out ≡ 67)
    × (drop header_bytes out ≡ 9 ∷ 8 ∷ 7 ∷ [])
    × (decode (some out) (length out) (some zero_header) ≡ (true, some first_frame))
decode-encode_first_example =
    decode-encode_first first_frame zero_header room fits (omega arith) first_frame_valid

abbrev old : Outputs
old = record { generation = 5; value = 6 }

control_decode_across_example :
    (e : Encoded) × (p : Packet) × (Control.encode 11
        (some (command_words 11 9 2))
        3
        (some room)
        67
        true
      ≡ some e)
    × (Control.decode (some (take e.output_size e.output)) e.output_size true ≡ some p)
    × (control_decode (some (command p)) (some old)
        ≡ (true, some (record { generation = 9; value = 2 })))
control_decode_across_example =
    control_decode_across 11 9 2 room old (omega arith) (omega arith)
      (inr (inl (refl, omega arith))) (omega arith)

-- A SET_CAMERA that is too short.
abbrev short_command : Command
short_command = record { packet_type = 10; payload = some (replicate 8 1); payload_size = 8 }

short_refused :
    control_decode (some short_command) (some old)
    ≡ (false, some (record { generation = 0; value = 0 }))
unfolding control_decode
short_refused = refl

-- A SET_CAMERA of generation 9 and state 1.
abbrev set_command : Command
set_command = record {
  packet_type = 10;
  payload = some (replicate 7 0 ++ (9 ∷ 0 ∷ 0 ∷ 0 ∷ 1 ∷ []));
  payload_size = 12;
}

set_accepted :
    control_decode (some set_command) (some old)
    ≡ (true, some (record { generation = 9; value = 1 }))
unfolding control_decode read_u64 join_u64 read_u32 join_u32
set_accepted = refl

control_decode_cases_example :
    let (good, new) = control_decode (some set_command) (some old) in
    (HasNull (some set_command) (some old) × (good ≡ false) × (new ≡ some old))
    ⊎ IsDecoded (some set_command) (some old) good new
control_decode_cases_example = control_decode_cases (some set_command) (some old)
