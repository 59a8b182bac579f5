-- ===== src/Transport/Input/Tests.antt =====
-- The theorems on input payloads at a concrete event.
use plank.Common.{ℕ, ◌≡◌, arith, List, [], ◌∷◌, length, drop, get_or, replicate}
use plank.Transport.BigEndian.{read_u16}
use plank.Transport.Input.{Pen, pen_size, read_float, encode_pen}
use plank.Transport.Input.Layout.{Fits, encode_pen_lem}

abbrev room : List ℕ
room = replicate 34 0xee

abbrev touch : Pen
touch = record {
  event_type = 1;
  tool_type = 2;
  buttons = 0;
  tilt = 30;
  rotation = 359;
  x = 0x3f00_0000;
  y = 0x3e80_0000;
  pressure_or_distance = 0x3f80_0000;
  contact_area_major = 0;
  contact_area_minor = 0;
}

touch-Fits : Fits touch
touch-Fits = record {
  rotation_fits = omega arith;
  x_fits = omega arith;
  y_fits = omega arith;
  pressure_fits = omega arith;
  major_fits = omega arith;
  minor_fits = omega arith;
}

encode_pen_lem_example :
    let out = encode_pen room touch in
    (get_or out 0 0 ≡ 1)
    × (get_or out 1 0 ≡ 2)
    × (get_or out 2 0 ≡ 0)
    × (get_or out 3 0 ≡ 30)
    × (read_u16 out 4 ≡ 359)
    × (read_u16 out 6 ≡ 0)
    × (read_float out 8 ≡ 0x3f00_0000)
    × (read_float out 12 ≡ 0x3e80_0000)
    × (read_float out 16 ≡ 0x3f80_0000)
    × (read_float out 20 ≡ 0)
    × (read_float out 24 ≡ 0)
    × (drop pen_size out ≡ 0xee ∷ 0xee ∷ [])
    × (length out ≡ 34)
encode_pen_lem_example = encode_pen_lem room touch touch-Fits (omega arith)
