-- ===== src/Transport/Input/Layout.antt =====
-- Where the fields of an input payload stand, and that they are read back.
use plank.Common.{
  ℕ, ◌≤◌, ◌<◌, ◌^◌, ◌≡◌, refl, arith, List, [], ◌∷◌, ◌++◌, length, drop, drop-drop,
  length-overwrite, get_or,
}
use plank.Transport.BigEndian.{read_u16, read_u32, write_u16, write_u32, u16_bytes, u32_bytes}
use plank.Transport.BigEndian.Laws.{join_u16-bytes, join_u32-bytes}
use plank.Transport.Input.{
  Pen, absolute_mouse_size, pen_size, write_float, read_float, encode_absolute_mouse, encode_pen,
}

-- The types of the fields, as bounds.
pub record Fits (pen : Pen) : Type 0 where
  pub rotation_fits : pen.rotation < 2 ^ 16
  pub x_fits : pen.x < 2 ^ 32
  pub y_fits : pen.y < 2 ^ 32
  pub pressure_fits : pen.pressure_or_distance < 2 ^ 32
  pub major_fits : pen.contact_area_major < 2 ^ 32
  pub minor_fits : pen.contact_area_minor < 2 ^ 32

abbrev pub pen_bytes : Pen → List ℕ
pen_bytes pen =
    (pen.event_type ∷ pen.tool_type ∷ pen.buttons ∷ pen.tilt ∷ [])
    ++ u16_bytes pen.rotation
    ++ (0 ∷ 0 ∷ [])
    ++ u32_bytes pen.x
    ++ u32_bytes pen.y
    ++ u32_bytes pen.pressure_or_distance
    ++ u32_bytes pen.contact_area_major
    ++ u32_bytes pen.contact_area_minor
    ++ u32_bytes 0

encode_pen_bytes :
    (output : List ℕ) (pen : Pen) → encode_pen output pen ≡ pen_bytes pen ++ drop pen_size output
unfolding encode_pen write_float write_u16 write_u32
encode_pen_bytes output pen = simp drop-drop

mouse_bytes : ℕ → ℕ → ℕ → ℕ → List ℕ
mouse_bytes x y maximum_x maximum_y =
    u16_bytes x ++ u16_bytes y ++ u16_bytes maximum_x ++ u16_bytes maximum_y

encode_mouse_bytes :
    (output : List ℕ) (x y maximum_x maximum_y : ℕ)
    → encode_absolute_mouse output x y maximum_x maximum_y
      ≡ mouse_bytes x y maximum_x maximum_y ++ drop absolute_mouse_size output
unfolding encode_absolute_mouse mouse_bytes write_u16
encode_mouse_bytes output x y maximum_x maximum_y = simp drop-drop

-- Every field of a pen event is read back where the other end looks for it, the two bytes behind the
-- rotation are 0, and the encoder keeps the length of the output and the bytes behind the payload. The
-- output has room for the payload, and the fields fit their types.
pub encode_pen_lem :
    (output : List ℕ) (pen : Pen)
    → Fits pen
    → pen_size ≤ length output
    → let out = encode_pen output pen in
      (get_or out 0 0 ≡ pen.event_type)
      × (get_or out 1 0 ≡ pen.tool_type)
      × (get_or out 2 0 ≡ pen.buttons)
      × (get_or out 3 0 ≡ pen.tilt)
      × (read_u16 out 4 ≡ pen.rotation)
      × (read_u16 out 6 ≡ 0)
      × (read_float out 8 ≡ pen.x)
      × (read_float out 12 ≡ pen.y)
      × (read_float out 16 ≡ pen.pressure_or_distance)
      × (read_float out 20 ≡ pen.contact_area_major)
      × (read_float out 24 ≡ pen.contact_area_minor)
      × (drop pen_size out ≡ drop pen_size output)
      × (length out ≡ length output)
unfolding read_float read_u16 read_u32
encode_pen_lem output pen f room = rw (encode_pen_bytes output pen) (
  refl,
  refl,
  refl,
  refl,
  join_u16-bytes pen.rotation f.rotation_fits,
  join_u16-bytes 0 (omega arith),
  join_u32-bytes pen.x f.x_fits,
  join_u32-bytes pen.y f.y_fits,
  join_u32-bytes pen.pressure_or_distance f.pressure_fits,
  join_u32-bytes pen.contact_area_major f.major_fits,
  join_u32-bytes pen.contact_area_minor f.minor_fits,
  refl,
  length-overwrite pen_size (pen_bytes pen) output refl room,
)

-- The position and its maximum are read back, and the encoder keeps the length of the output and the
-- bytes behind the payload. The output has room for the payload, and the numbers have 16 bits.
pub encode_absolute_mouse_lem :
    (output : List ℕ) (x y maximum_x maximum_y : ℕ)
    → x < 2 ^ 16
    → y < 2 ^ 16
    → maximum_x < 2 ^ 16
    → maximum_y < 2 ^ 16
    → absolute_mouse_size ≤ length output
    → let out = encode_absolute_mouse output x y maximum_x maximum_y in
      (read_u16 out 0 ≡ x)
      × (read_u16 out 2 ≡ y)
      × (read_u16 out 4 ≡ maximum_x)
      × (read_u16 out 6 ≡ maximum_y)
      × (drop absolute_mouse_size out ≡ drop absolute_mouse_size output)
      × (length out ≡ length output)
unfolding read_u16 mouse_bytes
encode_absolute_mouse_lem output x y maximum_x maximum_y hx hy hmx hmy room =
    rw (encode_mouse_bytes output x y maximum_x maximum_y) (
      join_u16-bytes x hx,
      join_u16-bytes y hy,
      join_u16-bytes maximum_x hmx,
      join_u16-bytes maximum_y hmy,
      refl,
      length-overwrite absolute_mouse_size (mouse_bytes x y maximum_x maximum_y) output refl room,
    )
