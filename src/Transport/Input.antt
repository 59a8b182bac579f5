-- ===== src/Transport/Input.antt =====
-- plank_transport_input.h: the payloads of pointer and pen input. A float is its 32 bits, which is all
-- that the header reads and writes of it.
pub mod Layout
mod Tests
use plank.Common.{ℕ, List, [], ◌∷◌, copy_to}
use plank.Transport.BigEndian.{read_u32, write_u16, write_u32}

abbrev pub absolute_mouse_size : ℕ
absolute_mouse_size = 8

abbrev pub pen_size : ℕ
pen_size = 32

pub record Pen : Type 0 where
  pub event_type : ℕ
  pub tool_type : ℕ
  pub buttons : ℕ
  pub tilt : ℕ
  pub rotation : ℕ
  pub x : ℕ
  pub y : ℕ
  pub pressure_or_distance : ℕ
  pub contact_area_major : ℕ
  pub contact_area_minor : ℕ

unfoldable pub write_float : List ℕ → ℕ → ℕ → List ℕ
write_float output at bits = write_u32 output at bits

unfoldable pub read_float : List ℕ → ℕ → ℕ
read_float input at = read_u32 input at

pub encode_absolute_mouse : List ℕ → ℕ → ℕ → ℕ → ℕ → List ℕ
encode_absolute_mouse output x y maximum_x maximum_y =
    let with_x = write_u16 output 0 x in
    let with_y = write_u16 with_x 2 y in
    let with_maximum_x = write_u16 with_y 4 maximum_x in write_u16 with_maximum_x 6 maximum_y

pub encode_pen : List ℕ → Pen → List ℕ
encode_pen output pen =
    let with_event = copy_to output 0 (pen.event_type ∷ []) in
    let with_tool = copy_to with_event 1 (pen.tool_type ∷ []) in
    let with_buttons = copy_to with_tool 2 (pen.buttons ∷ []) in
    let with_tilt = copy_to with_buttons 3 (pen.tilt ∷ []) in
    let with_rotation = write_u16 with_tilt 4 pen.rotation in
    let with_six = copy_to with_rotation 6 (0 ∷ []) in
    let with_seven = copy_to with_six 7 (0 ∷ []) in
    let with_x = write_float with_seven 8 pen.x in
    let with_y = write_float with_x 12 pen.y in
    let with_pressure = write_float with_y 16 pen.pressure_or_distance in
    let with_major = write_float with_pressure 20 pen.contact_area_major in
    let with_minor = write_float with_major 24 pen.contact_area_minor in write_u32 with_minor 28 0
