-- ===== src/Probes/Native10.antt =====
-- probes/x11/plank-probe-x11-native10.cpp: the codes of a pixel's channels, and the rows of a frame that
-- are unpacked by one worker or by several. `pixels y x` is the 32-bit word at y * row_pitch + 4 * x. A
-- worker writes rows of its own, so the workers are run one after another.
pub mod Rows
pub mod Expansion
mod Tests
use plank.Common.{
  ℕ, zero, suc, ◌+◌, ◌-◌, ◌*◌, ◌/◌, ◌%◌, ◌^◌, Bool, true, false, ◌||◌, ◌==◌, if◌then◌else◌, bit_and,
  bit_or,
}
use plank.Common.Bits.{u16, u32}

-- channel_t, less its name.
pub record Channel : Type 0 where
  pub mask : ℕ
  pub shift : ℕ
  pub bits : ℕ

-- The loop, which shifts a value other than 0 at most 63 times.
pub count_zeroes : ℕ → ℕ → ℕ
count_zeroes zero value = 0
count_zeroes (suc fuel) value =
    let rest = count_zeroes fuel (value / 2) in if value % 2 == 0 then suc rest else 0

pub trailing_zeroes : ℕ → ℕ
trailing_zeroes value = if value == 0 then 0 else count_zeroes 64 value

-- The loop; a value of 64 bits is 0 after 64 shifts.
pub count_bits : ℕ → ℕ → ℕ
count_bits zero value = 0
count_bits (suc fuel) value =
    let rest = count_bits fuel (value / 2) in if value == 0 then 0 else value % 2 + rest

pub bit_count : ℕ → ℕ
bit_count value = count_bits 64 value

pub make_channel : ℕ → Channel
make_channel mask = record { mask = mask; shift = trailing_zeroes mask; bits = bit_count mask }

pub pack_code : Channel → ℕ → ℕ
pack_code channel code = bit_and (code * 2 ^ channel.shift % 2 ^ 64) channel.mask

pub unpack_code : Channel → ℕ → ℕ
unpack_code channel pixel = u32 (bit_and pixel channel.mask / 2 ^ channel.shift)

-- The loop over the sources, from one on with n left.
pub expands_from : ℕ → ℕ → ℕ → Bool
expands_from value source zero = false
expands_from value source (suc n) =
    let later = expands_from value (suc source) n in
    if bit_or (source * 4) (source / 64) == value then true else later

pub is_eight_to_ten_expansion : ℕ → Bool
is_eight_to_ten_expansion value = expands_from value 0 256

-- The three planes, by the offset of a sample.
pub record Planes : Type 0 where
  pub green : ℕ → ℕ
  pub blue : ℕ → ℕ
  pub red : ℕ → ℕ

-- `red`, `green` and `blue` are the channels 0, 1 and 2.
pub record Channels : Type 0 where
  pub red : Channel
  pub green : Channel
  pub blue : Channel

pub put_pixel : Channels → ℕ → ℕ → Planes → Planes
put_pixel channels offset pixel p =
    let green = p.green in
    let blue = p.blue in
    let red = p.red in
    record {
      green = λ k. if k == offset then u16 (unpack_code channels.green pixel) else green k;
      blue = λ k. if k == offset then u16 (unpack_code channels.blue pixel) else blue k;
      red = λ k. if k == offset then u16 (unpack_code channels.red pixel) else red k;
    }

-- The loop over the columns of a row, from x on with n left.
pub unpack_row : Channels → (ℕ → ℕ) → ℕ → ℕ → ℕ → Planes → Planes
unpack_row channels row offset x zero p = p
unpack_row channels row offset x (suc n) p =
    unpack_row channels row offset (suc x) n (put_pixel channels (offset + x) (row x) p)

-- The loop over the rows, from y on with n left.
pub unpack_rows : Channels → (ℕ → ℕ → ℕ) → ℕ → ℕ → ℕ → Planes → Planes
unpack_rows channels pixels width y zero p = p
unpack_rows channels pixels width y (suc n) p =
    unpack_rows channels pixels width (suc y) n
      (unpack_row channels (pixels y) (y * width) 0 width p)

pub unpack_single : Channels → (ℕ → ℕ → ℕ) → ℕ → ℕ → Planes → Planes
unpack_single channels pixels width height p = unpack_rows channels pixels width 0 height p

-- The loop over the workers, from an index on with n left.
pub unpack_workers : Channels → (ℕ → ℕ → ℕ) → ℕ → ℕ → ℕ → ℕ → ℕ → Planes → Planes
unpack_workers channels pixels width height threads index zero p = p
unpack_workers channels pixels width height threads index (suc n) p =
    let first_row = height * index / threads in
    let end_row = height * (index + 1) / threads in
    unpack_workers channels pixels width height threads (suc index) n
      (unpack_rows channels pixels width first_row (end_row - first_row) p)

pub unpack_parallel : Channels → (ℕ → ℕ → ℕ) → ℕ → ℕ → ℕ → Planes → Planes
unpack_parallel channels pixels width height threads p =
    unpack_workers channels pixels width height threads 0 threads p
