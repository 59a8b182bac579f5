-- ===== src/Transport/Clipboard.antt =====
-- plank_clipboard_wire.h: the chunks in which a clipboard text travels. A null pointer is `none`,
-- and so is the result 0.
pub mod LittleEndian
pub mod RoundTrip
pub mod Text
mod Tests
use plank.Common.{
  ℕ, zero, suc, ◌+◌, ◌-◌, ◌*◌, ◌/◌, ◌^◌, Bool, true, false, not, ◌||◌, ◌&&◌, ltb, ◌==◌, ◌!=◌,
  if◌then◌else◌, Option, none, some, List, [], ◌∷◌, get_or, drop, copy_to, bit_and, bit_or,
}
use plank.Common.Bits.{u8, u32, u64}

abbrev pub text_limit : ℕ
text_limit = 512 * 1024

abbrev pub header_bytes : ℕ
header_bytes = 32

abbrev pub first_flag : ℕ
first_flag = 1

abbrev pub last_flag : ℕ
last_flag = 2

-- `bytes` is what the pointer behind the header shows.
pub record Chunk : Type 0 where
  pub generation : ℕ
  pub total : ℕ
  pub offset : ℕ
  pub size : ℕ
  pub flags : ℕ
  pub bytes : List ℕ

-- The loop of `read_le` with the rounds left, the index and the result so far.
pub read_le_loop : List ℕ → ℕ → ℕ → ℕ → ℕ → ℕ
read_le_loop p at zero i result = result
read_le_loop p at (suc left) i result =
    read_le_loop p at left (i + 1) (bit_or result (u64 (get_or p (at + i) 0 * 2 ^ (8 * i))))

-- The `n` bytes from `p + at`.
pub read_le : List ℕ → ℕ → ℕ → ℕ
read_le p at n = read_le_loop p at n 0 0

pub write_le_loop : List ℕ → ℕ → ℕ → ℕ → ℕ → List ℕ
write_le_loop p at value zero i = p
write_le_loop p at value (suc left) i =
    write_le_loop (copy_to p (at + i) (u8 (value / 2 ^ (8 * i)) ∷ [])) at value left (i + 1)

pub write_le : List ℕ → ℕ → ℕ → ℕ → List ℕ
unfolding write_le_loop
write_le p at value n = write_le_loop p at value n 0

bool_differ : Bool → Bool → Bool
bool_differ true b = not b
bool_differ false b = b

-- The fields of a chunk, read before any is checked.
pub read_chunk : List ℕ → Chunk
read_chunk p = record {
  generation = read_le p 12 8;
  total = u32 (read_le p 20 4);
  offset = u32 (read_le p 24 4);
  size = u32 (read_le p 28 4);
  flags = u32 (read_le p 8 4);
  bytes = drop header_bytes p;
}

-- The tests on the fields of a chunk; `size` is that of the packet.
pub bad_chunk : Chunk → ℕ → ℕ → Bool
unfolding bool_differ
bad_chunk c size limit =
    c.generation == 0
    || bit_and c.flags 0xffff_fffc != 0
    || c.total == 0
    || ltb text_limit c.total
    || c.size == 0
    || ltb limit c.size
    || ltb c.total c.offset
    || ltb (c.total - c.offset) c.size
    || size != u32 (header_bytes + c.size)
    || (bit_and c.flags first_flag != 0 && c.offset != 0)
    || bool_differ (bit_and c.flags last_flag != 0) (u32 (c.offset + c.size) == c.total)

-- `has_out` is `out != NULL`.
pub decode : Option (List ℕ) → ℕ → ℕ → Bool → Option Chunk
decode none size limit has_out = none
decode (some p) size limit has_out =
    let c = read_chunk p in
    if not has_out || ltb size header_bytes
    then none
    else if read_le p 0 4 != 0x504c4342
        || read_le p 4 2 != 1
        || read_le p 6 2 != 0
        || bad_chunk c size limit
    then none
    else some c

-- The flags that `header` writes.
pub header_flags : ℕ → ℕ → ℕ → ℕ
header_flags total offset size =
    bit_or (if offset == 0 then first_flag else 0)
      (if u32 (offset + size) == total then last_flag else 0)

pub header : List ℕ → ℕ → ℕ → ℕ → ℕ → List ℕ
unfolding header_flags write_le
header p generation total offset size =
    let with_magic = write_le p 0 0x504c4342 4 in
    let with_version = write_le with_magic 4 1 2 in
    let with_zero = write_le with_version 6 0 2 in
    let with_flags = write_le with_zero 8 (header_flags total offset size) 4 in
    let with_generation = write_le with_flags 12 generation 8 in
    let with_total = write_le with_generation 20 total 4 in
    let with_offset = write_le with_total 24 offset 4 in write_le with_offset 28 size 4
