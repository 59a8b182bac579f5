-- ===== src/Transport/Clipboard/RoundTrip.antt =====
-- A chunk under a written header is decoded to what was written, and what is decoded is a chunk
-- that lies inside its text.
use plank.Common.{
  ℕ, ◌+◌, ◌-◌, ◌*◌, ◌/◌, ◌%◌, ◌^◌, ◌≤◌, ◌<◌, ◌≡◌, ◌∙◌, arith, Bool, true, false, ◌==◌,
  if◌then◌else◌, some, List, ◌++◌, length, drop, drop-drop, length-drop, bit_and,
}
use plank.Common.Bits.{bit_and_low, bit_and_digit, bit_and_above_two}
use plank.Transport.Clipboard.{
  Chunk, text_limit, header_bytes, read_le, write_le, read_chunk, bad_chunk, decode, header,
  header_flags,
}
use plank.Transport.Clipboard.LittleEndian.{
  le_bytes, read_le_lem, le_value-le_bytes_four, le_value-le_bytes_eight,
}

-- Bit 0 for the first chunk of a text, bit 1 for the last.
abbrev pub position_flags : ℕ → ℕ → ℕ → ℕ
position_flags total offset size =
    (if offset == 0 then 1 else 0) + (if offset + size == total then 2 else 0)

-- The chunk of the text that starts at `offset`.
abbrev pub chunk : ℕ → ℕ → ℕ → List ℕ → Chunk
chunk generation total offset bytes = record {
  generation = generation;
  total = total;
  offset = offset;
  size = length bytes;
  flags = position_flags total offset (length bytes);
  bytes = bytes;
}

-- The header as one list.
abbrev pub layout : ℕ → ℕ → ℕ → ℕ → ℕ → List ℕ
layout flags generation total offset size =
    le_bytes 0 4 0x504c4342
    ++ (le_bytes 0 2 1
        ++ (le_bytes 0 2 0
            ++ (le_bytes 0 4 flags
                ++ (le_bytes 0 8 generation
                    ++ (le_bytes 0 4 total ++ (le_bytes 0 4 offset ++ le_bytes 0 4 size))))))

header_lem :
    (p : List ℕ) (generation total offset size : ℕ)
    → header p generation total offset size
      ≡ layout (header_flags total offset size) generation total offset size ++ drop header_bytes p
unfolding header write_le
header_lem p generation total offset size = simp drop-drop

-- The chunks of a text: a generation, and a place of at least one byte inside a text within the limit.
pub record IsPlaced (generation total offset size : ℕ) : Type 0 where
  pub has_generation : 0 < generation
  pub generation_fits : generation < 2 ^ 64
  pub has_bytes : 0 < size
  pub inside : offset + size ≤ total
  pub within_limit : total ≤ text_limit

header_flags_lem :
    (generation total offset size : ℕ)
    → IsPlaced generation total offset size
    → header_flags total offset size ≡ position_flags total offset size
unfolding header_flags
header_flags_lem generation total offset size placed = ground arith

position_flags-lt : (total offset size : ℕ) → position_flags total offset size < 4
position_flags-lt total offset size = ground arith

module _ (flags generation total offset size : ℕ) (rest : List ℕ)
    (placed : IsPlaced generation total offset size) (few : flags < 4) where
  abbrev packet : List ℕ
  packet = layout flags generation total offset size ++ rest

  read_chunk-layout : read_chunk packet ≡ record {
    generation = generation;
    total = total;
    offset = offset;
    size = size;
    flags = flags;
    bytes = rest;
  }
  unfolding read_chunk
  read_chunk-layout =
      let generation_read : read_le packet 12 8 ≡ generation =
        read_le_lem packet 12 8 (omega arith) (omega arith) (omega arith)
        ∙ le_value-le_bytes_eight generation placed.generation_fits in
      let total_read : read_le packet 20 4 ≡ total =
        read_le_lem packet 20 4 (omega arith) (omega arith) (omega arith)
        ∙ le_value-le_bytes_four total (omega arith) in
      let offset_read : read_le packet 24 4 ≡ offset =
        read_le_lem packet 24 4 (omega arith) (omega arith) (omega arith)
        ∙ le_value-le_bytes_four offset (omega arith) in
      let size_read : read_le packet 28 4 ≡ size =
        read_le_lem packet 28 4 (omega arith) (omega arith) (omega arith)
        ∙ le_value-le_bytes_four size (omega arith) in
      let flags_read : read_le packet 8 4 ≡ flags =
        read_le_lem packet 8 4 (omega arith) (omega arith) (omega arith)
        ∙ le_value-le_bytes_four flags (omega arith) in
      rw (generation_read, total_read, offset_read, size_read, flags_read) (ground arith)

  magic_read :
      (read_le packet 0 4 ≡ 0x504c4342) × (read_le packet 4 2 ≡ 1) × (read_le packet 6 2 ≡ 0)
  magic_read = (
    read_le_lem packet 0 4 (omega arith) (omega arith) (omega arith),
    read_le_lem packet 4 2 (omega arith) (omega arith) (omega arith),
    read_le_lem packet 6 2 (omega arith) (omega arith) (omega arith),
  )

bad_chunk-chunk :
    (generation total offset : ℕ) (bytes : List ℕ) (limit : ℕ)
    → IsPlaced generation total offset (length bytes)
    → length bytes ≤ limit
    → bad_chunk (chunk generation total offset bytes) (header_bytes + length bytes) limit ≡ false
unfolding bad_chunk
bad_chunk-chunk generation total offset bytes limit placed fits = ground arith

-- A chunk whose bytes stand behind the header that was written for it is decoded to its generation,
-- its place, its bytes, and flags that say whether it is the first and the last of the text; the
-- header leaves the bytes behind it alone. The buffer holds the header, and the chunk is the rest of it,
-- not empty and not longer than the receiver's limit. The generation is not 0 and fits in 64 bits, and
-- the chunk lies inside a text whose size is within the limit of a text.
pub decode-header_clipboard :
    (p : List ℕ) (generation total offset limit : ℕ)
    → let bytes = drop header_bytes p in
      header_bytes ≤ length p
      → IsPlaced generation total offset (length bytes)
      → length bytes ≤ limit
      → decode (some (header p generation total offset (length bytes))) (length p) limit true
        ≡ some (chunk generation total offset bytes)
unfolding decode
decode-header_clipboard p generation total offset limit room placed fits =
    let bytes : List ℕ = drop header_bytes p in
    let few = position_flags-lt total offset (length bytes) in
    let whole : length p ≡ header_bytes + length bytes =
      omega (arith, length-drop header_bytes p) in
    let read = read_chunk-layout _ generation total offset (length bytes) bytes placed few in
    let flags = header_flags_lem generation total offset (length bytes) placed in
    let magic = magic_read _ generation total offset (length bytes) bytes placed few in
    let good = bad_chunk-chunk generation total offset bytes limit placed fits in
    rw
      (
        whole,
        header_lem p generation total offset (length bytes),
        flags,
        read,
        magic.0,
        magic.1,
        magic.2,
        good,
      )
      (ground arith)

-- What a receiver may rely on: the chunk lies inside a text within the limit, it is as long as it
-- says, and its flags tell its place: the first flag only at the start, the last flag exactly at the end.
pub record IsSound (c : Chunk) (limit : ℕ) : Type 0 where
  pub has_generation : 0 < c.generation
  pub has_bytes : 0 < c.size
  pub short : c.size ≤ limit
  pub inside : c.offset + c.size ≤ c.total
  pub within_limit : c.total ≤ text_limit
  pub flags_known : c.flags < 4
  pub first_at_start : c.flags % 2 ≡ 1 → c.offset ≡ 0
  pub last_at_end : c.flags / 2 ≡ 1 → c.offset + c.size ≡ c.total
  pub end_is_last : c.offset + c.size ≡ c.total → c.flags / 2 ≡ 1
  pub whole : length c.bytes ≡ c.size

first_bit : (flags : ℕ) → bit_and flags 1 ≡ flags % 2
first_bit flags = bit_and_low 1 flags

last_bit : (flags : ℕ) → bit_and flags 2 ≡ flags / 2 % 2 * 2
last_bit flags = omega (arith, bit_and_digit flags 2, bit_and_low 1 (flags / 2))

bad_chunk-IsSound :
    (c : Chunk) (size limit : ℕ)
    → c.flags < 2 ^ 32
    → length c.bytes ≡ size - header_bytes
    → bad_chunk c size limit ≡ false
    → IsSound c limit
unfolding bad_chunk
bad_chunk-IsSound c size limit fits behind good =
    let above = bit_and_above_two c.flags fits in
    let first = first_bit c.flags in let last = last_bit c.flags in ground arith

-- Every chunk that `decode` accepts is sound. The packet has the stated size.
pub decode-IsSound_clipboard :
    (p : List ℕ) (limit : ℕ) (has_out : Bool) (c : Chunk)
    → decode (some p) (length p) limit has_out ≡ some c
    → IsSound c limit
unfolding decode
decode-IsSound_clipboard p limit has_out c e =
    rw (← accepted.0) (bad_chunk-IsSound (read_chunk p) (length p) limit fits behind accepted.1)
  where
    accepted : (read_chunk p ≡ c) × (bad_chunk (read_chunk p) (length p) limit ≡ false)
    accepted = ground arith

    fits : (read_chunk p).flags < 2 ^ 32
    fits = unfold read_chunk in omega arith

    behind : length (read_chunk p).bytes ≡ length p - header_bytes
    behind = unfold read_chunk in length-drop header_bytes p
