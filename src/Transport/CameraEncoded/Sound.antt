-- ===== src/Transport/CameraEncoded/Sound.antt =====
-- What a decoder that accepts a camera record of version 2 has shown.
use plank.Common.{
  ℕ, ◌-◌, ◌≤◌, ◌<◌, ◌≡◌, refl, sym, arith, true, false, Option, none, some, List, [], ◌∷◌, ◌++◌,
  length, get_or, drop, All,
}
use plank.Common.Bits.{IsByte}
use plank.Transport.BigEndian.{read_u16, read_u32, u16_bytes, u32_bytes}
use plank.Transport.BigEndian.Inverse.{
  before_u8, before_u16, before_u32, get_or-IsByte, read_u16-lt, read_u32-lt,
}
use plank.Transport.Camera
use plank.Transport.Camera.{header_bytes, max_frame_bytes, read_u64, tag}
use plank.Transport.CameraEncoded.{
  Header, zero_header, header_valid, read_header, bad_frame, decode,
}
use plank.Transport.Camera.Sound.{decode_other_version}
use plank.Transport.Camera.Words.{u64_bytes, before_u64, read_u64-lt}
use plank.Transport.CameraEncoded.RoundTrip.{Fits, layout}

-- The bytes of an accepted record that are no field.
record FrameBytes (p : List ℕ) : Type 0 where
  b0 : get_or p 0 0 ≡ 0x50
  b1 : get_or p 1 0 ≡ 0x43
  b2 : get_or p 2 0 ≡ 0x41
  b3 : get_or p 3 0 ≡ 0x4d
  b4 : get_or p 4 0 ≡ 2
  b6 : get_or p 6 0 ≡ 0
  b7 : get_or p 7 0 ≡ header_bytes
  reserved : read_u16 p 58 ≡ 0
  last : read_u32 p 60 ≡ 0

frame_bytes : (p : List ℕ) (size : ℕ) → bad_frame p size ≡ false → FrameBytes p
unfolding bad_frame
frame_bytes p size good = ground arith

frame_room : (p : List ℕ) (size : ℕ) → bad_frame p size ≡ false → header_bytes < size
unfolding bad_frame
frame_room p size good = ground arith

accepted :
    (p : List ℕ) (h old : Header)
    → decode (some p) (length p) (some old) ≡ (true, some h)
    → (bad_frame p (length p) ≡ false)
      × (header_valid (read_header p) (length p - header_bytes) ≡ true)
      × (read_header p ≡ h)
unfolding decode
accepted p h old e = ground arith

module _ (p : List ℕ) (bytes : All IsByte p) (room : header_bytes ≤ length p) where
  -- The fields from offset 8 to the end of the header.
  fields :
      u64_bytes (read_u64 p 8)
        ++ (u64_bytes (read_u64 p 16)
            ++ (u64_bytes (read_u64 p 24)
                ++ (u32_bytes (read_u32 p 32)
                    ++ (u16_bytes (read_u16 p 36)
                        ++ (u16_bytes (read_u16 p 38)
                            ++ (u32_bytes (read_u32 p 40)
                                ++ (u32_bytes (read_u32 p 44)
                                    ++ (u32_bytes (read_u32 p 48)
                                        ++ ((get_or p 52 0
                                              ∷ get_or p 53 0
                                              ∷ get_or p 54 0
                                              ∷ get_or p 55 0
                                              ∷ [])
                                            ++ (u16_bytes (read_u16 p 56)
                                                ++ (u16_bytes (read_u16 p 58)
                                                    ++ (u32_bytes (read_u32 p 60)
                                                        ++ drop header_bytes p))))))))))))
      ≡ drop 8 p
  fields =
      let at60 = before_u32 p bytes 60 {r = drop 64 p} room refl in
      let at58 = before_u16 p bytes 58 (omega arith) at60 in
      let at56 = before_u16 p bytes 56 (omega arith) at58 in
      let at55 = before_u8 p bytes 55 (omega arith) at56 in
      let at54 = before_u8 p bytes 54 (omega arith) at55 in
      let at53 = before_u8 p bytes 53 (omega arith) at54 in
      let at52 = before_u8 p bytes 52 (omega arith) at53 in
      let at48 = before_u32 p bytes 48 (omega arith) at52 in
      let at44 = before_u32 p bytes 44 (omega arith) at48 in
      let at40 = before_u32 p bytes 40 (omega arith) at44 in
      let at38 = before_u16 p bytes 38 (omega arith) at40 in
      let at36 = before_u16 p bytes 36 (omega arith) at38 in
      let at32 = before_u32 p bytes 32 (omega arith) at36 in
      let at24 = before_u64 p bytes 24 (omega arith) at32 in
      let at16 = before_u64 p bytes 16 (omega arith) at24 in before_u64 p bytes 8 (omega arith) at16

  -- The eight bytes in front of them.
  front :
      {r : List ℕ}
      → r ≡ drop 8 p
      → get_or p 0 0
          ∷ get_or p 1 0
          ∷ get_or p 2 0
          ∷ get_or p 3 0
          ∷ get_or p 4 0
          ∷ get_or p 5 0
          ∷ get_or p 6 0
          ∷ get_or p 7 0
          ∷ r
        ≡ p
  front e =
      let at7 = before_u8 p bytes 7 (omega arith) e in
      let at6 = before_u8 p bytes 6 (omega arith) at7 in
      let at5 = before_u8 p bytes 5 (omega arith) at6 in
      let at4 = before_u8 p bytes 4 (omega arith) at5 in
      let at3 = before_u8 p bytes 3 (omega arith) at4 in
      let at2 = before_u8 p bytes 2 (omega arith) at3 in
      let at1 = before_u8 p bytes 1 (omega arith) at2 in before_u8 p bytes 0 (omega arith) at1

  pub read_header-Fits : Fits (read_header p)
  unfolding read_header
  read_header-Fits = record {
    generation = read_u64-lt 8 p bytes;
    sequence = read_u64-lt 16 p bytes;
    capture_time_us = read_u64-lt 24 p bytes;
    codec = read_u32-lt 32 p bytes;
    platform = read_u32-lt 40 p bytes;
    encoder = read_u32-lt 44 p bytes;
    source_pixel_format = read_u32-lt 48 p bytes;
    width = read_u16-lt 36 p bytes;
    height = read_u16-lt 38 p bytes;
    nominal_fps = read_u16-lt 56 p bytes;
    flags = get_or-IsByte 5 p bytes;
    primaries = get_or-IsByte 52 p bytes;
    transfer = get_or-IsByte 53 p bytes;
    matrix = get_or-IsByte 54 p bytes;
    range = get_or-IsByte 55 p bytes;
  }

  layout-read_header :
      bad_frame p (length p) ≡ false → p ≡ layout (read_header p) ++ drop header_bytes p
  unfolding read_header
  layout-read_header good =
      let w = frame_bytes p (length p) good in
      rw (w.b0, w.b1, w.b2, w.b3, w.b4, w.b6, w.b7, w.reserved, w.last) at (sym (front fields))

-- Whatever is decoded from bytes is, byte for byte, the header of version 2 and at least one byte
-- of payload; the header is valid for the payload, and its fields fit their widths.
pub decode-sound_second :
    (p : List ℕ) (h old : Header)
    → All IsByte p
    → decode (some p) (length p) (some old) ≡ (true, some h)
    → (p ≡ layout h ++ drop header_bytes p)
      × (header_valid h (length p - header_bytes) ≡ true)
      × Fits h
      × (header_bytes < length p)
decode-sound_second p h old bytes e =
    let (good, valid, same) = accepted p h old e in
    let room : header_bytes < length p = frame_room p (length p) good in
    rw (← same) (
      layout-read_header p bytes (omega arith) good,
      valid,
      read_header-Fits p bytes (omega arith),
      room,
    )

-- A refused record leaves nothing of itself: the target is cleared whatever it held.
pub decode_cleared_second :
    (p : Option (List ℕ)) (size : ℕ) (h old : Header)
    → decode p size (some old) ≡ (false, some h)
    → h ≡ zero_header
unfolding decode
decode_cleared_second none size h old e = ground arith
decode_cleared_second (some p) size h old e = ground arith

-- No record is accepted as both versions: what the decoder of version 2 takes, the decoder of
-- version 1 refuses, with its target cleared.
pub decode_one_version :
    (p : List ℕ) (size : ℕ) (h old : Header) (old_first : Camera.Header)
    → decode (some p) size (some old) ≡ (true, some h)
    → Camera.decode (some p) size (some old_first) ≡ (false, some Camera.zero_header)
unfolding decode bad_frame
decode_one_version p size h old old_first e =
    let second : get_or p 4 0 ≡ 2 = ground arith in
    decode_other_version p size old_first (omega arith)
