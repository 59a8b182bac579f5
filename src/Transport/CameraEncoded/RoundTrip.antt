-- ===== src/Transport/CameraEncoded/RoundTrip.antt =====
-- A camera header of version 2 that is written is read back, and an accepted record is the one that its header
-- writes.
use plank.Common.{
  ℕ, ◌+◌, ◌-◌, ◌≤◌, ◌<◌, ◌^◌, ◌≡◌, refl, arith, true, false, some, List, [], ◌∷◌, ◌++◌, length,
  drop, length-overwrite,
}
use plank.Transport.BigEndian.{
  join_u16, join_u32, read_u16, read_u32, write_u16, write_u32, u16_bytes, u32_bytes,
}
use plank.Transport.BigEndian.Laws.{join_u16-bytes, join_u32-bytes}
use plank.Transport.Camera.{header_bytes, max_frame_bytes, read_u64, write_u64, tag}
use plank.Transport.CameraEncoded.{
  Header, header_valid, write_header, encode, read_header, bad_frame, decode,
}
use plank.Transport.Camera.Words.{u64_bytes, join_u64-bytes}

-- The fields fit the widths that the struct gives them.
pub record Fits (h : Header) : Type 0 where
  pub generation : h.generation < 2 ^ 64
  pub sequence : h.sequence < 2 ^ 64
  pub capture_time_us : h.capture_time_us < 2 ^ 64
  pub codec : h.codec < 2 ^ 32
  pub platform : h.platform < 2 ^ 32
  pub encoder : h.encoder < 2 ^ 32
  pub source_pixel_format : h.source_pixel_format < 2 ^ 32
  pub width : h.width < 2 ^ 16
  pub height : h.height < 2 ^ 16
  pub nominal_fps : h.nominal_fps < 2 ^ 16
  pub flags : h.flags < 2 ^ 8
  pub primaries : h.primaries < 2 ^ 8
  pub transfer : h.transfer < 2 ^ 8
  pub matrix : h.matrix < 2 ^ 8
  pub range : h.range < 2 ^ 8

-- The header as one list of 64 bytes.
abbrev pub layout : Header → List ℕ
layout h =
    tag
    ++ ((2 ∷ h.flags ∷ 0 ∷ header_bytes ∷ [])
        ++ (u64_bytes h.generation
            ++ (u64_bytes h.sequence
                ++ (u64_bytes h.capture_time_us
                    ++ (u32_bytes h.codec
                        ++ (u16_bytes h.width
                            ++ (u16_bytes h.height
                                ++ (u32_bytes h.platform
                                    ++ (u32_bytes h.encoder
                                        ++ (u32_bytes h.source_pixel_format
                                            ++ ((h.primaries ∷ h.transfer ∷ h.matrix ∷ h.range ∷ [])
                                                ++ (u16_bytes h.nominal_fps
                                                    ++ (u16_bytes 0 ++ u32_bytes 0)))))))))))))

pub write_header_lem :
    (h : Header) (output : List ℕ) → write_header h output ≡ layout h ++ drop header_bytes output
unfolding write_header write_u64 write_u32 write_u16
write_header_lem h output = refl

read_header-layout : (h : Header) (rest : List ℕ) → Fits h → read_header (layout h ++ rest) ≡ h
unfolding read_header read_u64 read_u32 read_u16
read_header-layout h rest f =
    rw
      (
        join_u64-bytes h.generation f.generation,
        join_u64-bytes h.sequence f.sequence,
        join_u64-bytes h.capture_time_us f.capture_time_us,
        join_u32-bytes h.codec f.codec,
        join_u16-bytes h.width f.width,
        join_u16-bytes h.height f.height,
        join_u32-bytes h.platform f.platform,
        join_u32-bytes h.encoder f.encoder,
        join_u32-bytes h.source_pixel_format f.source_pixel_format,
        join_u16-bytes h.nominal_fps f.nominal_fps,
      )
      refl

bad_frame-layout :
    (h : Header) (rest : List ℕ) (size : ℕ)
    → header_bytes < size
    → size ≤ header_bytes + max_frame_bytes
    → bad_frame (layout h ++ rest) size ≡ false
unfolding bad_frame read_u32 join_u32 read_u16 join_u16
bad_frame-layout h rest size lo hi = ground arith

valid_size :
    (h : Header) (size : ℕ) → header_valid h size ≡ true → (0 < size) × (size ≤ max_frame_bytes)
unfolding header_valid
valid_size h size v = ground arith

-- A valid header is written, with its bytes behind it left alone and the buffer as long as before,
-- and the record of it and the payload behind it is decoded to the header. The buffer holds the
-- header and the payload.
pub decode-encode_second :
    (h old : Header) (output : List ℕ)
    → Fits h
    → header_bytes ≤ length output
    → header_valid h (length output - header_bytes) ≡ true
    → (out : List ℕ) × (encode (some h) (length output - header_bytes) (some output) (length output)
        ≡ some out)
      × (length out ≡ length output)
      × (drop header_bytes out ≡ drop header_bytes output)
      × (decode (some out) (length out) (some old) ≡ (true, some h))
decode-encode_second h old output f room valid =
    (layout h ++ drop header_bytes output, written, same, refl, rw same read)
  where
    same : length (layout h ++ drop header_bytes output) ≡ length output
    same = length-overwrite header_bytes (layout h) output refl room

    written :
        encode (some h) (length output - header_bytes) (some output) (length output)
        ≡ some (layout h ++ drop header_bytes output)
    written = unfold encode in rw (valid, write_header_lem h output) (ground arith)

    size : (0 < length output - header_bytes) × (length output - header_bytes ≤ max_frame_bytes)
    size = valid_size h (length output - header_bytes) valid

    read :
        decode (some (layout h ++ drop header_bytes output)) (length output) (some old)
        ≡ (true, some h)
    read =
        unfold decode in
        rw
          (
            bad_frame-layout h (drop header_bytes output) (length output) (omega (arith, size))
                (omega (arith, size)),
            read_header-layout h (drop header_bytes output) f,
            valid,
          )
          refl
