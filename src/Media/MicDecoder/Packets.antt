-- ===== src/Media/MicDecoder/Packets.antt =====
-- The check of a packet against the table of RFC 6716, section 3.1.
use plank.Common.{
  ℕ, zero, suc, ◌*◌, ◌/◌, ◌%◌, ◌≤◌, ◌<◌, ◌≡◌, ◌↔◌, refl, arith, Bool, true, false, ◌||◌, ◌&&◌, ltb,
  leb, ◌==◌, ◌!=◌, if◌then◌else◌, some, List, [], ◌∷◌, get_or, bit_and,
}
use plank.Common.Below.{all_below, all_below_lem}
use plank.Media.MicDecoder.{frame_count, frame_samples, packet_valid}

-- The samples of a frame at 48 kHz for each of the 32 configurations: SILK, hybrid and CELT.
abbrev pub samples_of : List ℕ
samples_of =
    480 ∷ 960 ∷ 1920 ∷ 2880 ∷ 480 ∷ 960 ∷ 1920 ∷ 2880 ∷ 480 ∷ 960 ∷ 1920 ∷ 2880 ∷ 480 ∷ 960 ∷ 480
    ∷ 960 ∷ 120 ∷ 240 ∷ 480 ∷ 960 ∷ 120 ∷ 240 ∷ 480 ∷ 960 ∷ 120 ∷ 240 ∷ 480 ∷ 960 ∷ 120 ∷ 240 ∷ 480
    ∷ 960 ∷ []

-- The frames of a packet, from the two low bits of its first byte and the six low bits of its second.
abbrev pub frames_of : ℕ → ℕ → ℕ → ℕ
frames_of code second size =
    if code == 0
    then 1
    else if code == 1 || code == 2
    then 2
    else if leb 2 size
    then second % 64
    else 0

-- What the masks of the code say of the first byte.
toc_test : ℕ → Bool
toc_test toc =
    frame_samples toc == get_or samples_of (toc / 8) 0
    && bit_and toc 3 == toc % 4
    && (if bit_and toc 4 == 0 then toc / 4 % 2 == 0 else toc / 4 % 2 == 1)

toc_tests : all_below toc_test 256 ≡ true
unfolding all_below toc_test frame_samples
toc_tests = refl

low_six : ℕ → Bool
low_six b = bit_and b 63 == b % 64

low_six_tests : all_below low_six 256 ≡ true
unfolding all_below low_six
low_six_tests = refl

toc_lem :
    (toc : ℕ)
    → toc < 256
    → (frame_samples toc ≡ get_or samples_of (toc / 8) 0)
      × (bit_and toc 3 ≡ toc % 4)
      × ((bit_and toc 4 == 0) ≡ (toc / 4 % 2 == 0))
unfolding toc_test
toc_lem toc byte = let e = all_below_lem toc_test 256 toc toc_tests byte in ground (arith, e)

low_six_lem : (b : ℕ) → b < 256 → bit_and b 63 ≡ b % 64
unfolding low_six
low_six_lem b byte = let e = all_below_lem low_six 256 b low_six_tests byte in ground (arith, e)

frame_count_lem :
    (bytes : List ℕ) (size : ℕ)
    → get_or bytes 0 0 < 256
    → get_or bytes 1 0 < 256
    → frame_count bytes size ≡ frames_of (get_or bytes 0 0 % 4) (get_or bytes 1 0) size
unfolding frame_count
frame_count_lem bytes size first second =
    let code = (toc_lem (get_or bytes 0 0) first).1 in
    let low = low_six_lem (get_or bytes 1 0) second in rw (code, low) (ground arith)

some_frames : (frames samples : ℕ) → frames * samples ≡ 480 → (frames != 0) ≡ true
some_frames zero samples e = absurd (omega (arith, e))
some_frames (suc n) samples e = ground arith

-- A packet is valid exactly where it has from 1 to 1275 bytes, is stereo, and its frames have 480
-- samples together by the tables of the RFC.
pub packet_valid_lem :
    (bytes : List ℕ) (size : ℕ)
    → get_or bytes 0 0 < 256
    → get_or bytes 1 0 < 256
    → let toc = get_or bytes 0 0 in
      (packet_valid (some bytes) size ≡ true) ↔ (
        (0 < size)
        × (size ≤ 1275)
        × (toc / 4 % 2 ≡ 1)
        × (frames_of (toc % 4) (get_or bytes 1 0) size * get_or samples_of (toc / 8) 0 ≡ 480))
unfolding packet_valid
packet_valid_lem bytes size first second =
    let (samples, code, stereo) = toc_lem (get_or bytes 0 0) first in
    let counted = frame_count_lem bytes size first second in
    let toc = get_or bytes 0 0 in
    let frames = frames_of (toc % 4) (get_or bytes 1 0) size in
    let long = get_or samples_of (toc / 8) 0 in
    rw (samples, stereo, counted)
      (
        (λ e. tested size (toc / 4 % 2) frames (frames * long) (omega arith) e),
        (λ (some_bytes, few, two, whole).
            let several = some_frames frames long whole in
            passed size (toc / 4 % 2) frames (frames * long) some_bytes few two several whole),
      )
  where
    tested :
        (size channel frames total : ℕ)
        → channel < 2
        → (if size == 0 || ltb 1275 size || channel == 0
            then false
            else frames != 0 && total == 480)
          ≡ true
        → (0 < size) × (size ≤ 1275) × (channel ≡ 1) × (total ≡ 480)
    tested size channel frames total two e = ground (arith, e, two)

    passed :
        (size channel frames total : ℕ)
        → 0 < size
        → size ≤ 1275
        → channel ≡ 1
        → (frames != 0) ≡ true
        → total ≡ 480
        → (if size == 0 || ltb 1275 size || channel == 0
            then false
            else frames != 0 && total == 480)
          ≡ true
    passed size channel frames total some_bytes few two several whole =
        ground (arith, some_bytes, few, two, several, whole)
