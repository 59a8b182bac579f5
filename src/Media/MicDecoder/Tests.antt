-- ===== src/Media/MicDecoder/Tests.antt =====
-- The decoder at concrete packets. A sample is a number here.
use plank.Common.{
  ℕ, ◌+◌, ◌-◌, ◌*◌, ◌/◌, ◌%◌, ◌≤◌, ◌<◌, ◌≡◌, ◌↔◌, refl, arith, true, false, ltb, some, List, [],
  ◌∷◌, get_or,
}
use plank.Media.MicDecoder.{
  frame_count, frame_samples, packet_valid, Decoder, Conversion, fine, all_finite, pad_front,
  bad_conversion, decode,
}
use plank.Media.MicDecoder.Packets.{samples_of, frames_of, packet_valid_lem}
use plank.Media.MicDecoder.Decoded.{decode_lem}

-- Stereo CELT frames of 10 ms, one of them; and two of 5 ms.
abbrev one_frame : List ℕ
one_frame = 0xf4 ∷ 1 ∷ []

two_frames : packet_valid (some (0xed ∷ 1 ∷ [])) 2 ≡ true
unfolding packet_valid frame_count frame_samples
two_frames = refl

packet_valid_lem_example : (packet_valid (some one_frame) 2 ≡ true) ↔ (
    (0 < 2)
    × (2 ≤ 1275)
    × (0xf4 / 4 % 2 ≡ 1)
    × (frames_of (0xf4 % 4) 1 2 * get_or samples_of (0xf4 / 8) 0 ≡ 480))
packet_valid_lem_example = packet_valid_lem one_frame 2 (omega arith) (omega arith)

-- The first output of a decoder lacks 120 frames.
abbrev short : Conversion ℕ
short = record { status = fine; supplied = true; frames = 360; bytes = 2880; samples = λ k. 7 }

abbrev first_decoder : Decoder
first_decoder = record { has_converter = true; priming = true }

decodes :
    (decode (λ x. ltb x 100) 0 true first_decoder (some one_frame) 2 true (λ k. 0) short).0 ≡ true
unfolding decode packet_valid frame_count frame_samples bad_conversion all_finite pad_front
decodes = refl

decode_lem_example :
    let (good, next, out) =
      decode (λ x. ltb x 100) 0 true first_decoder (some one_frame) 2 true (λ k. 0) short in
    (packet_valid (some one_frame) 2 ≡ true)
    × (next.priming ≡ false)
    × (300 < 960 → ltb (out 300) 100 ≡ true)
    × (1 ≤ 360)
    × (360 ≤ 480)
    × ((true ≡ false) → short.frames ≡ 480)
    × (300 < (480 - 360) * 2 → out 300 ≡ 0)
    × (300 < 360 * 2 → out ((480 - 360) * 2 + 300) ≡ 7)
decode_lem_example =
    decode_lem (λ x. ltb x 100) 0 true first_decoder (some one_frame) 2 true (λ k. 0) short 300
      decodes
