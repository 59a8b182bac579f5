-- ===== src/Transport/Clipboard/Tests.antt =====
-- Runs of the clipboard format, and its theorems at concrete chunks and texts.
use plank.Common.{ℕ, ◌≡◌, refl, arith, true, some, List, [], ◌∷◌, ◌++◌, replicate}
use plank.Transport.Clipboard.{Chunk, header, decode, read_chunk, bad_chunk, read_le, read_le_loop}
use plank.Transport.Clipboard.RoundTrip.{
  IsSound, IsPlaced, chunk, decode-header_clipboard, decode-IsSound_clipboard,
}

-- The last two bytes of a text of five, behind room for the header.
abbrev buffer : List ℕ
buffer = replicate 32 0xee ++ (104 ∷ 105 ∷ [])

abbrev packet : List ℕ
packet =
    0x42 ∷ 0x43 ∷ 0x4c ∷ 0x50 ∷ 1 ∷ 0 ∷ 0 ∷ 0 ∷ 2 ∷ 0 ∷ 0 ∷ 0 ∷ 7 ∷ 0 ∷ 0 ∷ 0 ∷ 0 ∷ 0 ∷ 0 ∷ 0 ∷ 5
    ∷ 0 ∷ 0 ∷ 0 ∷ 3 ∷ 0 ∷ 0 ∷ 0 ∷ 2 ∷ 0 ∷ 0 ∷ 0 ∷ 104 ∷ 105 ∷ []

abbrev last_chunk : Chunk
last_chunk = record {
  generation = 7;
  total = 5;
  offset = 3;
  size = 2;
  flags = 2;
  bytes = 104 ∷ 105 ∷ [];
}

placed : IsPlaced 7 5 3 2
placed = omega arith

header_runs : header buffer 7 5 3 2 ≡ packet
unfolding header
header_runs = refl

decode_runs : decode (some packet) 34 8160 true ≡ some last_chunk
unfolding decode read_chunk bad_chunk read_le read_le_loop
decode_runs = refl

decode-header_clipboard_example :
    decode (some (header buffer 7 5 3 2)) 34 8160 true ≡ some (chunk 7 5 3 (104 ∷ 105 ∷ []))
decode-header_clipboard_example =
    decode-header_clipboard buffer 7 5 3 8160 (omega arith) placed (omega arith)

decode-IsSound_clipboard_example : IsSound last_chunk 8160
decode-IsSound_clipboard_example = decode-IsSound_clipboard packet 8160 true last_chunk decode_runs
