-- ===== src/Transport/Clipboard/Text/Tests.antt =====
-- Runs of `valid_text`, and its theorem at a concrete text.
use plank.Common.{ℕ, ◌≡◌, ◌≢◌, ◌↔◌, refl, arith, true, false, some, none, List, [], ◌∷◌, All}
use plank.Transport.Clipboard.Text.{valid_text, valid_loop, extra_bytes, bad_second, continues}
use plank.Transport.Clipboard.Text.Utf8.{IsScalar, utf8_text}
use plank.Transport.Clipboard.Text.Complete.{valid_text_lem}

-- "é", then an encoding of "/" that is too long, then a surrogate.
valid_text_runs :
    (valid_text (some (0xc3 ∷ 0xa9 ∷ [])) 2 ≡ some true)
    × (valid_text (some (0xc0 ∷ 0xaf ∷ [])) 2 ≡ some false)
    × (valid_text (some (0xed ∷ 0xa0 ∷ 0x80 ∷ [])) 3 ≡ some false)
unfolding valid_text valid_loop extra_bytes bad_second continues
valid_text_runs = (refl, refl, refl)

valid_text_lem_example :
    ((valid_text (some (0xc3 ∷ 0xa9 ∷ [])) 2 ≡ some true)
      ↔ ((vs : List ℕ) × All IsScalar vs × (0xc3 ∷ 0xa9 ∷ [] ≡ utf8_text vs)))
    × (valid_text (some (0xc3 ∷ 0xa9 ∷ [])) 2 ≢ none)
valid_text_lem_example = valid_text_lem (0xc3 ∷ 0xa9 ∷ []) (omega arith) (omega arith) (omega arith)
