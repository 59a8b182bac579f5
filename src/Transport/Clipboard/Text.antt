-- ===== src/Transport/Clipboard/Text.antt =====
-- `plank_clipboard_valid_text` against the encoding form of UTF-8: a text is accepted exactly when it
-- is the encoding of scalar values, none of them 0.
pub mod Utf8
pub mod Sound
pub mod Complete
mod Tests
use plank.Common.{
  ℕ, zero, suc, ◌+◌, ◌-◌, ◌*◌, ◌/◌, ◌%◌, ◌≤◌, ◌<◌, ◌≡◌, ◌⊎◌, refl, sym, ap, ◌∙◌, arith, Bool, true,
  false, not, ◌&&◌, ◌||◌, ltb, leb, ◌==◌, ◌!=◌, if◌then◌else◌, Option, none, some, List, [], ◌∷◌,
  ◌++◌, length, get_or, drop, All, bit_and,
}
use plank.Common.Bits.{IsByte}
use plank.Transport.Clipboard.{text_limit}

-- How many bytes follow the lead byte `c`; 0 for a byte that leads none.
pub extra_bytes : ℕ → ℕ
extra_bytes c =
    if leb 0xc2 c && leb c 0xdf
    then 1
    else if leb 0xe0 c && leb c 0xef
    then 2
    else if leb 0xf0 c && leb c 0xf4
    then 3
    else 0

-- The second byte `d` is out of range behind the lead byte `c`.
pub bad_second : ℕ → ℕ → Bool
bad_second c d =
    (c == 0xe0 && ltb d 0xa0)
    || (c == 0xed && ltb 0x9f d)
    || (c == 0xf0 && ltb d 0x90)
    || (c == 0xf4 && ltb 0x8f d)

-- The loop over `extra`: the next `extra` bytes continue a sequence.
pub continues : ℕ → List ℕ → Bool
continues zero rest = true
continues (suc extra) rest =
    if bit_and (get_or rest 0 0) 0xc0 != 0x80 then false else continues extra (drop 1 rest)

-- The loop over the text, on what is left of it. Each round takes a byte at least, so the length of
-- the text is enough fuel; `none` would mean that it was not.
pub valid_loop : ℕ → List ℕ → Option Bool
valid_loop fuel [] = some true
valid_loop zero (c ∷ rest) = none
valid_loop (suc fuel) (c ∷ rest) =
    let extra = extra_bytes c in
    let next = valid_loop fuel rest in
    let behind = valid_loop fuel (drop extra rest) in
    if c == 0
    then some false
    else if ltb c 0x80
    then next
    else if extra == 0 || ltb (length rest) extra
    then some false
    else if bad_second c (get_or rest 0 0)
    then some false
    else if not (continues extra rest)
    then some false
    else behind

-- `none` for the null pointer.
pub valid_text : Option (List ℕ) → ℕ → Option Bool
valid_text none size = some false
valid_text (some p) size =
    if size == 0 || ltb text_limit size then some false else valid_loop size p
