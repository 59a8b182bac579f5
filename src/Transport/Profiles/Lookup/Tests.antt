-- ===== src/Transport/Profiles/Lookup/Tests.antt =====
-- Lookups in the catalog.
use plank.Common.{◌≡◌, refl, true, false, none, some}
use plank.Transport.Profiles.{pos}
use plank.Transport.Profiles.Lookup.{
  element, profile, profile_named, find_named, is_text, supports_capture, explicit_dimensions,
}

no_such_mode : profile_named (some "h264-8-444") 10 ≡ none
unfolding profile_named find_named is_text
no_such_mode = refl

odd_width : explicit_dimensions (profile (pos 7)) (pos 1921) (pos 1080) ≡ false
unfolding explicit_dimensions profile element
odd_width = refl

captures : supports_capture (profile (pos 7)) (pos 2) ≡ true
unfolding supports_capture profile element
captures = refl
