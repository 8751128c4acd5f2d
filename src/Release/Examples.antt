-- ===== src/Release/Examples.antt =====
-- config/version.go and update/update.go: tests at concrete versions.
use gravil.Base.{◌≡◌, refl, Bool, ℕ, leb, ◌&&◌, text, text_key}
use gravil.Release.{update_version, cut}

abbrev is_digit : ℕ → Bool
is_digit c = leb 48 c && leb c 57

described : update_version is_digit (text "v0.5-3-gabc") ≡ text "v0.5"
unfolding update_version cut
described = refl

release_candidate : update_version is_digit (text "v0.5-rc1") ≡ text "v0.5-rc1"
unfolding update_version cut
release_candidate = refl
