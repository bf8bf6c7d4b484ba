-- ===== src/Version.antt =====
-- include/forgeant/version.hpp and src/version.cpp
use forgeant.Prelude.{String, ◌<>◌, ◌≡◌, refl}
use forgeant.Prelude.Int.{ℤ, pos}
use forgeant.Prelude.Decimal.{to_string}

abbrev version_major : ℤ
version_major = pos 0

abbrev version_minor : ℤ
version_minor = pos 2

abbrev version_patch : ℤ
version_patch = pos 0

unfoldable version_string : String
version_string = "0.2.0"

version_numbers :
    version_string
    ≡ to_string version_major
      <> ("." <> (to_string version_minor <> ("." <> to_string version_patch)))
unfolding version_string to_string
version_numbers = refl
