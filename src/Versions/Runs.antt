-- ===== src/Versions/Runs.antt =====
-- Versions and version ranges at concrete inputs.
use lightway.Base.{◌≡◌, true, false, ◌⊎◌, some, List, [], ◌∷◌}
use lightway.Versions.{Version, all, contains, try_new}
use lightway.Versions.Laws.{Bound, at_least, at_most, bounded, bounded-supported}

abbrev version_1_2 : Version
version_1_2 = record { major = 1; minor = 2 }

abbrev version_1_1 : Version
version_1_1 = record { major = 1; minor = 1 }

-- The last one is refused.
abbrev bounds : List Bound
bounds = at_least version_1_2 ∷ at_most version_1_2 ∷ at_most version_1_1 ∷ []

bounded-supported_example :
    (contains (bounded bounds all) (bounded bounds all).lowest ≡ true)
    × (contains (bounded bounds all) (bounded bounds all).highest ≡ true)
    × ((contains (bounded bounds all) version_1_2 ≡ false) ⊎ (try_new 1 2 ≡ some version_1_2))
bounded-supported_example = bounded-supported bounds version_1_2
