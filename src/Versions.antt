-- ===== src/Versions.antt =====
-- lightway-core/src/version.rs and lightway-expresslane/src/version.rs.
pub mod Laws
mod Runs
use lightway.Base.{
  ℕ, ◌+◌, ◌≤◌, ◌<◌, ◌≡◌, Bool, true, false, not, ◌&&◌, ◌||◌, Option, none, some, ltb, leb, ◌==◌,
  if◌then◌else◌,
}

pub record Version : Type 0 where
  pub major : ℕ
  pub minor : ℕ

-- The derived `PartialOrd` of the pair.
abbrev pub version_lt : Version → Version → Bool
version_lt v w = ltb v.major w.major || (v.major == w.major && ltb v.minor w.minor)

abbrev pub version_le : Version → Version → Bool
version_le v w = not (version_lt w v)

abbrev pub minimum : Version
minimum = record { major = 1; minor = 1 }

abbrev pub maximum : Version
maximum = record { major = 1; minor = 3 }

unfoldable pub try_new : ℕ → ℕ → Option Version
try_new major minor =
    let v : Version = record { major = major; minor = minor } in
    if version_lt v minimum || version_lt maximum v then none else some v

pub record VersionRangeInclusive : Type 0 where
  pub lowest : Version
  pub highest : Version

pub all : VersionRangeInclusive
all = record { lowest = minimum; highest = maximum }

pub valid : VersionRangeInclusive → Bool
valid r = version_le r.lowest r.highest

pub contains : VersionRangeInclusive → Version → Bool
contains r v = version_le r.lowest v && version_le v r.highest

-- The error texts name the two versions that they compare.
pub data RangeError : Type 0 where
  below_supported above_maximum above_supported below_minimum : Version → Version → RangeError

pub data RangeResult : Type 0 where
  ok : VersionRangeInclusive → RangeResult
  err : RangeError → RangeResult

pub set_minimum : VersionRangeInclusive → Version → RangeResult
set_minimum r v =
    if version_lt v minimum
    then err (below_supported v minimum)
    else if version_lt r.highest v
    then err (above_maximum v r.highest)
    else ok (record r { lowest = v })

pub set_maximum : VersionRangeInclusive → Version → RangeResult
set_maximum r v =
    if version_lt maximum v
    then err (above_supported v maximum)
    else if version_lt v r.lowest
    then err (below_minimum v r.lowest)
    else ok (record r { highest = v })

pub data ExpresslaneVersion : Type 0 where
  unknown version1 version2 : ExpresslaneVersion

abbrev pub max_version : ExpresslaneVersion
max_version = version2

-- `From<u8>` and `as u8`.
unfoldable pub from_u8 : ℕ → ExpresslaneVersion
from_u8 byte = if byte == 1 then version1 else if byte == 2 then version2 else unknown

unfoldable pub to_u8 : ExpresslaneVersion → ℕ
to_u8 unknown = 0
to_u8 version1 = 1
to_u8 version2 = 2

-- The lower of two in the derived order.
min_version : ExpresslaneVersion → ExpresslaneVersion → ExpresslaneVersion
unfolding to_u8
min_version v w = if leb (to_u8 v) (to_u8 w) then v else w

-- `negotiate_version` of lightway-core/src/wire/expresslane_config.rs.
pub negotiate_version : ExpresslaneVersion → ExpresslaneVersion
unfolding min_version
negotiate_version unknown = max_version
negotiate_version v = min_version max_version v
