-- ===== src/Versions/Laws.antt =====
-- Version checks, version ranges and the negotiation of the expresslane version.
use lightway.Base.{
  false, ◌⊎◌, inl, inr, Bool-cases, List, [], ◌∷◌, ℕ, ◌≤◌, ◌≡◌, ◌≢◌, refl, ◌↔◌, true, some, arith,
}
use lightway.Versions.{
  Version, VersionRangeInclusive, version_le, try_new, all, contains, set_minimum, set_maximum,
  RangeResult, ok, err, minimum, maximum, ExpresslaneVersion, unknown, version1, version2, from_u8,
  to_u8, negotiate_version,
}

pub try_new_supported : (v : Version) → contains all v ≡ true → try_new v.major v.minor ≡ some v
unfolding try_new contains all
try_new_supported v h = ground arith

-- `try_new` accepts exactly the versions 1.1, 1.2 and 1.3, and returns what it was given.
pub try_new-some :
    (major minor : ℕ) (v : Version)
    → (try_new major minor ≡ some v)
      ↔ ((v ≡ record { major = major; minor = minor }) × (major ≡ 1) × (1 ≤ minor) × (minor ≤ 3))
unfolding try_new
try_new-some major minor v = (λ e. ground arith, λ h. ground arith)

-- The calls that narrow or widen a range, and the range after them: one that is refused changes nothing.
pub data Bound : Type 0 where
  at_least at_most : Version → Bound

pub or_keep : VersionRangeInclusive → RangeResult → VersionRangeInclusive
or_keep r (ok t) = t
or_keep r (err e) = r

pub bounded : List Bound → VersionRangeInclusive → VersionRangeInclusive
bounded [] r = r
bounded (at_least v ∷ bs) r = bounded bs (or_keep r (set_minimum r v))
bounded (at_most v ∷ bs) r = bounded bs (or_keep r (set_maximum r v))

-- The bounds are in order, and both are supported.
IsSupported : VersionRangeInclusive → Type 0
IsSupported r =
    (version_le minimum r.lowest ≡ true)
    × (version_le r.lowest r.highest ≡ true)
    × (version_le r.highest maximum ≡ true)

set_minimum-IsSupported :
    (r : VersionRangeInclusive) (v : Version)
    → IsSupported r
    → IsSupported (or_keep r (set_minimum r v))
unfolding set_minimum or_keep IsSupported
set_minimum-IsSupported r v h = ground arith

set_maximum-IsSupported :
    (r : VersionRangeInclusive) (v : Version)
    → IsSupported r
    → IsSupported (or_keep r (set_maximum r v))
unfolding set_maximum or_keep IsSupported
set_maximum-IsSupported r v h = ground arith

all-IsSupported : IsSupported all
unfolding IsSupported all
all-IsSupported = (refl, refl, refl)

bounded-IsSupported :
    (bs : List Bound) (r : VersionRangeInclusive) → IsSupported r → IsSupported (bounded bs r)
unfolding bounded
bounded-IsSupported [] r h = h
bounded-IsSupported (at_least v ∷ bs) r h =
    bounded-IsSupported bs (or_keep r (set_minimum r v)) (set_minimum-IsSupported r v h)
bounded-IsSupported (at_most v ∷ bs) r h =
    bounded-IsSupported bs (or_keep r (set_maximum r v)) (set_maximum-IsSupported r v h)

supported_versions :
    (r : VersionRangeInclusive) (v : Version)
    → IsSupported r
    → (contains r v ≡ false) ⊎ (try_new v.major v.minor ≡ some v)
unfolding IsSupported contains try_new
supported_versions r v h = elim (Bool-cases (contains r v)) [
  | inl c ↦ inr (ground arith)
  | inr c ↦ inl c
]

supported_ends :
    (r : VersionRangeInclusive)
    → IsSupported r
    → (contains r r.lowest ≡ true) × (contains r r.highest ≡ true)
unfolding IsSupported contains
supported_ends r h = ground arith

-- From the range of all versions, whatever minimums and maximums are set, in whatever order, and
-- whichever of them are refused, the range contains its own two ends, and contains only versions that
-- `try_new` accepts.
pub bounded-supported :
    (bs : List Bound) (v : Version)
    → (contains (bounded bs all) (bounded bs all).lowest ≡ true)
      × (contains (bounded bs all) (bounded bs all).highest ≡ true)
      × ((contains (bounded bs all) v ≡ false) ⊎ (try_new v.major v.minor ≡ some v))
bounded-supported bs v =
    let kept = bounded-IsSupported bs all all-IsSupported in
    let (low, high) = supported_ends (bounded bs all) kept in
    (low, high, supported_versions (bounded bs all) v kept)

-- A version byte is read back, and every other byte as unknown.
pub from_u8-to_u8 : (v : ExpresslaneVersion) → from_u8 (to_u8 v) ≡ v
unfolding from_u8 to_u8
from_u8-to_u8 unknown = refl
from_u8-to_u8 _ = refl

pub negotiate_known : (peer : ExpresslaneVersion) → negotiate_version peer ≢ unknown
unfolding negotiate_version to_u8
negotiate_known unknown e = cc
negotiate_known version1 e = cc
negotiate_known version2 e = cc
