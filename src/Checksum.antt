-- ===== src/Checksum.antt =====
-- lightway-core/src/utils.rs: the incremental update of a packet's checksum. The packets themselves
-- belong to the `pnet_packet` crate; a `u16` is a number below 2^16.
pub mod Laws
mod Runs
use lightway.Base.{ℕ, ◌+◌, ◌-◌, ◌*◌, ◌^◌, ◌<◌, Bool, ltb, if◌then◌else◌, List, [], ◌∷◌}

-- The octets of an `Ipv4Addr`.
pub record Ipv4Addr : Type 0 where
  pub octet0 : ℕ
  pub octet1 : ℕ
  pub octet2 : ℕ
  pub octet3 : ℕ

pub record WordUpdate : Type 0 where
  pub old_word : ℕ
  pub new_word : ℕ

abbrev pub ChecksumUpdate : Type 0
ChecksumUpdate = List WordUpdate

-- `u16::overflowing_sub`: the difference modulo 2^16, and whether it wrapped.
unfoldable pub overflowing_sub : ℕ → ℕ → ℕ × Bool
overflowing_sub a b = ((if ltb a b then 2 ^ 16 + a - b else a - b), ltb a b)

-- `Sub<u16> for Checksum`.
unfoldable pub sub : ℕ → ℕ → ℕ
sub checksum rhs = let (n, of) = overflowing_sub checksum rhs in if of then n - 1 else n

-- `!w` of a 16-bit word.
unfoldable pub complement : ℕ → ℕ
complement w = 2 ^ 16 - 1 - w

unfoldable pub update_word : ℕ → ℕ → ℕ → ℕ
update_word checksum old_word new_word = sub (sub checksum (complement old_word)) new_word

unfoldable pub update : ℕ → ChecksumUpdate → ℕ
update checksum [] = checksum
update checksum (x ∷ updates) = update (update_word checksum x.old_word x.new_word) updates

-- `u16::from_be_bytes`.
unfoldable pub word : ℕ → ℕ → ℕ
word high low = high * 256 + low

unfoldable pub from_ipv4_address : Ipv4Addr → Ipv4Addr → ChecksumUpdate
from_ipv4_address old new =
    record { old_word = word old.octet0 old.octet1; new_word = word new.octet0 new.octet1 }
    ∷ record { old_word = word old.octet2 old.octet3; new_word = word new.octet2 new.octet3 }
    ∷ []

unfoldable pub from_port : ℕ → ℕ → ChecksumUpdate
from_port old new = record { old_word = old; new_word = new } ∷ []
