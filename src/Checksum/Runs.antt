-- ===== src/Checksum/Runs.antt =====
-- Checksums at concrete inputs.
use lightway.Base.{◌<◌, ◌^◌, ◌≡◌, refl, [], ◌∷◌, arith}
use lightway.Checksum.{
  Ipv4Addr, from_ipv4_address, word, update, update_word, sub, overflowing_sub, complement,
}
use lightway.Checksum.Laws.{Verifies, total, update-Verifies, IsWordUpdate}

abbrev private_address : Ipv4Addr
private_address = record { octet0 = 192; octet1 = 168; octet2 = 0; octet3 = 1 }

abbrev public_address : Ipv4Addr
public_address = record { octet0 = 10; octet1 = 125; octet2 = 0; octet3 = 7 }

-- A header from the private address, with its checksum left out.
fits : Verifies (17664 ∷ 60 ∷ 49320 ∷ 1 ∷ 64 ∷ []) 63961
unfolding Verifies total
fits = refl

update-Verifies_example :
    (update 63961 (from_ipv4_address private_address public_address) < 2 ^ 16)
    × Verifies
        (17664 ∷ 60 ∷ 2685 ∷ 7 ∷ 64 ∷ [])
        (update 63961 (from_ipv4_address private_address public_address))
unfolding from_ipv4_address word IsWordUpdate
update-Verifies_example =
    update-Verifies 63961 (from_ipv4_address private_address public_address) (17664 ∷ 60 ∷ [])
      (64 ∷ []) (omega arith) (((omega arith, omega arith)), ((omega arith, omega arith), tt)) fits

abbrev other_address : Ipv4Addr
other_address = record { octet0 = 192; octet1 = 173; octet2 = 0; octet3 = 1 }

-- The update of a checksum can give zero, which in a UDP datagram means that there is none.
update-zero : update 5 (from_ipv4_address private_address other_address) ≡ 0
unfolding update update_word sub overflowing_sub complement from_ipv4_address word
update-zero = refl
