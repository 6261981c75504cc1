-- ===== src/IpManager/Split.antt =====
-- lightway-server/src/ip_manager/ip_pool.rs: what shuffling and splitting leave of a pool.
use lightway.Base.{
  ℕ, ◌+◌, ◌≡◌, refl, ap, inl, inr, Bool, true, false, not, List, [], ◌∷◌, none, ◌==◌, if◌then◌else◌,
  arith, Bool-cases,
}
use lightway.Base.Maps.{find}
use lightway.Base.Weights.{UniqueKeys, sum}
use lightway.IpManager.{IpPool, contains, filter, shuffle_ips, split_subnet, split_subnets}
use lightway.IpManager.Pool.{count, count-filter, contains-count, held}

-- A subnet and what is left of a pool hold together what the pool held.
held-split_subnet :
    (ip : ℕ) (subnet : ℕ → Bool) (pool : IpPool)
    → held ip (split_subnet subnet pool).0 + held ip (split_subnet subnet pool).1 ≡ held ip pool
unfolding held split_subnet count
held-split_subnet ip subnet pool =
    let inside = filter subnet pool.available_ips in
    let taken = count-filter ip subnet pool.available_ips in
    let has = contains-count ip inside in
    let left = count-filter ip (λ x. not (contains x inside)) pool.available_ips in
    ground (arith, taken, has, left)

pub held-split_subnets :
    (ip : ℕ) (entries : List (ℕ × (ℕ → Bool))) (pool : IpPool)
    → sum (held ip) (split_subnets entries pool).0 + held ip (split_subnets entries pool).1
      ≡ held ip pool
unfolding split_subnets sum
held-split_subnets ip [] pool = omega arith
held-split_subnets ip (entry ∷ rest) pool = omega (
  arith,
  held-split_subnet ip entry.1 pool,
  held-split_subnets ip rest (split_subnet entry.1 pool).1,
)

find-split_subnets :
    (key : ℕ) (entries : List (ℕ × (ℕ → Bool))) (pool : IpPool)
    → find key entries ≡ none
    → find key (split_subnets entries pool).0 ≡ none
unfolding find split_subnets
find-split_subnets key [] pool e = refl
find-split_subnets key (entry ∷ rest) pool e = elim (Bool-cases (entry.0 == key)) [
  | inl same ↦ ground arith
  | inr other ↦ rw other (find-split_subnets key rest (split_subnet entry.1 pool).1 (rw other at e))
]

pub split_subnets-UniqueKeys :
    (entries : List (ℕ × (ℕ → Bool))) (pool : IpPool)
    → UniqueKeys entries
    → UniqueKeys (split_subnets entries pool).0
unfolding split_subnets
split_subnets-UniqueKeys [] pool u = tt
split_subnets-UniqueKeys (entry ∷ rest) pool (absent, u) = (
  find-split_subnets entry.0 rest (split_subnet entry.1 pool).1 absent,
  split_subnets-UniqueKeys rest (split_subnet entry.1 pool).1 u,
)

pub held-shuffle_ips :
    (rng : List ℕ → List ℕ) (randomize : Bool) (pool : IpPool) (ip : ℕ)
    → ((x : ℕ) (xs : List ℕ) → count x (rng xs) ≡ count x xs)
    → held ip (if randomize then shuffle_ips rng pool else pool) ≡ held ip pool
unfolding held shuffle_ips
held-shuffle_ips rng true pool ip shuffles =
    ap (λ (n : ℕ). count ip pool.allocated_ips + n) (shuffles ip pool.available_ips)
held-shuffle_ips rng false pool ip shuffles = refl
