-- ===== src/IpManager/Pools.antt =====
-- Where each address of a manager is: its pool and the pools of its local addresses together.
use lightway.Base.{
  ℕ, ◌+◌, ◌≤◌, ◌≡◌, refl, sym, subst, ◌∙◌, Bool, List, [], ◌∷◌, Option, none, some, if◌then◌else◌,
  arith,
}
use lightway.Base.Maps.{find, insert_key}
use lightway.Base.Weights.{UniqueKeys, insert_key-UniqueKeys, sum, sum-remove_key}
use lightway.IpManager.{
  IpManager, IpPool, new, shuffle_ips, split_subnets, manager_of, new_manager, pool_or, pool_for,
  put_pool, grant, alloc, release, allocate_ip, free_ip,
}
use lightway.IpManager.Split.{held-split_subnets, split_subnets-UniqueKeys, held-shuffle_ips}
use lightway.IpManager.Pool.{
  count, held, IsWellFormed, held-allocate, held-free, capacity, capacity-le, held-new,
}

module _ {T : Type 0} where
  -- How often an address is with a client or in a queue, in any of the pools.
  unfoldable pub total : ℕ → IpManager T → ℕ
  total ip m = held ip m.ip_pool + sum (held ip) m.ip_map

  -- No address is in two places, and no local address has two pools.
  abbrev pub IsSound : IpManager T → Type 0
  IsSound m = ((ip : ℕ) → total ip m ≤ 1) × UniqueKeys m.ip_map

  held-pool_or :
      (o : Option IpPool) (local_ip : ℕ) (m : IpManager T) (ip : ℕ)
      → UniqueKeys m.ip_map
      → find local_ip m.ip_map ≡ o
      → held ip (pool_or m.ip_pool o) ≤ total ip m
  unfolding pool_or total
  held-pool_or none local_ip m ip u e = omega arith
  held-pool_or (some p) local_ip m ip u e =
      omega (arith, sum-remove_key (held ip) local_ip p m.ip_map u e)

  total-put_pool :
      (o : Option IpPool) (local_ip : ℕ) (pool : IpPool) (m : IpManager T) (ip : ℕ)
      → UniqueKeys m.ip_map
      → find local_ip m.ip_map ≡ o
      → held ip pool ≡ held ip (pool_or m.ip_pool o)
      → total ip (put_pool o local_ip pool m) ≡ total ip m
  unfolding pool_or total put_pool insert_key sum
  total-put_pool none local_ip pool m ip u e same = omega arith
  total-put_pool (some p) local_ip pool m ip u e same =
      omega (arith, sum-remove_key (held ip) local_ip p m.ip_map u e)

  put_pool-UniqueKeys :
      (o : Option IpPool) (local_ip : ℕ) (pool : IpPool) (m : IpManager T)
      → UniqueKeys m.ip_map
      → UniqueKeys (put_pool o local_ip pool m).ip_map
  unfolding put_pool
  put_pool-UniqueKeys none local_ip pool m u = u
  put_pool-UniqueKeys (some p) local_ip pool m u = insert_key-UniqueKeys local_ip pool m.ip_map u

  total-grant :
      (o : Option ℕ) (conn : T) (m : IpManager T) (ip : ℕ)
      → total ip (grant o conn m).1 ≡ total ip m
  unfolding grant total
  total-grant none conn m ip = refl
  total-grant (some given) conn m ip = refl

  grant-ip_map : (o : Option ℕ) (conn : T) (m : IpManager T) → (grant o conn m).1.ip_map ≡ m.ip_map
  unfolding grant
  grant-ip_map none conn m = refl
  grant-ip_map (some given) conn m = refl

  pool_for-IsWellFormed :
      (local_ip : ℕ) (m : IpManager T) → IsSound m → IsWellFormed (pool_for local_ip m)
  unfolding pool_for
  pool_for-IsWellFormed local_ip m (once, u) =
      λ x. omega (arith, once x, held-pool_or (find local_ip m.ip_map) local_ip m x u refl)

  total-alloc :
      (conn : T) (local_ip : ℕ) (m : IpManager T) (ip : ℕ)
      → IsSound m
      → total ip (alloc conn local_ip m).1 ≡ total ip m
  unfolding alloc pool_for allocate_ip
  total-alloc conn local_ip m ip sound =
      let pool = pool_for local_ip m in
      let o = find local_ip m.ip_map in
      let left = (allocate_ip pool).1 in
      let same : held ip left ≡ held ip pool =
        held-allocate ip pool.available_ips pool (pool_for-IsWellFormed local_ip m sound) refl in
      total-grant (allocate_ip pool).0 conn (put_pool o local_ip left m) ip
      ∙ total-put_pool o local_ip left m ip sound.1 refl same

  total-release :
      (given local_ip : ℕ) (m : IpManager T) (ip : ℕ)
      → IsSound m
      → total ip (release given local_ip m) ≡ total ip m
  unfolding release pool_for total
  total-release given local_ip m ip sound =
      let pool = pool_for local_ip m in
      let o = find local_ip m.ip_map in
      let same = held-free ip given pool (pool_for-IsWellFormed local_ip m sound) in
      total-put_pool o local_ip (free_ip given pool) m ip sound.1 refl same

-- What connections do with a manager: an address is allocated, or given back.
pub data Call (T : Type 0) : Type 0 where
  allocated : T → ℕ → Call T
  released : ℕ → ℕ → Call T

module _ {T : Type 0} where
  unfoldable pub call : Call T → IpManager T → IpManager T
  call (allocated conn local_ip) m = (alloc conn local_ip m).1
  call (released given local_ip) m = release given local_ip m

  unfoldable pub run : List (Call T) → IpManager T → IpManager T
  run [] m = m
  run (c ∷ cs) m = run cs (call c m)

  total-call :
      (c : Call T) (m : IpManager T) (ip : ℕ) → IsSound m → total ip (call c m) ≡ total ip m
  unfolding call
  total-call (allocated conn local_ip) m ip sound = total-alloc conn local_ip m ip sound
  total-call (released given local_ip) m ip sound = total-release given local_ip m ip sound

  call-UniqueKeys :
      (c : Call T) (m : IpManager T) → UniqueKeys m.ip_map → UniqueKeys (call c m).ip_map
  unfolding call alloc release
  call-UniqueKeys (allocated conn local_ip) m u =
      let done = allocate_ip (pool_for local_ip m) in
      let o = find local_ip m.ip_map in
      subst UniqueKeys (sym (grant-ip_map done.0 conn (put_pool o local_ip done.1 m)))
        (put_pool-UniqueKeys o local_ip done.1 m u)
  call-UniqueKeys (released given local_ip) m u =
      put_pool-UniqueKeys (find local_ip m.ip_map) local_ip (free_ip given (pool_for local_ip m)) m
        u

  call-IsSound : (c : Call T) (m : IpManager T) → IsSound m → IsSound (call c m)
  call-IsSound c m sound =
      (λ x. rw (total-call c m x sound) (sound.0 x), call-UniqueKeys c m sound.1)

  total-run :
      (cs : List (Call T)) (m : IpManager T) (ip : ℕ) → IsSound m → total ip (run cs m) ≡ total ip m
  unfolding run
  total-run [] m ip sound = refl
  total-run (c ∷ cs) m ip sound =
      total-run cs (call c m) ip (call-IsSound c m sound) ∙ total-call c m ip sound

total-manager_of :
    (T : Type 0) (parts : List (ℕ × IpPool) × IpPool) (static_client_ip : ℕ) (dynamic : Bool)
    (ip : ℕ)
    → total ip (manager_of {T = T} parts static_client_ip dynamic)
      ≡ sum (held ip) parts.0 + held ip parts.1
unfolding manager_of total
total-manager_of T (parts, last) static_client_ip dynamic ip = omega arith

total-new_manager :
    (T : Type 0) (rng : List ℕ → List ℕ) (hosts : List ℕ) (network broadcast : ℕ)
    (ip_map : List (ℕ × (ℕ → Bool))) (reserved : List ℕ) (static_client_ip : ℕ)
    (dynamic randomize : Bool) (ip : ℕ)
    → ((x : ℕ) (xs : List ℕ) → count x (rng xs) ≡ count x xs)
    → total ip (
        new_manager {T = T} rng hosts network broadcast ip_map reserved static_client_ip dynamic
          randomize)
      ≡ capacity hosts network broadcast reserved ip
unfolding new_manager
total-new_manager T rng hosts network broadcast ip_map reserved static_client_ip dynamic randomize
      ip shuffles =
    let fresh = new hosts network broadcast reserved in
    let pool = if randomize then shuffle_ips rng fresh else fresh in
    total-manager_of T (split_subnets ip_map pool) static_client_ip dynamic ip
    ∙ held-split_subnets ip ip_map pool
    ∙ held-shuffle_ips rng randomize fresh ip shuffles
    ∙ held-new hosts network broadcast reserved ip

new_manager-UniqueKeys :
    (T : Type 0) (rng : List ℕ → List ℕ) (hosts : List ℕ) (network broadcast : ℕ)
    (ip_map : List (ℕ × (ℕ → Bool))) (reserved : List ℕ) (static_client_ip : ℕ)
    (dynamic randomize : Bool)
    → UniqueKeys ip_map
    → UniqueKeys
        (new_manager {T = T} rng hosts network broadcast ip_map reserved static_client_ip dynamic
          randomize).ip_map
unfolding new_manager manager_of
new_manager-UniqueKeys T rng hosts network broadcast ip_map reserved static_client_ip dynamic
      randomize u =
    let fresh = new hosts network broadcast reserved in
    split_subnets-UniqueKeys ip_map (if randomize then shuffle_ips rng fresh else fresh) u

module _ {T : Type 0} where
  -- From a new manager on, whatever subnets are split off its pool for local addresses, each of which
  -- occurs once, whether or not the pool is shuffled, and whatever addresses are allocated and given
  -- back under whatever local addresses: each host of the network, among which none repeats, that is
  -- not reserved, as its network and broadcast addresses are, is, once, with a client or in a queue of
  -- one of the pools, and no other address is. A shuffle keeps what a list holds.
  pub total-run-new_manager :
      (rng : List ℕ → List ℕ) (hosts : List ℕ) (network broadcast : ℕ)
      (ip_map : List (ℕ × (ℕ → Bool))) (reserved : List ℕ) (static_client_ip : ℕ)
      (dynamic randomize : Bool) (cs : List (Call T)) (ip : ℕ)
      → ((x : ℕ) (xs : List ℕ) → count x (rng xs) ≡ count x xs)
      → ((x : ℕ) → count x hosts ≤ 1)
      → UniqueKeys ip_map
      → total ip (
          run cs (
            new_manager rng hosts network broadcast ip_map reserved static_client_ip dynamic
              randomize))
        ≡ capacity hosts network broadcast reserved ip
  total-run-new_manager rng hosts network broadcast ip_map reserved static_client_ip dynamic
        randomize cs ip shuffles once u =
      let m : IpManager T =
        new_manager rng hosts network broadcast ip_map reserved static_client_ip dynamic
          randomize in
      let has = λ (x : ℕ).
        total-new_manager T rng hosts network broadcast ip_map reserved static_client_ip dynamic
          randomize x shuffles in
      let sound : IsSound m = (
        λ x. omega (arith, has x, once x, capacity-le hosts network broadcast reserved x),
        new_manager-UniqueKeys T rng hosts network broadcast ip_map reserved static_client_ip
            dynamic randomize u,
      ) in
      total-run cs m ip sound ∙ has ip
