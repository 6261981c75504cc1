-- ===== src/IpManager.antt =====
-- lightway-server/src/ip_manager.rs and lightway-server/src/ip_manager/ip_pool.rs: the addresses that
-- clients are given. An address is a number. Networks are the `ipnet` crate's: a pool is made from the
-- list of a network's hosts, its network and its broadcast address, and a subnet is a test. A hash set
-- is a list without order, a hash map an association list, a queue a list with its front first.
pub mod Pool
pub mod Connections
pub mod Split
pub mod Pools
pub mod States
mod Runs
use lightway.Base.Maps.{find, remove_key, insert_key}
use lightway.Base.{
  ℕ, ◌≡◌, Bool, true, false, not, ◌&&◌, ◌||◌, List, [], ◌∷◌, ◌++◌, Option, none, some, ◌==◌,
  if◌then◌else◌,
}

pub contains : ℕ → List ℕ → Bool
contains ip [] = false
contains ip (x ∷ xs) = x == ip || contains ip xs

pub filter : (ℕ → Bool) → List ℕ → List ℕ
filter p [] = []
filter p (x ∷ xs) = let rest = filter p xs in if p x then x ∷ rest else rest

-- `HashSet::remove`: what is left.
pub remove : ℕ → List ℕ → List ℕ
unfolding filter
remove ip = filter (λ x. not (x == ip))

pub record IpPool : Type 0 where
  pub reserved_ips : List ℕ
  pub allocated_ips : List ℕ
  pub available_ips : List ℕ

-- `hosts`, `network` and `broadcast` are those of the network.
pub new : List ℕ → ℕ → ℕ → List ℕ → IpPool
new hosts network broadcast reserved =
    let reserved_ips = reserved ++ (network ∷ (broadcast ∷ [])) in
    record {
      reserved_ips = reserved_ips;
      allocated_ips = [];
      available_ips = filter (λ ip. not (contains ip reserved_ips)) hosts;
    }

-- `HashSet::insert`.
pub insert : ℕ → List ℕ → List ℕ
insert ip xs = if contains ip xs then xs else ip ∷ xs

-- The front of the queue, if any.
pub allocate_from : List ℕ → IpPool → Option ℕ × IpPool
allocate_from [] pool = (none, pool)
allocate_from (ip ∷ rest) pool =
    (some ip, record pool { available_ips = rest; allocated_ips = insert ip pool.allocated_ips })

pub allocate_ip : IpPool → Option ℕ × IpPool
allocate_ip pool = allocate_from pool.available_ips pool

pub free_ip : ℕ → IpPool → IpPool
free_ip ip pool =
    if contains ip pool.allocated_ips
    then record pool {
      allocated_ips = remove ip pool.allocated_ips;
      available_ips = pool.available_ips ++ (ip ∷ []);
    }
    else pool

-- `rng` stands for the random shuffle of the `rand` crate.
unfoldable pub shuffle_ips : (List ℕ → List ℕ) → IpPool → IpPool
shuffle_ips rng pool = record pool { available_ips = rng pool.available_ips }

-- The pool of the subnet, and what is left.
unfoldable pub split_subnet : (ℕ → Bool) → IpPool → IpPool × IpPool
split_subnet subnet pool =
    let available_ips = filter subnet pool.available_ips in
    (
      record {
        reserved_ips = filter subnet pool.reserved_ips;
        allocated_ips = [];
        available_ips = available_ips;
      },
      record pool {
        available_ips = filter (λ ip. not (contains ip available_ips)) pool.available_ips;
      },
    )

-- `IpManagerInner<T>`; a `RwLock` guards it, so that each operation is one step. A client's
-- configuration is its address here: `InsideIpConfig` has other fields, which are copied.
pub record IpManager (T : Type 0) : Type 0 where
  pub ip_to_conn_map : List (ℕ × T)
  pub ip_map : List (ℕ × IpPool)
  pub ip_pool : IpPool
  pub static_client_ip : ℕ
  pub use_dynamic_client_ip : Bool

-- A pool for each local address, taken out of the pool one after the other.
unfoldable pub split_subnets : List (ℕ × (ℕ → Bool)) → IpPool → List (ℕ × IpPool) × IpPool
split_subnets [] pool = ([], pool)
split_subnets (entry ∷ rest) pool =
    let (part, left) = split_subnet entry.1 pool in
    let (parts, last) = split_subnets rest left in ((entry.0, part) ∷ parts, last)

-- `inner.ip_map.get_mut(&local_ip).unwrap_or(ip_pool)`: the pool, and the manager with it replaced.
pub pool_or : IpPool → Option IpPool → IpPool
pool_or pool none = pool
pool_or pool (some p) = p

module _ {T : Type 0} where
  unfoldable pub manager_of : List (ℕ × IpPool) × IpPool → ℕ → Bool → IpManager T
  manager_of (ip_map, ip_pool) static_client_ip use_dynamic_client_ip = record {
    ip_to_conn_map = [];
    ip_map = ip_map;
    ip_pool = ip_pool;
    static_client_ip = static_client_ip;
    use_dynamic_client_ip = use_dynamic_client_ip;
  }

  -- `IpManager::new`; `hosts`, `network` and `broadcast` are those of the network.
  unfoldable pub new_manager :
      (List ℕ → List ℕ)
      → List ℕ
      → ℕ
      → ℕ
      → List (ℕ × (ℕ → Bool))
      → List ℕ
      → ℕ
      → Bool
      → Bool
      → IpManager T
  unfolding manager_of
  new_manager rng hosts network broadcast ip_map reserved static_client_ip use_dynamic_client_ip
        randomize_ippool =
      let fresh = new hosts network broadcast reserved in
      let pool = if randomize_ippool then shuffle_ips rng fresh else fresh in
      manager_of (split_subnets ip_map pool) static_client_ip use_dynamic_client_ip

  pub pool_for : ℕ → IpManager T → IpPool
  pool_for local_ip m = pool_or m.ip_pool (find local_ip m.ip_map)

  pub put_pool : Option IpPool → ℕ → IpPool → IpManager T → IpManager T
  put_pool none local_ip pool m = record m { ip_pool = pool }
  put_pool (some old) local_ip pool m = record m { ip_map = insert_key local_ip pool m.ip_map }

  pub config_for_ip : ℕ → IpManager T → ℕ
  config_for_ip client_ip m = if m.use_dynamic_client_ip then client_ip else m.static_client_ip

  pub grant : Option ℕ → T → IpManager T → Option (ℕ × ℕ) × IpManager T
  grant none conn m = (none, m)
  grant (some ip) conn m = (
    some (ip, config_for_ip ip m),
    record m { ip_to_conn_map = insert_key ip conn m.ip_to_conn_map },
  )

  pub alloc : T → ℕ → IpManager T → Option (ℕ × ℕ) × IpManager T
  alloc conn local_ip m =
      let done = allocate_ip (pool_for local_ip m) in
      grant done.0 conn (put_pool (find local_ip m.ip_map) local_ip done.1 m)

  pub release : ℕ → ℕ → IpManager T → IpManager T
  release ip local_ip m =
      let freed = put_pool (find local_ip m.ip_map) local_ip (free_ip ip (pool_for local_ip m)) m in
      record freed { ip_to_conn_map = remove_key ip m.ip_to_conn_map }

  pub find_connection : ℕ → IpManager T → Option T
  find_connection ip m = find ip m.ip_to_conn_map
