-- ===== src/IpManager/States.antt =====
-- lightway-server/src/ip_manager.rs: the pool as a connection sees it, `ServerIpPool for IpManager`. The
-- weak handle that `conn` holds is set when a connection is made; `conn` here is what it upgrades to.
-- `local_addr` is its IP address; the ticker and the address of the peer play no part.
use lightway.Base.{ℕ, ◌≡◌, refl, Option, none, some, arith}
use lightway.Base.Maps.{find}
use lightway.IpManager.{
  IpManager, config_for_ip, put_pool, grant, alloc, release, pool_for, allocate_ip,
}

pub record ConnectionState (T : Type 0) : Type 0 where
  pub conn : Option T
  pub internal_ip : Option ℕ
  pub local_addr : ℕ

module _ {T : Type 0} where
  unfoldable pub inside_ip_config : ℕ → IpManager T → ℕ
  inside_ip_config ip m = config_for_ip ip m

  -- The address that was allocated becomes the connection's.
  unfoldable pub keep_allocation :
      ConnectionState T → Option (ℕ × ℕ) × IpManager T → Option ℕ × ConnectionState T × IpManager T
  keep_allocation s (none, m) = (none, s, m)
  keep_allocation s (some (allocation, config), m) =
      (some config, record s { internal_ip = some allocation }, m)

  unfoldable pub alloc_for :
      Option T
      → Option ℕ
      → ConnectionState T
      → IpManager T
      → Option ℕ × ConnectionState T × IpManager T
  unfolding inside_ip_config keep_allocation
  alloc_for none internal_ip s m = (none, s, m)
  alloc_for (some conn) (some ip) s m = (some (inside_ip_config ip m), s, m)
  alloc_for (some conn) none s m = keep_allocation s (alloc conn s.local_addr m)

  -- `alloc` of the trait.
  unfoldable pub alloc_state :
      ConnectionState T → IpManager T → Option ℕ × ConnectionState T × IpManager T
  unfolding alloc_for
  alloc_state s m = alloc_for s.conn s.internal_ip s m

  unfoldable pub free_for :
      Option ℕ → ConnectionState T → IpManager T → ConnectionState T × IpManager T
  free_for none s m = (s, m)
  free_for (some ip) s m = (record s { internal_ip = none }, release ip s.local_addr m)

  -- `free` of the trait.
  unfoldable pub free_state : ConnectionState T → IpManager T → ConnectionState T × IpManager T
  unfolding free_for
  free_state s m = free_for s.internal_ip s m

  grant-config :
      (o : Option ℕ) (conn : T) (m : IpManager T) (ip config : ℕ)
      → (grant o conn m).0 ≡ some (ip, config)
      → config_for_ip ip (grant o conn m).1 ≡ config
  unfolding grant config_for_ip
  grant-config none conn m ip config e = cc
  grant-config (some given) conn m ip config e = ground arith

  alloc-config :
      (conn : T) (local_ip : ℕ) (m : IpManager T) (ip config : ℕ)
      → (alloc conn local_ip m).0 ≡ some (ip, config)
      → config_for_ip ip (alloc conn local_ip m).1 ≡ config
  unfolding alloc
  alloc-config conn local_ip m ip config e =
      let done = allocate_ip (pool_for local_ip m) in
      grant-config done.0 conn (put_pool (find local_ip m.ip_map) local_ip done.1 m) ip config e

  kept_again :
      (conn : T) (s : ConnectionState T) (allocated : Option (ℕ × ℕ) × IpManager T) (config : ℕ)
      → s.conn ≡ some conn
      → ((ip c : ℕ) → allocated.0 ≡ some (ip, c) → config_for_ip ip allocated.1 ≡ c)
      → (keep_allocation s allocated).0 ≡ some config
      → alloc_state (keep_allocation s allocated).1 (keep_allocation s allocated).2
        ≡ keep_allocation s allocated
  unfolding keep_allocation alloc_state alloc_for inside_ip_config
  kept_again conn s (none, m) config is same e = cc
  kept_again conn s (some (ip, c), m) config is same e = rw (is, same ip c refl) refl

  again :
      (o : Option T) (i : Option ℕ) (s : ConnectionState T) (m : IpManager T) (config : ℕ)
      → s.conn ≡ o
      → s.internal_ip ≡ i
      → (alloc_for o i s m).0 ≡ some config
      → alloc_state (alloc_for o i s m).1 (alloc_for o i s m).2 ≡ alloc_for o i s m
  unfolding alloc_state alloc_for
  again none i s m config is has e = cc
  again (some conn) (some ip) s m config is has e = rw (is, has) refl
  again (some conn) none s m config is has e =
      kept_again conn s (alloc conn s.local_addr m) config is (alloc-config conn s.local_addr m) e

  free_once :
      (i : Option ℕ) (s : ConnectionState T) (m : IpManager T)
      → s.internal_ip ≡ i
      → free_state (free_for i s m).0 (free_for i s m).1 ≡ free_for i s m
  unfolding free_state free_for
  free_once none s m is = rw is refl
  free_once (some ip) s m is = refl

  -- Once a connection has been given a configuration, asking again gives it the same one, and changes
  -- neither the connection's state nor the manager; and giving its address back a second time changes
  -- neither.
  pub alloc_state-again :
      (s : ConnectionState T) (m : IpManager T) (config : ℕ)
      → (alloc_state s m).0 ≡ some config
      → (alloc_state (alloc_state s m).1 (alloc_state s m).2 ≡ alloc_state s m)
        × (free_state (free_state s m).0 (free_state s m).1 ≡ free_state s m)
  unfolding alloc_state free_state
  alloc_state-again s m config e =
      (again s.conn s.internal_ip s m config refl refl e, free_once s.internal_ip s m refl)
