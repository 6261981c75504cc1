-- ===== src/IpManager/Connections.antt =====
-- The connection of an address, after addresses are given and taken back.
use lightway.Base.{ℕ, ◌≡◌, refl, ap, ◌∙◌, Option, none, some, ◌==◌, if◌then◌else◌, arith}
use lightway.Base.Maps.{find, find-remove_key, find-insert_key}
use lightway.IpManager.{
  IpManager, IpPool, pool_for, put_pool, grant, alloc, release, find_connection, allocate_ip,
}

module _ {T : Type 0} where
  put_pool-connections :
      (o : Option IpPool) (local_ip : ℕ) (pool : IpPool) (m : IpManager T)
      → (put_pool o local_ip pool m).ip_to_conn_map ≡ m.ip_to_conn_map
  unfolding put_pool
  put_pool-connections none local_ip pool m = refl
  put_pool-connections (some old) local_ip pool m = refl

  grant-find :
      (o : Option ℕ) (conn : T) (m : IpManager T) (ip config j : ℕ)
      → (grant o conn m).0 ≡ some (ip, config)
      → find_connection j (grant o conn m).1 ≡ (if ip == j then some conn else find_connection j m)
  unfolding grant find_connection
  grant-find none conn m ip config j e = cc
  grant-find (some given) conn m ip config j e =
      let same : given ≡ ip = ground arith in
      find-insert_key given j conn m.ip_to_conn_map
      ∙ ap (λ t. if t == j then some conn else find j m.ip_to_conn_map) same

  -- The connection that is given an address is the one found under it, and no other address finds
  -- another connection than before.
  pub alloc-find_connection :
      (conn : T) (local_ip : ℕ) (m : IpManager T) (ip config j : ℕ)
      → (alloc conn local_ip m).0 ≡ some (ip, config)
      → find_connection j (alloc conn local_ip m).1
        ≡ (if ip == j then some conn else find_connection j m)
  unfolding alloc find_connection
  alloc-find_connection conn local_ip m ip config j e =
      let done = allocate_ip (pool_for local_ip m) in
      let same = put_pool-connections (find local_ip m.ip_map) local_ip done.1 m in
      grant-find done.0 conn (put_pool (find local_ip m.ip_map) local_ip done.1 m) ip config j e
      ∙ ap (λ t. if ip == j then some conn else find j t) same

  -- An address that is taken back finds no connection, and every other address finds the one that it
  -- found before.
  pub release-find_connection :
      (ip local_ip : ℕ) (m : IpManager T) (j : ℕ)
      → find_connection j (release ip local_ip m) ≡ (if ip == j then none else find_connection j m)
  unfolding release find_connection
  release-find_connection ip local_ip m j = find-remove_key ip j m.ip_to_conn_map
