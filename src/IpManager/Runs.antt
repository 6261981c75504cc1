-- ===== src/IpManager/Runs.antt =====
-- A pool of four hosts, used by hand, and the theorems there.
use lightway.Base.{
  ℕ, ◌≤◌, ◌≡◌, refl, Bool, true, false, leb, List, [], ◌∷◌, none, some, ◌==◌, if◌then◌else◌, arith,
}
use lightway.Base.Maps.{find}
use lightway.IpManager.{
  IpManager, new, contains, filter, insert, remove, allocate_from, allocate_ip, free_ip, alloc,
  new_manager, release, find_connection, pool_for, pool_or, put_pool, grant, config_for_ip,
}
use lightway.IpManager.Pool.{
  count, capacity, Operation, allocate, free, after, apply, allocate_ip-granted,
}
use lightway.IpManager.Pools.{total, Call, allocated, released, run, total-run-new_manager}
use lightway.IpManager.States.{
  ConnectionState, alloc_state, alloc_for, keep_allocation, free_state, alloc_state-again,
}
use lightway.IpManager.Connections.{alloc-find_connection, release-find_connection}

abbrev hosts : List ℕ
hosts = 11 ∷ 12 ∷ 13 ∷ 14 ∷ []

hosts_once : (x : ℕ) → count x hosts ≤ 1
unfolding count
hosts_once x = ground arith

-- Two clients, of which the first leaves; an address that no client has is given back.
abbrev used : List Operation
used = allocate ∷ allocate ∷ free 12 ∷ free 77 ∷ []

third : (allocate_ip (after used (new hosts 10 15 (11 ∷ [])))).0 ≡ some 14
unfolding allocate_ip allocate_from after apply free_ip new filter contains insert remove
third = refl

allocate_ip-granted_example :
    (count 14 (after used (new hosts 10 15 (11 ∷ []))).allocated_ips ≡ 0)
    × (count 14 (allocate_ip (after used (new hosts 10 15 (11 ∷ [])))).1.allocated_ips ≡ 1)
allocate_ip-granted_example = allocate_ip-granted hosts 10 15 (11 ∷ []) used 14 hosts_once third

abbrev manager : IpManager ℕ
manager = record {
  ip_to_conn_map = [];
  ip_map = [];
  ip_pool = record { reserved_ips = 10 ∷ []; allocated_ips = []; available_ips = 12 ∷ [] };
  static_client_ip = 99;
  use_dynamic_client_ip = false;
}

given : (alloc 500 1 manager).0 ≡ some (12, 99)
unfolding alloc grant pool_for pool_or find allocate_ip allocate_from put_pool config_for_ip
given = refl

alloc-find_connection_example :
    find_connection 12 (alloc 500 1 manager).1
    ≡ (if 12 == 12 then some 500 else find_connection 12 manager)
alloc-find_connection_example = alloc-find_connection 500 1 manager 12 99 12 given

release-find_connection_example :
    find_connection 12 (release 12 1 (alloc 500 1 manager).1)
    ≡ (if 12 == 12 then none else find_connection 12 (alloc 500 1 manager).1)
release-find_connection_example = release-find_connection 12 1 (alloc 500 1 manager).1 12

-- The hosts from 13 on are for clients of local address 1; the pool is not in the order of the hosts.
abbrev subnets : List (ℕ × (ℕ → Bool))
subnets = (1, λ ip. leb 13 ip) ∷ []

swap : List ℕ → List ℕ
swap [] = []
swap (x ∷ []) = x ∷ []
swap (x ∷ (y ∷ xs)) = y ∷ (x ∷ xs)

count-swap : (x : ℕ) (xs : List ℕ) → count x (swap xs) ≡ count x xs
unfolding count swap
count-swap x [] = refl
count-swap x (y ∷ []) = refl
count-swap x (y ∷ (z ∷ xs)) = omega arith

abbrev calls : List (Call ℕ)
calls = allocated 500 1 ∷ allocated 501 2 ∷ released 13 1 ∷ released 13 2 ∷ []

total-run-new_manager_example :
    total 13 (run calls (new_manager swap hosts 10 15 subnets (11 ∷ []) 99 false true))
    ≡ capacity hosts 10 15 (11 ∷ []) 13
unfolding find
total-run-new_manager_example =
    total-run-new_manager swap hosts 10 15 subnets (11 ∷ []) 99 false true calls 13 count-swap
      hosts_once (refl, tt)

abbrev joining : ConnectionState ℕ
joining = record { conn = some 500; internal_ip = none; local_addr = 1 }

configured : (alloc_state joining manager).0 ≡ some 99
unfolding alloc_state alloc_for keep_allocation alloc grant pool_for pool_or find allocate_ip
    allocate_from put_pool config_for_ip
configured = refl

alloc_state-again_example :
    (alloc_state (alloc_state joining manager).1 (alloc_state joining manager).2
      ≡ alloc_state joining manager)
    × (free_state (free_state joining manager).0 (free_state joining manager).1
        ≡ free_state joining manager)
alloc_state-again_example = alloc_state-again joining manager 99 configured
