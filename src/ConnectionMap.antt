-- ===== src/ConnectionMap.antt =====
-- lightway-server/src/connection_manager/connection_map.rs: the server's connections by socket address
-- and by session identifier. An address is a number, and so is a session identifier, of 64 bits: `empty`
-- is 0 and `rejected` all ones. A connection is a value with an address and a session of its own; both
-- maps hold it.
pub mod Laws
mod Runs
use lightway.Base.{ℕ, ◌-◌, ◌^◌, ◌||◌, Bool, List, [], Option, none, some, ◌==◌, if◌then◌else◌}
use lightway.Base.Maps.{find, remove_key, insert_key}

pub data InsertError : Type 0 where
  inconsistent_socket_addr insert_reserved_session_id : InsertError

-- The trait `Value`.
pub record Connection (T : Type 0) : Type 0 where
  pub socket_addr : ℕ
  pub session_id : ℕ
  pub value : T

pub is_reserved : ℕ → Bool
is_reserved session = session == 0 || session == 2 ^ 64 - 1

pub record ConnectionMap (T : Type 0) : Type 0 where
  pub by_socket_addr : List (ℕ × Connection T)
  pub by_session_id : List (ℕ × Connection T)

pub data Entry (T : Type 0) : Type 0 where
  occupied : Connection T → Entry T
  vacant : ℕ → Entry T

pub data InsertResult (T : Type 0) : Type 0 where
  ok : ConnectionMap T → InsertResult T
  err : InsertError → InsertResult T

module _ {T : Type 0} where
  pub default : ConnectionMap T
  default = record { by_socket_addr = []; by_session_id = [] }

  pub entry_or : ℕ → Option (Connection T) → Option (Connection T) → Entry T
  entry_or sock (some c) other = occupied c
  entry_or sock none (some c) = occupied c
  entry_or sock none none = vacant sock

  -- A vacant entry remembers the address.
  pub lookup : ℕ → ℕ → ConnectionMap T → Entry T
  lookup sock session m = entry_or sock (find sock m.by_socket_addr) (find session m.by_session_id)

  pub find_by : ℕ → ConnectionMap T → Option (Connection T)
  find_by sock m = find sock m.by_socket_addr

  pub insert : Connection T → ConnectionMap T → InsertResult T
  insert c m =
      if is_reserved c.session_id
      then err insert_reserved_session_id
      else ok (record {
        by_socket_addr = insert_key c.socket_addr c m.by_socket_addr;
        by_session_id = insert_key c.session_id c m.by_session_id;
      })

  -- `VacantEntry::insert`, of the entry of the address `sock`.
  pub insert_vacant : ℕ → Connection T → ConnectionMap T → InsertResult T
  insert_vacant sock c m =
      if sock == c.socket_addr
      then if is_reserved c.session_id
        then err insert_reserved_session_id
        else ok (record {
          by_socket_addr = insert_key sock c m.by_socket_addr;
          by_session_id = insert_key c.session_id c m.by_session_id;
        })
      else err inconsistent_socket_addr

  pub remove : Connection T → ConnectionMap T → ConnectionMap T
  remove c m = record {
    by_socket_addr = remove_key c.socket_addr m.by_socket_addr;
    by_session_id = remove_key c.session_id m.by_session_id;
  }

  -- The value at the key `old`, if any, moves to `new`.
  pub move_key : Option (Connection T) → ℕ → ℕ → List (ℕ × Connection T) → List (ℕ × Connection T)
  move_key none old new entries = entries
  move_key (some c) old new entries = insert_key new c (remove_key old entries)

  pub update_socketaddr_for_connection : ℕ → ℕ → ConnectionMap T → ConnectionMap T
  update_socketaddr_for_connection old_addr new_addr m = record m {
    by_socket_addr = move_key (find old_addr m.by_socket_addr) old_addr new_addr m.by_socket_addr;
  }

  pub update_session_id_for_connection : ℕ → ℕ → ConnectionMap T → ConnectionMap T
  update_session_id_for_connection old new m = record m {
    by_session_id = move_key (find old m.by_session_id) old new m.by_session_id;
  }
