-- ===== src/ConnectionMap/Runs.antt =====
-- A connection that floats to another address and changes its session, and the theorems there.
use lightway.Base.{ℕ, ◌≡◌, refl, [], ◌∷◌, none, some, ◌==◌, if◌then◌else◌}
use lightway.Base.Maps.{find, remove_key, insert_key}
use lightway.ConnectionMap.{
  Connection, ConnectionMap, ok, is_reserved, default, lookup, occupied, find_by, insert,
  update_socketaddr_for_connection, update_session_id_for_connection,
}
use lightway.ConnectionMap.Laws.{find-update_session_id, find_by-update_socketaddr, lookup-insert}

abbrev client : Connection ℕ
client = record { socket_addr = 5; session_id = 77; value = 1 }

abbrev one_client : ConnectionMap ℕ
one_client = record { by_socket_addr = (5, client) ∷ []; by_session_id = (77, client) ∷ [] }

client_inserted : insert client default ≡ ok one_client
unfolding insert is_reserved default insert_key remove_key
client_inserted = refl

client_at_5 : find_by 5 one_client ≡ some client
unfolding find_by find
client_at_5 = refl

client_of_77 : find 77 one_client.by_session_id ≡ some client
unfolding find
client_of_77 = refl

nobody_at_6 : find_by 6 one_client ≡ none
unfolding find_by find
nobody_at_6 = refl

lookup-insert_example :
    (lookup 5 3 one_client ≡ occupied client) × (lookup 6 77 one_client ≡ occupied client)
lookup-insert_example = lookup-insert client default one_client 6 3 client_inserted nobody_at_6

find_by-update_socketaddr_example :
    find_by 6 (update_socketaddr_for_connection 5 6 one_client)
    ≡ (if 6 == 6 then some client else if 5 == 6 then none else find_by 6 one_client)
find_by-update_socketaddr_example = find_by-update_socketaddr 5 6 6 client one_client client_at_5

find-update_session_id_example :
    find 77 (update_session_id_for_connection 77 78 one_client).by_session_id ≡ (
      if 78 == 77 then some client else if 77 == 77 then none else find 77 one_client.by_session_id)
find-update_session_id_example = find-update_session_id 77 78 77 client one_client client_of_77
