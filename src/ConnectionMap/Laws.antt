-- ===== src/ConnectionMap/Laws.antt =====
-- What the two indexes find after a connection is inserted, removed or moved.
use lightway.Base.{
  ℕ, ◌≡◌, refl, sym, ap, ◌∙◌, inl, inr, true, List, Option, none, some, ◌==◌, if◌then◌else◌, arith,
  Bool-cases,
}
use lightway.Base.Maps.{find, remove_key, insert_key, find-remove_key, find-insert_key}
use lightway.ConnectionMap.{
  Connection, ConnectionMap, InsertResult, ok, is_reserved, lookup, entry_or, occupied, find_by,
  insert, move_key, update_socketaddr_for_connection, update_session_id_for_connection,
}

module _ {T : Type 0} where
  ok-inj : {m n : ConnectionMap T} → InsertResult.ok m ≡ ok n → m ≡ n
  ok-inj e = ground arith

  find-move_key :
      (o : Option (Connection T)) (c : Connection T) (old new j : ℕ)
      (entries : List (ℕ × Connection T))
      → o ≡ some c
      → find j (move_key o old new entries)
        ≡ (if new == j then some c else if old == j then none else find j entries)
  unfolding move_key
  find-move_key none c old new j entries e = cc
  find-move_key (some d) c old new j entries e = elim (Bool-cases (new == j)) [
    | inl same ↦ find-insert_key new j d (remove_key old entries) ∙ rw same e
    | inr other ↦
        find-insert_key new j d (remove_key old entries) ∙ rw other (find-remove_key old j entries)
  ]

  -- A connection that is found under the old session identifier is, once that is moved, found under the
  -- new one and, unless it is the same, under the old one no longer; every other identifier finds what
  -- it found before.
  pub find-update_session_id :
      (old new j : ℕ) (c : Connection T) (m : ConnectionMap T)
      → find old m.by_session_id ≡ some c
      → find j (update_session_id_for_connection old new m).by_session_id
        ≡ (if new == j then some c else if old == j then none else find j m.by_session_id)
  unfolding update_session_id_for_connection
  find-update_session_id old new j c m e =
      find-move_key (find old m.by_session_id) c old new j m.by_session_id e

  -- A connection that is found at the old address is, once the address is moved, found at the new one
  -- and, unless it is the same, at the old one no longer; every other address finds what it found before.
  pub find_by-update_socketaddr :
      (old new j : ℕ) (c : Connection T) (m : ConnectionMap T)
      → find_by old m ≡ some c
      → find_by j (update_socketaddr_for_connection old new m)
        ≡ (if new == j then some c else if old == j then none else find_by j m)
  unfolding update_socketaddr_for_connection find_by
  find_by-update_socketaddr old new j c m e =
      find-move_key (find old m.by_socket_addr) c old new j m.by_socket_addr e

  inserted :
      (c : Connection T) (m n : ConnectionMap T)
      → insert c m ≡ ok n
      → (find c.socket_addr n.by_socket_addr ≡ some c)
        × (find c.session_id n.by_session_id ≡ some c)
  unfolding insert
  inserted c m n e = elim (Bool-cases (is_reserved c.session_id)) [
    | inl reserved ↦ let e' = rw reserved at e in cc
    | inr free ↦
        let made : ConnectionMap T = record {
          by_socket_addr = insert_key c.socket_addr c m.by_socket_addr;
          by_session_id = insert_key c.session_id c m.by_session_id;
        } in
        let is : made ≡ n = ok-inj (rw free at e) in
        let addr_self : (c.socket_addr == c.socket_addr) ≡ true = ground arith in
        let session_self : (c.session_id == c.session_id) ≡ true = ground arith in
        (
          ap (λ t. find c.socket_addr t.by_socket_addr) (sym is)
              ∙ find-insert_key c.socket_addr c.socket_addr c m.by_socket_addr
              ∙ rw addr_self refl,
          ap (λ t. find c.session_id t.by_session_id) (sym is)
              ∙ find-insert_key c.session_id c.session_id c m.by_session_id
              ∙ rw session_self refl,
        )
  ]

  -- A connection that was inserted is what a lookup finds: by its address with any session identifier,
  -- and by its identifier with any address that is not in the map.
  pub lookup-insert :
      (c : Connection T) (m n : ConnectionMap T) (sock session : ℕ)
      → insert c m ≡ ok n
      → find_by sock n ≡ none
      → (lookup c.socket_addr session n ≡ occupied c) × (lookup sock c.session_id n ≡ occupied c)
  unfolding lookup entry_or find_by
  lookup-insert c m n sock session e unknown =
      let (by_addr, by_session) = inserted c m n e in
      (
        ap (λ o. entry_or c.socket_addr o (find session n.by_session_id)) by_addr,
        ap (λ o. entry_or sock o (find c.session_id n.by_session_id)) unknown
            ∙ ap (λ o. entry_or sock none o) by_session,
      )
