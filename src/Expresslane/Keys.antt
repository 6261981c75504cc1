-- ===== src/Expresslane/Keys.antt =====
-- lightway-expresslane/src/session.rs: the flags that stand for the keys.
use lightway.Base.{
  ℕ, ◌≡◌, refl, inl, inr, Bool, not, ◌&&◌, List, [], ◌∷◌, Option, none, some, ltb, Bool-cases,
  length,
}
use lightway.Versions.{ExpresslaneVersion}
use lightway.Wire.BigEndian.{BigEndian}
use lightway.Replay.{commit}
use lightway.Expresslane.Aead.{
  ExpresslaneKey, ExpresslaneAead, ExpresslaneResult, ok, err, is_invalid, same_bytes,
}
use lightway.Expresslane.Session.{
  ExpresslaneSession, Keyed, new, set_version, promote, promote_self_key, stage, install,
  update_next_self_key, update_peer_key, reserve_counter, accept, self_key, peer_key,
  has_valid_keys, key_or_invalid, max_plaintext,
}
use lightway.Expresslane.Packets.{append_to_wire}
use lightway.Expresslane.Histories.{
  Call, step, run, call_set_version, call_update_next_self_key, call_update_peer_key,
  call_promote_self_key, call_reserve_counter, call_append_to_wire, call_try_from_wire,
  call_decrypt_into, try_from_wire-keeps, decrypt_into-keeps,
}

-- Each flag tells whether the current key of its direction is a real one.
record FlagsAgree {A : Type 0} (s : ExpresslaneSession A) : Type 0 where
  on_self : s.has_self ≡ not (is_invalid (self_key s))
  on_peer : s.has_peer ≡ not (is_invalid (peer_key s))

module _ {A : Type 0} where
  new-FlagsAgree : (v : ExpresslaneVersion) → FlagsAgree {A = A} (new v)
  unfolding new self_key peer_key key_or_invalid is_invalid same_bytes
  new-FlagsAgree v = record { on_self = refl; on_peer = refl }

  set_version-FlagsAgree :
      (s : ExpresslaneSession A) (v : ExpresslaneVersion)
      → FlagsAgree s
      → FlagsAgree (set_version s v).0
  unfolding set_version self_key peer_key
  set_version-FlagsAgree s v f = elim (Bool-cases (ltb 0 s.wire_counter)) [
    | inl sent ↦ rw sent f
    | inr unsent ↦ rw unsent (record { on_self = f.on_self; on_peer = f.on_peer })
  ]

  promote-FlagsAgree :
      (s : ExpresslaneSession A) (o : Option (Keyed A)) → FlagsAgree s → FlagsAgree (promote s o)
  unfolding promote self_key peer_key key_or_invalid
  promote-FlagsAgree s none f = f
  promote-FlagsAgree s (some next) f = record { on_self = refl; on_peer = f.on_peer }

  reserve_counter-FlagsAgree :
      (s : ExpresslaneSession A) → FlagsAgree s → FlagsAgree (reserve_counter s).0
  unfolding reserve_counter self_key peer_key
  reserve_counter-FlagsAgree s f = record { on_self = f.on_self; on_peer = f.on_peer }

  accept-FlagsAgree : (s : ExpresslaneSession A) (c : ℕ) → FlagsAgree s → FlagsAgree (accept s c).0
  unfolding accept self_key peer_key
  accept-FlagsAgree s c f = elim (Bool-cases (commit s.replay c).1) [
    | inl fresh ↦ rw fresh (record { on_self = f.on_self; on_peer = f.on_peer })
    | inr stale ↦ rw stale (record { on_self = f.on_self; on_peer = f.on_peer })
  ]

module _ {A : Type 0} ⦃crypto : ExpresslaneAead A⦄ where
  stage-FlagsAgree :
      (s : ExpresslaneSession A) (key : ExpresslaneKey) (r : ExpresslaneResult A)
      → FlagsAgree s
      → FlagsAgree (stage s key r).0
  unfolding stage self_key peer_key
  stage-FlagsAgree s key (err e) f = f
  stage-FlagsAgree s key (ok aead) f = record { on_self = f.on_self; on_peer = f.on_peer }

  install-FlagsAgree :
      (s : ExpresslaneSession A) (key : ExpresslaneKey) (r : ExpresslaneResult A)
      → FlagsAgree s
      → FlagsAgree (install s key r).0
  unfolding install self_key peer_key key_or_invalid
  install-FlagsAgree s key (err e) f = f
  install-FlagsAgree s key (ok aead) f = record { on_self = f.on_self; on_peer = refl }

module _ {A : Type 0} ⦃crypto : ExpresslaneAead A⦄ ⦃be : BigEndian⦄ where
  append_to_wire-FlagsAgree :
      (s : ExpresslaneSession A) (buf session_id plaintext iv : List ℕ) (is_encoded : Bool)
      → FlagsAgree s
      → FlagsAgree (append_to_wire s buf session_id plaintext iv is_encoded).0
  unfolding append_to_wire
  append_to_wire-FlagsAgree s buf session_id plaintext iv is_encoded f =
      elim (Bool-cases (ltb max_plaintext (length plaintext))) [
        | inl large ↦ rw large f
        | inr fits ↦ rw fits (reserve_counter-FlagsAgree s f)
      ]

  step-FlagsAgree :
      (s : ExpresslaneSession A) (call : Call) → FlagsAgree s → FlagsAgree (step s call)
  unfolding step update_next_self_key update_peer_key promote_self_key
  step-FlagsAgree s (call_set_version v) f = set_version-FlagsAgree s v f
  step-FlagsAgree s (call_update_next_self_key key) f = stage-FlagsAgree s key _ f
  step-FlagsAgree s (call_update_peer_key key) f = install-FlagsAgree s key _ f
  step-FlagsAgree s call_promote_self_key f = promote-FlagsAgree s s.next_self f
  step-FlagsAgree s call_reserve_counter f = reserve_counter-FlagsAgree s f
  step-FlagsAgree s (call_append_to_wire session_id plaintext iv is_encoded) f =
      append_to_wire-FlagsAgree s [] session_id plaintext iv is_encoded f
  step-FlagsAgree s (call_try_from_wire buf session_id) f =
      try_from_wire-keeps FlagsAgree s f (λ c. accept-FlagsAgree s c f) buf session_id
  step-FlagsAgree s (call_decrypt_into session_id wire_packet out) f =
      decrypt_into-keeps FlagsAgree s f (λ c. accept-FlagsAgree s c f) session_id wire_packet out

  run-FlagsAgree :
      (s : ExpresslaneSession A) (calls : List Call) → FlagsAgree s → FlagsAgree (run s calls)
  unfolding run
  run-FlagsAgree s [] f = f
  run-FlagsAgree s (call ∷ calls) f = run-FlagsAgree (step s call) calls (step-FlagsAgree s call f)

module _ (A : Type 0) ⦃crypto : ExpresslaneAead A⦄ ⦃be : BigEndian⦄ where
  -- Whatever is called on a new session, `has_valid_keys` answers whether the current keys of both
  -- directions are real ones, neither missing nor the all-zero sentinel.
  pub run-has_valid_keys :
      (v : ExpresslaneVersion) (calls : List Call)
      → has_valid_keys (run (new {A = A} v) calls)
        ≡ not (is_invalid (self_key (run (new {A = A} v) calls)))
          && not (is_invalid (peer_key (run (new {A = A} v) calls)))
  unfolding has_valid_keys
  run-has_valid_keys v calls =
      let f = run-FlagsAgree (new {A = A} v) calls (new-FlagsAgree v) in cc (f.on_self, f.on_peer)
