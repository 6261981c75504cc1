-- ===== src/Connection/Staging.antt =====
-- lightway-core/src/connection.rs: the keys of the session through rotation and state changes.
use lightway.Base.{
  ℕ, ◌+◌, ◌%◌, ◌^◌, ◌≡◌, refl, ap, inl, inr, true, false, some, ◌==◌, arith, Bool-cases,
}
use lightway.Versions.{ExpresslaneVersion}
use lightway.Wire.ExpresslaneConfig.{ExpresslaneConfig}
use lightway.Expresslane.Aead.{ExpresslaneKey, ExpresslaneAead, ExpresslaneResult, ok, err}
use lightway.Expresslane.Session.{
  ExpresslaneSession, Keyed, version, set_version, promote, promote_self_key, stage,
  update_next_self_key, self_key, peer_key, key_or_invalid,
}
use lightway.Connection.Types.{ExpresslaneState, degraded, done}
use lightway.Connection.Lane.{
  Lane, state_code, expresslane_supported, set_expresslane_state, share_key, rotate_expresslane_key,
  time_to_rotate_key, offered, succeeded,
}

module _ {A : Type 0} where
  pub next_self-set_version :
      (s : ExpresslaneSession A) (v : ExpresslaneVersion)
      → (set_version s v).0.next_self ≡ s.next_self
  unfolding set_version
  next_self-set_version s v = ground arith

  pub session-set_expresslane_state :
      (l : Lane A) (t : ExpresslaneState)
      → (set_expresslane_state l t).0.expresslane.session ≡ l.expresslane.session
  unfolding set_expresslane_state
  session-set_expresslane_state l t =
      elim (Bool-cases (state_code l.expresslane.state == state_code t)) [
        | inl same ↦ rw same refl
        | inr other ↦ rw other refl
      ]

  pub self_key-promote :
      (s : ExpresslaneSession A) (k : Keyed A)
      → s.next_self ≡ some k
      → self_key (promote_self_key s) ≡ k.key
  unfolding promote_self_key promote self_key key_or_invalid
  self_key-promote s k e = ap (λ o. self_key (promote s o)) e

module _ {A : Type 0} ⦃crypto : ExpresslaneAead A⦄ where
  -- The config that a rotation sends.
  unfoldable pub sent_config : Lane A → ExpresslaneKey → ExpresslaneConfig
  sent_config l key = record {
    version = offered (version (update_next_self_key l.expresslane.session key).0);
    enabled = succeeded (update_next_self_key l.expresslane.session key).1;
    ack = false;
    counter = (l.expresslane.config_counter + 1) % 2 ^ 64;
    key = key.bytes;
  }

  pub rotate_lem :
      (l : Lane A) (key : ExpresslaneKey) (now : ℕ)
      → expresslane_supported l ≡ true
      → (state_code l.expresslane.state == state_code degraded) ≡ false
      → time_to_rotate_key l.expresslane now ≡ true
      → rotate_expresslane_key l key now ≡ (
        (share_key l key
            (succeeded (update_next_self_key l.expresslane.session key).1)
            (some now)).0,
        (share_key l key
            (succeeded (update_next_self_key l.expresslane.session key).1)
            (some now)).1,
        done,
      )
  unfolding rotate_expresslane_key
  rotate_lem l key now sup sound due = rw (sup, sound, due) refl

  pub next_self-stage :
      (s : ExpresslaneSession A) (key : ExpresslaneKey) (a : A)
      → crypto.new key ≡ ok a
      → (update_next_self_key s key).0.next_self ≡ some (record { key = key; aead = a })
  unfolding update_next_self_key stage
  next_self-stage s key a e = ap (λ r. (stage s key r).0.next_self) e

  -- Rotating does not touch the keys in force.
  peer_key-stage :
      (s : ExpresslaneSession A) (key : ExpresslaneKey) (r : ExpresslaneResult A)
      → peer_key (stage s key r).0 ≡ peer_key s
  unfolding stage peer_key
  peer_key-stage s key (err e) = refl
  peer_key-stage s key (ok a) = refl

  pub peer_key-rotate :
      (l : Lane A) (key : ExpresslaneKey) (now : ℕ)
      → peer_key (rotate_expresslane_key l key now).0.expresslane.session
        ≡ peer_key l.expresslane.session
  unfolding rotate_expresslane_key share_key update_next_self_key
  peer_key-rotate l key now = elim (Bool-cases (expresslane_supported l)) [
    | inr un ↦ rw un refl
    | inl sup ↦ elim (Bool-cases (state_code l.expresslane.state == state_code degraded)) [
      | inl d ↦ rw (sup, d) refl
      | inr sound ↦ elim (Bool-cases (time_to_rotate_key l.expresslane now)) [
        | inr early ↦ rw (sup, sound, early) refl
        | inl due ↦ rw (sup, sound, due) (peer_key-stage l.expresslane.session key _)
      ]
    ]
  ]
