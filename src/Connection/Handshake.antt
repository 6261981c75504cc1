-- ===== src/Connection/Handshake.antt =====
-- lightway-core/src/connection.rs: a key of the express lane on its way to the peer and back.
use lightway.Base.{
  ℕ, ◌≡◌, refl, ap, sym, ◌∙◌, inl, inr, true, false, not, ◌&&◌, List, [], ◌∷◌, if◌then◌else◌, some,
  ◌==◌, arith, Bool-cases,
}
use lightway.Versions.{ExpresslaneVersion, to_u8, negotiate_version}
use lightway.Wire.ExpresslaneConfig.{ExpresslaneConfig}
use lightway.Expresslane.Aead.{ExpresslaneKey, ExpresslaneAead, ok}
use lightway.Expresslane.Session.{
  ExpresslaneSession, Keyed, version, promote_self_key, stage, update_next_self_key, install,
  update_peer_key, self_key, peer_key, key_or_invalid, has_valid_keys,
}
use lightway.Connection.Types.{degraded, active, inactive, waiting_for_client, is_online}
use lightway.Connection.Lane.{
  Lane, Effect, send_config, schedule_key_share_tick, state_code, expresslane_supported,
  set_expresslane_state, share_key, rotate_expresslane_key, time_to_rotate_key,
  retransmit_wait_time, succeeded,
}
use lightway.Connection.Configs.{
  acknowledged, negotiated, answer, installed, peer_config, handle_expresslane_config,
}
use lightway.Connection.Staging.{
  next_self-set_version, session-set_expresslane_state, self_key-promote, sent_config, rotate_lem,
  next_self-stage, peer_key-rotate,
}

module _ {A : Type 0} ⦃crypto : ExpresslaneAead A⦄ where
  -- An acknowledgement of the last config puts the staged key in force.
  self_key-acknowledged :
      (l : Lane A) (config : ExpresslaneConfig) (k : Keyed A)
      → config.counter ≡ l.expresslane.config_counter
      → l.expresslane.session.next_self ≡ some k
      → self_key (acknowledged l config).0.expresslane.session ≡ k.key
  unfolding acknowledged
  self_key-acknowledged l config k counted staged =
      let x = l.expresslane in
      let last : (config.counter == x.config_counter) ≡ true = ground (arith, counted) in
      let promoted = promote_self_key x.session in
      let key = self_key-promote x.session k staged in
      let l' = record l { expresslane = record x { session = promoted; retransmit_count = 0 } } in
      elim (Bool-cases
        (not (state_code x.state == state_code degraded) && has_valid_keys promoted)) [
          | inl ready ↦
              rw (last, ready) (ap self_key (session-set_expresslane_state l' active) ∙ key)
          | inr not_ready ↦ rw (last, not_ready) key
        ]

  next_self-negotiated :
      (l : Lane A) (offer : ExpresslaneVersion)
      → (negotiated l offer).expresslane.session.next_self ≡ l.expresslane.session.next_self
  unfolding negotiated
  next_self-negotiated l offer =
      let v = negotiate_version offer in
      elim (Bool-cases (to_u8 v == to_u8 (version l.expresslane.session))) [
        | inl same ↦ rw same refl
        | inr other ↦ rw other (next_self-set_version l.expresslane.session v)
      ]

  config_counter-negotiated :
      (l : Lane A) (offer : ExpresslaneVersion)
      → (negotiated l offer).expresslane.config_counter ≡ l.expresslane.config_counter
  unfolding negotiated
  config_counter-negotiated l offer = ground arith

  code-negotiated :
      (l : Lane A) (offer : ExpresslaneVersion)
      → state_code (negotiated l offer).expresslane.state ≡ state_code l.expresslane.state
  unfolding negotiated
  code-negotiated l offer = ground arith

  -- A peer that takes part installs the key that it is sent.
  peer_key-installed :
      (l : Lane A) (effects : List Effect) (config : ExpresslaneConfig) (fresh : ExpresslaneKey)
      (now : ℕ) (s : ExpresslaneSession A)
      → peer_key (installed l effects config fresh now (s, ok tt)).0.expresslane.session
        ≡ peer_key s
  unfolding installed answer
  peer_key-installed l effects config fresh now s =
      let l' = record l { expresslane = record l.expresslane { session = s } } in
      let ready = (set_expresslane_state l' active).0 in
      elim (Bool-cases (has_valid_keys s)) [
        | inl valid ↦ rw valid (
            peer_key-rotate ready fresh now ∙ ap peer_key (session-set_expresslane_state l' active))
        | inr other ↦ rw other (peer_key-rotate l' fresh now)
      ]

  peer_key-peer_config :
      (l : Lane A) (config : ExpresslaneConfig) (fresh : ExpresslaneKey) (now : ℕ) (a : A)
      → config.enabled ≡ true
      → crypto.new (record { bytes = config.key }) ≡ ok a
      → peer_key (peer_config l config fresh now).0.expresslane.session
        ≡ record { bytes = config.key }
  unfolding peer_config update_peer_key install peer_key key_or_invalid
  peer_key-peer_config l config fresh now a on built =
      let waiting = state_code l.expresslane.state == state_code waiting_for_client in
      let begun = if waiting then set_expresslane_state l inactive else (l, []) in
      let key : ExpresslaneKey = record { bytes = config.key } in
      simp on (
        ap
          (λ r.
            peer_key
              (installed begun.0 begun.1 config fresh now
                (install begun.0.expresslane.session key r)).0.expresslane.session)
          built
        ∙ peer_key-installed begun.0 begun.1 config fresh now _)

  peer_key-handle :
      (l : Lane A) (config : ExpresslaneConfig) (fresh : ExpresslaneKey) (now : ℕ) (a : A)
      → is_online l.state ≡ true
      → (state_code l.expresslane.state == state_code degraded) ≡ false
      → config.ack ≡ false
      → config.enabled ≡ true
      → crypto.new (record { bytes = config.key }) ≡ ok a
      → peer_key (handle_expresslane_config l config fresh now).0.expresslane.session
        ≡ record { bytes = config.key }
  unfolding handle_expresslane_config
  peer_key-handle l config fresh now a up sound first on built =
      let agreed = negotiated l config.version in
      let sound' : (state_code agreed.expresslane.state == state_code degraded) ≡ false =
        ap (λ n. n == state_code degraded) (code-negotiated l config.version) ∙ sound in
      simp (up, first, sound') (peer_key-peer_config agreed config fresh now a on built)

  self_key-handle :
      (l : Lane A) (config : ExpresslaneConfig) (fresh : ExpresslaneKey) (now : ℕ) (k : Keyed A)
      → is_online l.state ≡ true
      → config.ack ≡ true
      → config.counter ≡ l.expresslane.config_counter
      → l.expresslane.session.next_self ≡ some k
      → self_key (handle_expresslane_config l config fresh now).0.expresslane.session ≡ k.key
  unfolding handle_expresslane_config
  self_key-handle l config fresh now k up ack counted staged =
      let agreed = negotiated l config.version in
      simp (up, ack)
        (self_key-acknowledged agreed config k
          (counted ∙ sym (config_counter-negotiated l config.version))
          (next_self-negotiated l config.version ∙ staged))

  -- When an end that is online and due rotates its key, its peer is online, has not degraded, and gets
  -- the config, and the acknowledgement comes back, then the key is in force for sending at the one end
  -- and for receiving at the other.
  pub handshake_agrees :
      (l peer : Lane A) (key k2 k3 : ExpresslaneKey) (t1 t2 t3 : ℕ) (a : A)
      (reply_version : ExpresslaneVersion)
      → is_online l.state ≡ true
      → is_online peer.state ≡ true
      → expresslane_supported l ≡ true
      → (state_code l.expresslane.state == state_code degraded) ≡ false
      → (state_code peer.expresslane.state == state_code degraded) ≡ false
      → time_to_rotate_key l.expresslane t1 ≡ true
      → crypto.new key ≡ ok a
      → ((rotate_expresslane_key l key t1).1
          ≡ send_config (sent_config l key) ∷ schedule_key_share_tick 500 (sent_config l key) ∷ [])
        × (peer_key (handle_expresslane_config peer (sent_config l key) k2 t2).0.expresslane.session
            ≡ key)
        × (self_key
              (handle_expresslane_config
                (rotate_expresslane_key l key t1).0
                (record (sent_config l key) { ack = true; version = reply_version })
                k3
                t3).0.expresslane.session
            ≡ key)
  unfolding share_key sent_config retransmit_wait_time update_next_self_key stage succeeded
  handshake_agrees l peer key k2 k3 t1 t2 t3 a reply_version up peer_up sup sound peer_sound due
        built =
      let rotated = rotate_lem l key t1 sup sound due in
      let staged = next_self-stage l.expresslane.session key a built in
      let works : (sent_config l key).enabled ≡ true =
        ap (λ r. succeeded (stage l.expresslane.session key r).1) built in
      let ack : ExpresslaneConfig = record (sent_config l key) {
        ack = true;
        version = reply_version;
      } in
      let shared = (share_key l key (sent_config l key).enabled (some t1)).0 in
      (
        ap (λ r. r.1) rotated,
        peer_key-handle peer (sent_config l key) k2 t2 a peer_up peer_sound refl works built,
        ap (λ r. self_key (handle_expresslane_config r.0 ack k3 t3).0.expresslane.session) rotated
            ∙ self_key-handle shared ack k3 t3 (record { key = key; aead = a }) up refl refl staged,
      )
