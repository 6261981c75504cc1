-- ===== src/Connection/Configs.antt =====
-- lightway-core/src/connection.rs: the configs of the express lane, sent again and received.
use lightway.Base.{
  ℕ, ◌+◌, ◌%◌, ◌^◌, true, not, ◌&&◌, List, [], ◌∷◌, ◌++◌, none, leb, ◌==◌, if◌then◌else◌,
}
use lightway.Versions.{ExpresslaneVersion, to_u8, negotiate_version}
use lightway.Wire.ExpresslaneConfig.{ExpresslaneConfig}
use lightway.Wire.Frame.{expresslane_config}
use lightway.Expresslane.Aead.{
  ExpresslaneKey, ExpresslaneAead, ExpresslaneResult, ok, err, same_bytes,
}
use lightway.Expresslane.Session.{
  ExpresslaneSession, version, set_version, update_peer_key, promote_self_key, self_key,
  has_valid_keys,
}
use lightway.Connection.Types.{
  is_online, waiting_for_client, inactive, active, degraded, done, failed, send_frame_or_queue,
  invalid_state, invalid_connection_type, expresslane_error,
}
use lightway.Connection.Lane.{
  max_retransmissions, state_code, Lane, Effect, send_config, schedule_key_share_tick, Reply,
  retransmit_wait_time, expresslane_supported, set_expresslane_state, publish,
  rotate_expresslane_key,
}

module _ {A : Type 0} ⦃crypto : ExpresslaneAead A⦄ where
  unfoldable pub expresslane_key_share_tick : Lane A → ExpresslaneConfig → Reply A
  expresslane_key_share_tick l last_config =
      let x = l.expresslane in
      let (stopped, event) = set_expresslane_state l inactive in
      let counted = record x { retransmit_count = (x.retransmit_count + 1) % 2 ^ 8 } in
      if not (is_online l.state)
      then (l, [], failed invalid_state)
      else if not (expresslane_supported l)
      then (l, [], failed invalid_connection_type)
      else if not (last_config.counter == x.config_counter)
      then (l, [], done)
      else if same_bytes last_config.key (self_key x.session).bytes
      then (l, [], done)
      else if leb max_retransmissions x.retransmit_count
      then if state_code x.state == state_code degraded then (l, [], done) else (
        record stopped { expresslane = record stopped.expresslane { last_key_rotation = none } },
        event,
        done,
      )
      else (
        record l { expresslane = counted },
        schedule_key_share_tick (retransmit_wait_time counted) last_config ∷ [],
        send_frame_or_queue (expresslane_config last_config),
      )

  -- The peer has acknowledged a key.
  unfoldable pub acknowledged : Lane A → ExpresslaneConfig → Reply A
  acknowledged l config =
      let x = l.expresslane in
      let promoted = promote_self_key x.session in
      let l' = record l { expresslane = record x { session = promoted; retransmit_count = 0 } } in
      let (ready, event) = set_expresslane_state l' active in
      if not (config.counter == x.config_counter)
      then (l, [], done)
      else if not (state_code x.state == state_code degraded) && has_valid_keys promoted
      then (ready, publish promoted ∷ event, done)
      else (l', publish promoted ∷ [], done)

  -- The acknowledgement of the peer's config, and the key share of this end.
  unfoldable pub answer : Lane A → List Effect → ExpresslaneConfig → ExpresslaneKey → ℕ → Reply A
  answer l effects config key now =
      let reply = record config { ack = true; version = version l.expresslane.session } in
      let (rotated, more, result) = rotate_expresslane_key l key now in
      (rotated, effects ++ (send_config reply ∷ more), done)

  -- The peer's key is installed, or its AEAD could not be made.
  unfoldable pub installed :
      Lane A
      → List Effect
      → ExpresslaneConfig
      → ExpresslaneKey
      → ℕ
      → ExpresslaneSession A × ExpresslaneResult (Unit {0})
      → Reply A
  unfolding answer
  installed l effects config key now (kept, err e) = (l, effects, failed (expresslane_error e))
  installed l effects config key now (updated, ok _) =
      let l' = record l { expresslane = record l.expresslane { session = updated } } in
      let (ready, event) = set_expresslane_state l' active in
      if has_valid_keys updated
      then answer ready (effects ++ (publish updated ∷ event)) config key now
      else answer l' (effects ++ (publish updated ∷ [])) config key now

  -- A config of the peer that is not an acknowledgement, for an express lane that is not degraded.
  unfoldable pub peer_config : Lane A → ExpresslaneConfig → ExpresslaneKey → ℕ → Reply A
  unfolding installed answer
  peer_config l config key now =
      let waiting = state_code l.expresslane.state == state_code waiting_for_client in
      let (begun, first) = if waiting then set_expresslane_state l inactive else (l, []) in
      let (stopped, event) = set_expresslane_state begun inactive in
      if config.enabled
      then installed begun first config key now
          (update_peer_key begun.expresslane.session (record { bytes = config.key }))
      else answer stopped (first ++ event) config key now

  unfoldable pub negotiated : Lane A → ExpresslaneVersion → Lane A
  negotiated l offer =
      let v = negotiate_version offer in
      let x = l.expresslane in
      if to_u8 v == to_u8 (version x.session)
      then l
      else record l { expresslane = record x { session = (set_version x.session v).0 } }

  unfoldable pub handle_expresslane_config :
      Lane A → ExpresslaneConfig → ExpresslaneKey → ℕ → Reply A
  unfolding peer_config
  handle_expresslane_config l config key now =
      let agreed = negotiated l config.version in
      if not (is_online l.state)
      then (l, [], failed invalid_state)
      else if config.ack
      then acknowledged agreed config
      else if state_code agreed.expresslane.state == state_code degraded
      then (agreed, [], done)
      else peer_config agreed config key now
