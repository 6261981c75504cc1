-- ===== src/Connection/Lane.antt =====
-- lightway-core/src/connection.rs and lightway-core/src/connection/expresslane.rs: the express lane of a
-- connection. The random key, the clock and the provider's reading are arguments. Effects are the events,
-- the keys that are published, the frames sent whose result is not looked at, and the ticks.
use lightway.Base.{
  ℕ, ◌+◌, ◌-◌, ◌*◌, ◌%◌, ◌^◌, Bool, true, false, not, ◌&&◌, List, [], ◌∷◌, ◌++◌, Option, none, some,
  ltb, ◌==◌, if◌then◌else◌,
}
use lightway.Versions.{
  Version, version_le, ExpresslaneVersion, unknown, version1, version2, max_version,
}
use lightway.Wire.ExpresslaneConfig.{ExpresslaneConfig}
use lightway.Expresslane.Aead.{ExpresslaneKey, ExpresslaneAead, ExpresslaneResult, ok, err, invalid}
use lightway.Expresslane.Session.{
  ExpresslaneSession, new, version, update_next_self_key, self_key, peer_key, has_valid_keys,
}
use lightway.Connection.Types.{
  State, ConnectionType, is_datagram, ExpresslaneState, disabled, waiting_for_client, inactive,
  active, degraded, ConnectionResult, done, failed, expresslane_degraded,
}

abbrev pub max_retransmissions : ℕ
max_retransmissions = 5

-- The derived equality.
unfoldable pub state_code : ExpresslaneState → ℕ
state_code disabled = 0
state_code waiting_for_client = 1
state_code inactive = 2
state_code active = 3
state_code degraded = 4

pub record Expresslane (A : Type 0) : Type 0 where
  pub state : ExpresslaneState
  pub config_counter : ℕ
  pub retransmit_count : ℕ
  pub last_key_rotation : Option ℕ
  pub prev_peer_sent : ℕ
  pub prev_peer_recv : ℕ
  pub last_snapshot_sent : ℕ
  pub last_snapshot_recv : ℕ
  pub inbound_strikes : ℕ
  pub outbound_strikes : ℕ
  pub missing_local_readings : ℕ
  pub missing_peer_reports : ℕ
  pub session : ExpresslaneSession A
  pub keys_rotation_interval : ℕ

-- The fields of a connection that the express lane reads.
pub record Lane (A : Type 0) : Type 0 where
  pub state : State
  pub connection_type : ConnectionType
  pub tunnel_protocol_version : Version
  pub expresslane : Expresslane A

pub data Effect : Type 0 where
  expresslane_state_changed : ExpresslaneState → Effect
  publish_key : ExpresslaneKey → ExpresslaneKey → ExpresslaneVersion → Effect
  send_config : ExpresslaneConfig → Effect
  schedule_key_share_tick : ℕ → ExpresslaneConfig → Effect

abbrev pub Reply : Type 0 → Type 0
Reply A = Lane A × List Effect × ConnectionResult

unfoldable pub interval_passed : Option ℕ → ℕ → ℕ → Bool
interval_passed none interval now = true
interval_passed (some last) interval now = ltb interval (now - last)

unfoldable pub takes_part : ExpresslaneState → Bool
takes_part disabled = false
takes_part waiting_for_client = false
takes_part inactive = true
takes_part active = true
takes_part degraded = true

-- The version that a config carries.
unfoldable pub offered : ExpresslaneVersion → ExpresslaneVersion
offered unknown = max_version
offered version1 = version1
offered version2 = version2

unfoldable pub succeeded : ExpresslaneResult (Unit {0}) → Bool
succeeded (ok _) = true
succeeded (err e) = false

module _ {A : Type 0} where
  unfoldable pub new_expresslane : ExpresslaneState → ℕ → Expresslane A
  new_expresslane state interval = record {
    state = state;
    config_counter = 0;
    retransmit_count = 0;
    last_key_rotation = none;
    prev_peer_sent = 0;
    prev_peer_recv = 0;
    last_snapshot_sent = 0;
    last_snapshot_recv = 0;
    inbound_strikes = 0;
    outbound_strikes = 0;
    missing_local_readings = 0;
    missing_peer_reports = 0;
    session = new unknown;
    keys_rotation_interval = interval;
  }

  -- In milliseconds; the sum is one of bytes.
  unfoldable pub retransmit_wait_time : Expresslane A → ℕ
  retransmit_wait_time x = 500 * ((1 + x.retransmit_count) % 2 ^ 8)

  unfoldable pub time_to_rotate_key : Expresslane A → ℕ → Bool
  time_to_rotate_key x now = interval_passed x.last_key_rotation x.keys_rotation_interval now

  unfoldable pub expresslane_supported : Lane A → Bool
  expresslane_supported l =
      is_datagram l.connection_type
      && version_le (record { major = 1; minor = 3 }) l.tunnel_protocol_version
      && takes_part l.expresslane.state

  unfoldable pub expresslane_ready : Lane A → Bool
  expresslane_ready l =
      expresslane_supported l
      && (state_code l.expresslane.state == state_code active)
      && has_valid_keys l.expresslane.session

  unfoldable pub set_expresslane_state : Lane A → ExpresslaneState → Lane A × List Effect
  set_expresslane_state l new_state =
      if state_code l.expresslane.state == state_code new_state then (l, []) else (
        record l { expresslane = record l.expresslane { state = new_state } },
        expresslane_state_changed new_state ∷ [],
      )

  unfoldable pub publish : ExpresslaneSession A → Effect
  publish s = publish_key (self_key s) (peer_key s) (version s)

module _ {A : Type 0} ⦃crypto : ExpresslaneAead A⦄ where
  -- A key is staged and shared: what rotation and degrading have in common. The counter is a u64.
  unfoldable pub share_key : Lane A → ExpresslaneKey → Bool → Option ℕ → Lane A × List Effect
  share_key l key enabled stamp =
      let x = l.expresslane in
      let staged = (update_next_self_key x.session key).0 in
      let config : ExpresslaneConfig = record {
        version = offered (version staged);
        enabled = enabled;
        ack = false;
        counter = (x.config_counter + 1) % 2 ^ 64;
        key = key.bytes;
      } in
      let shared = record x {
        session = staged;
        config_counter = config.counter;
        retransmit_count = 0;
        last_key_rotation = stamp;
      } in
      (
        record l { expresslane = shared },
        send_config config ∷ schedule_key_share_tick (retransmit_wait_time shared) config ∷ [],
      )

  unfoldable pub rotate_expresslane_key : Lane A → ExpresslaneKey → ℕ → Reply A
  rotate_expresslane_key l key now =
      let x = l.expresslane in
      let (shared, effects) =
        share_key l key (succeeded (update_next_self_key x.session key).1) (some now) in
      if not (expresslane_supported l)
      then (l, [], done)
      else if state_code x.state == state_code degraded
      then (l, [], failed expresslane_degraded)
      else if not (time_to_rotate_key x now)
      then (l, [], done)
      else (shared, effects, done)

  unfoldable pub set_expresslane_degraded : Lane A → Lane A × List Effect
  set_expresslane_degraded l =
      let (moved, event) = set_expresslane_state l degraded in
      let (shared, effects) = share_key moved invalid false moved.expresslane.last_key_rotation in
      (shared, event ++ effects)
