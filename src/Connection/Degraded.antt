-- ===== src/Connection/Degraded.antt =====
-- lightway-core/src/connection.rs: a degraded express lane, whatever is called on the connection.
use lightway.Base.{ℕ, ◌≡◌, ap, false, List, [], ◌∷◌, Option, ◌==◌, arith}
use lightway.Versions.{ExpresslaneVersion}
use lightway.Wire.BigEndian.{BigEndian}
use lightway.Wire.ExpresslaneConfig.{ExpresslaneConfig}
use lightway.Expresslane.Aead.{ExpresslaneKey, ExpresslaneAead}
use lightway.Connection.Types.{degraded}
use lightway.Connection.Lane.{Lane, state_code, expresslane_ready, rotate_expresslane_key}
use lightway.Connection.Configs.{
  expresslane_key_share_tick, acknowledged, negotiated, handle_expresslane_config,
}
use lightway.Connection.Health.{check_expresslane_health}

-- What the peer, the timers and the application make a connection do with its express lane.
pub data Call : Type 0 where
  call_rotate : ExpresslaneKey → ℕ → Call
  call_tick : ExpresslaneConfig → Call
  call_config : ExpresslaneConfig → ExpresslaneKey → ℕ → Call
  call_health : List ℕ → Option (Option (ℕ × ℕ)) → Call

abbrev pub code_of : {A : Type 0} → Lane A → ℕ
code_of l = state_code l.expresslane.state

module _ {A : Type 0} ⦃crypto : ExpresslaneAead A⦄ ⦃be : BigEndian⦄ where
  unfoldable pub step : Lane A → Call → Lane A
  step l (call_rotate key now) = (rotate_expresslane_key l key now).0
  step l (call_tick config) = (expresslane_key_share_tick l config).0
  step l (call_config config key now) = (handle_expresslane_config l config key now).0
  step l (call_health payload provider) = (check_expresslane_health l payload provider).0

  unfoldable pub run : Lane A → List Call → Lane A
  run l [] = l
  run l (call ∷ calls) = run (step l call) calls

module _ {A : Type 0} ⦃crypto : ExpresslaneAead A⦄ where
  rotate_stays :
      (l : Lane A) (key : ExpresslaneKey) (now : ℕ)
      → code_of l ≡ state_code degraded
      → code_of (rotate_expresslane_key l key now).0 ≡ state_code degraded
  unfolding rotate_expresslane_key
  rotate_stays l key now d = ground (arith, d)

  tick_stays :
      (l : Lane A) (config : ExpresslaneConfig)
      → code_of l ≡ state_code degraded
      → code_of (expresslane_key_share_tick l config).0 ≡ state_code degraded
  unfolding expresslane_key_share_tick
  tick_stays l config d = ground (arith, d)

  negotiated_stays :
      (l : Lane A) (offer : ExpresslaneVersion) → code_of (negotiated l offer) ≡ code_of l
  unfolding negotiated
  negotiated_stays l offer = ground arith

  acknowledged_stays :
      (l : Lane A) (config : ExpresslaneConfig)
      → code_of l ≡ state_code degraded
      → code_of (acknowledged l config).0 ≡ state_code degraded
  unfolding acknowledged
  acknowledged_stays l config d = ground (arith, d)

  config_stays :
      (l : Lane A) (config : ExpresslaneConfig) (key : ExpresslaneKey) (now : ℕ)
      → code_of l ≡ state_code degraded
      → code_of (handle_expresslane_config l config key now).0 ≡ state_code degraded
  unfolding handle_expresslane_config
  config_stays l config key now d =
      let same = negotiated_stays l config.version in
      ground (arith, d, same, acknowledged_stays (negotiated l config.version) config)

  degraded_not_ready : (l : Lane A) → code_of l ≡ state_code degraded → expresslane_ready l ≡ false
  unfolding expresslane_ready state_code
  degraded_not_ready l d =
      let four : state_code l.expresslane.state ≡ 4 = d in
      let apart : (state_code l.expresslane.state == 3) ≡ false = ground (arith, four) in
      ground (arith, apart)

module _ {A : Type 0} ⦃crypto : ExpresslaneAead A⦄ ⦃be : BigEndian⦄ where
  health_stays :
      (l : Lane A) (payload : List ℕ) (provider : Option (Option (ℕ × ℕ)))
      → code_of l ≡ state_code degraded
      → code_of (check_expresslane_health l payload provider).0 ≡ state_code degraded
  unfolding check_expresslane_health
  health_stays l payload provider d = rw (degraded_not_ready l d) d

  pub run_stays :
      (l : Lane A) (calls : List Call)
      → code_of l ≡ state_code degraded
      → code_of (run l calls) ≡ state_code degraded
  unfolding run step
  run_stays l [] d = d
  run_stays l (call_rotate key now ∷ calls) d =
      run_stays (step l (call_rotate key now)) calls (rotate_stays l key now d)
  run_stays l (call_tick config ∷ calls) d =
      run_stays (step l (call_tick config)) calls (tick_stays l config d)
  run_stays l (call_config config key now ∷ calls) d =
      run_stays (step l (call_config config key now)) calls (config_stays l config key now d)
  run_stays l (call_health payload provider ∷ calls) d =
      run_stays (step l (call_health payload provider)) calls (health_stays l payload provider d)

  -- A degraded express lane stays degraded, and is never ready for data, whatever configs, key
  -- rotations, ticks and keepalive replies follow.
  pub run-degraded :
      (l : Lane A) (calls : List Call)
      → l.expresslane.state ≡ degraded
      → (state_code (run l calls).expresslane.state ≡ state_code degraded)
        × (expresslane_ready (run l calls) ≡ false)
  run-degraded l calls d =
      let stays = run_stays l calls (ap state_code d) in
      (stays, degraded_not_ready (run l calls) stays)
