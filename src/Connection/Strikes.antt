-- ===== src/Connection/Strikes.antt =====
-- lightway-core/src/connection.rs: how much bad news the express lane takes before it degrades.
use lightway.Base.{
  ℕ, ◌+◌, ◌-◌, ◌≤◌, ◌<◌, ◌≡◌, ◌⊎◌, refl, ap, ◌∙◌, inl, inr, min, Bool, true, false, ◌||◌, List, [],
  ◌∷◌, none, leb, ◌==◌, if◌then◌else◌, length, All, arith, Bool-cases,
}
use lightway.Wire.BigEndian.{BigEndian}
use lightway.Expresslane.Aead.{ExpresslaneAead}
use lightway.Connection.Types.{degraded}
use lightway.Connection.Lane.{
  Lane, state_code, expresslane_ready, expresslane_supported, set_expresslane_state, share_key,
  set_expresslane_degraded,
}
use lightway.Connection.Health.{
  check_expresslane_health, missed_report, degrade_if, with_expresslane, advance_strikes,
  has_packet_drops, saturating_suc, degrade_strikes, missing_stats_limit,
}
use lightway.Connection.Degraded.{code_of, run_stays, run, step, Call, call_health}

-- A direction over windows of packets sent and received: the strikes left, and whether it degraded.
unfoldable pub run_strikes : ℕ → List (ℕ × ℕ) → ℕ × Bool
run_strikes strikes [] = (strikes, false)
run_strikes strikes ((sent, received) ∷ windows) =
    let (next, degrades) = advance_strikes strikes sent received in
    let (last, later) = run_strikes next windows in (last, degrades || later)

unfoldable pub lossy : List (ℕ × ℕ) → ℕ
lossy [] = 0
lossy ((sent, received) ∷ windows) =
    (if has_packet_drops sent received then 1 else 0) + lossy windows

-- From a bucket of `strikes`, a direction does not degrade over windows of which fewer are lossy than
-- the bucket still takes, and its strikes are then still below the limit.
pub run_strikes-lossy :
    (strikes : ℕ) (windows : List (ℕ × ℕ))
    → strikes + lossy windows < degrade_strikes
    → ((run_strikes strikes windows).1 ≡ false)
      × ((run_strikes strikes windows).0 ≤ strikes + lossy windows)
unfolding run_strikes lossy advance_strikes saturating_suc
run_strikes-lossy strikes [] h = (refl, omega arith)
run_strikes-lossy strikes ((sent, received) ∷ windows) h =
    elim (Bool-cases (has_packet_drops sent received)) [
      | inl drops ↦
          let few : strikes + (1 + lossy windows) < 3 = rw drops at h in
          let next : min 255 (strikes + 1) ≡ strikes + 1 = omega arith in
          let under : leb 3 (strikes + 1) ≡ false = ground arith in
          let (fine, less) = run_strikes-lossy (strikes + 1) windows (omega arith) in
          rw (drops, next, under) (fine, omega arith)
      | inr good ↦
          let few : strikes + (0 + lossy windows) < 3 = rw good at h in
          let (fine, less) = run_strikes-lossy (strikes - 1) windows (omega arith) in
          rw good (fine, omega arith)
    ]

-- Keepalive replies without a report of the peer.
pub silent : List (List ℕ) → List Call
silent [] = []
silent (payload ∷ payloads) = call_health payload none ∷ silent payloads

module _ {A : Type 0} ⦃crypto : ExpresslaneAead A⦄ where
  set_degraded_lem : (l : Lane A) → code_of (set_expresslane_degraded l).0 ≡ state_code degraded
  unfolding set_expresslane_degraded set_expresslane_state share_key
  set_degraded_lem l = elim (Bool-cases (state_code l.expresslane.state == state_code degraded)) [
    | inl same ↦ rw same (ground (arith, same))
    | inr other ↦ rw other refl
  ]

  abbrev heard_nothing : Lane A → ℕ → Lane A
  heard_nothing l missing = record l {
    expresslane = record l.expresslane { missing_peer_reports = missing };
  }

  ready-heard_nothing :
      (l : Lane A) (missing : ℕ) → expresslane_ready (heard_nothing l missing) ≡ expresslane_ready l
  unfolding expresslane_ready expresslane_supported
  ready-heard_nothing l missing = refl

module _ {A : Type 0} ⦃crypto : ExpresslaneAead A⦄ ⦃be : BigEndian⦄ where
  check-silent :
      (l : Lane A) (payload : List ℕ)
      → expresslane_ready l ≡ true
      → (length payload == 16) ≡ false
      → check_expresslane_health l payload none ≡ missed_report l
  unfolding check_expresslane_health
  check-silent l payload ready short = rw (ready, short) refl

  silent_lem :
      (l : Lane A) (payload : List ℕ) (missing : ℕ)
      → expresslane_ready l ≡ true
      → (length payload == 16) ≡ false
      → l.expresslane.missing_peer_reports ≡ missing
      → missing < missing_stats_limit
      → step l (call_health payload none)
        ≡ (degrade_if (leb missing_stats_limit (missing + 1)) (heard_nothing l (missing + 1))).0
  unfolding step missed_report with_expresslane saturating_suc
  silent_lem l payload missing ready short count under =
      let next : min 255 (l.expresslane.missing_peer_reports + 1) ≡ missing + 1 =
        omega (arith, count) in
      ap (λ r. r.0) (check-silent l payload ready short)
      ∙ ap (λ k. (degrade_if (leb missing_stats_limit k) (heard_nothing l k)).0) next

  silent_step :
      (l : Lane A) (payload : List ℕ) (missing : ℕ)
      → expresslane_ready l ≡ true
      → (length payload == 16) ≡ false
      → l.expresslane.missing_peer_reports ≡ missing
      → missing < missing_stats_limit
      → (code_of (step l (call_health payload none)) ≡ state_code degraded)
        ⊎ ((step l (call_health payload none) ≡ heard_nothing l (missing + 1))
            × (missing + 1 < missing_stats_limit))
  unfolding degrade_if
  silent_step l payload missing ready short count under =
      let after = silent_lem l payload missing ready short count under in
      let bad = leb missing_stats_limit (missing + 1) in
      elim (Bool-cases bad) [
        | inl full ↦ inl (
            ap code_of (after ∙ ap (λ b. (degrade_if b (heard_nothing l (missing + 1))).0) full)
            ∙ set_degraded_lem (heard_nothing l (missing + 1)))
        | inr room ↦
            inr (
              after ∙ ap (λ b. (degrade_if b (heard_nothing l (missing + 1))).0) room,
              ground arith,
            )
      ]

  -- A ready express lane whose peer stops reporting degrades, once the missing reports of which no more
  -- than the limit are tolerated reach it, and stays degraded.
  pub run-silent :
      (l : Lane A) (payloads : List (List ℕ)) (missing : ℕ)
      → expresslane_ready l ≡ true
      → l.expresslane.missing_peer_reports ≡ missing
      → missing < missing_stats_limit
      → missing_stats_limit ≤ missing + length payloads
      → All (λ p. (length p == 16) ≡ false) payloads
      → code_of (run l (silent payloads)) ≡ state_code degraded
  unfolding run silent
  run-silent l [] missing ready count under enough short = absurd (omega arith)
  run-silent l (p ∷ ps) missing ready count under enough (h, hs) =
      elim (silent_step l p missing ready h count under) [
        | inl gone ↦ run_stays (step l (call_health p none)) (silent ps) gone
        | inr (same, room) ↦
            ap (λ x. code_of (run x (silent ps))) same
            ∙ (run-silent (heard_nothing l (missing + 1)) ps (missing + 1)
                (ready-heard_nothing l (missing + 1) ∙ ready) refl room (omega arith) hs)
      ]
