-- ===== src/Connection/Health.antt =====
-- lightway-core/src/connection.rs: the health of the express lane, judged by the counters of both ends
-- at each keepalive.
use lightway.Base.{
  ℕ, ◌+◌, ◌-◌, ◌*◌, ◌%◌, ◌^◌, min, Bool, false, not, List, [], ◌++◌, Option, none, some, ltb, leb,
  ◌==◌, if◌then◌else◌, length, take, drop,
}
use lightway.Wire.BigEndian.{BigEndian}
use lightway.Expresslane.Aead.{ExpresslaneAead}
use lightway.Connection.Lane.{
  Lane, Expresslane, Effect, expresslane_ready, set_expresslane_degraded,
}

abbrev pub min_packets_for_loss_check : ℕ
min_packets_for_loss_check = 10

abbrev pub degrade_strikes : ℕ
degrade_strikes = 3

abbrev pub missing_stats_limit : ℕ
missing_stats_limit = 3

-- The source compares the quotient of `f64` values with one half; below 2^52 packets the quotient is
-- above one half just where the integers say so.
unfoldable pub has_packet_drops : ℕ → ℕ → Bool
has_packet_drops sent received =
    if ltb sent min_packets_for_loss_check then false else ltb sent (2 * (sent - received))

-- `saturating_add` of a u8.
unfoldable pub saturating_suc : ℕ → ℕ
saturating_suc n = min 255 (n + 1)

unfoldable pub advance_strikes : ℕ → ℕ → ℕ → ℕ × Bool
unfolding saturating_suc
advance_strikes strikes sent received =
    let more = saturating_suc strikes in
    if not (has_packet_drops sent received)
    then (strikes - 1, false)
    else (more, leb degrade_strikes more)

-- `wrapping_sub` of u64.
unfoldable pub wrapping_sub : ℕ → ℕ → ℕ
wrapping_sub a b = (a + (2 ^ 64 - b)) % 2 ^ 64

module _ {A : Type 0} ⦃crypto : ExpresslaneAead A⦄ where
  unfoldable pub degrade_if : Bool → Lane A → Lane A × List Effect
  degrade_if bad l = if bad then set_expresslane_degraded l else (l, [])

  unfoldable pub with_expresslane : Lane A → Expresslane A → Lane A
  with_expresslane l x = record l { expresslane = x }

  -- No report of the peer in the payload.
  unfoldable pub missed_report : Lane A → Lane A × List Effect
  unfolding degrade_if with_expresslane saturating_suc
  missed_report l =
      let missing = saturating_suc l.expresslane.missing_peer_reports in
      degrade_if (leb missing_stats_limit missing)
        (with_expresslane l (record l.expresslane { missing_peer_reports = missing }))

  -- No reading of this end.
  unfoldable pub missed_reading : Lane A → Lane A × List Effect
  unfolding degrade_if with_expresslane saturating_suc
  missed_reading l =
      let missing = saturating_suc l.expresslane.missing_local_readings in
      degrade_if (leb missing_stats_limit missing)
        (with_expresslane l (record l.expresslane { missing_local_readings = missing }))

  -- The packets of the last window, each way.
  unfoldable pub judge : Lane A → ℕ → ℕ → ℕ → ℕ → Lane A × List Effect
  unfolding degrade_if with_expresslane
  judge l my_sent my_recv peer_sent peer_recv =
      let (inbound, bad_in) = advance_strikes l.expresslane.inbound_strikes peer_sent my_recv in
      let l1 = with_expresslane l (record l.expresslane { inbound_strikes = inbound }) in
      let (outbound, bad_out) = advance_strikes l1.expresslane.outbound_strikes my_sent peer_recv in
      let l2 = with_expresslane l1 (record l1.expresslane { outbound_strikes = outbound }) in
      if bad_in then set_expresslane_degraded l1 else degrade_if bad_out l2

  -- Both counters are there: the windows since the last ones, which they replace.
  unfoldable pub compare : Lane A → ℕ → ℕ → ℕ × ℕ → Lane A × List Effect
  unfolding judge with_expresslane
  compare l total_peer_sent total_peer_recv (current_sent, current_recv) =
      let x = l.expresslane in
      let seen = record x {
        missing_local_readings = 0;
        prev_peer_sent = total_peer_sent;
        prev_peer_recv = total_peer_recv;
        last_snapshot_sent = current_sent;
        last_snapshot_recv = current_recv;
      } in
      judge (with_expresslane l seen) (wrapping_sub current_sent x.last_snapshot_sent)
        (wrapping_sub current_recv x.last_snapshot_recv)
        (wrapping_sub total_peer_sent x.prev_peer_sent)
        (wrapping_sub total_peer_recv x.prev_peer_recv)

  unfoldable pub reported : Lane A → ℕ → ℕ → Option (ℕ × ℕ) → Lane A × List Effect
  unfolding compare
  reported l total_peer_sent total_peer_recv none = missed_reading l
  reported l total_peer_sent total_peer_recv (some reading) =
      compare l total_peer_sent total_peer_recv reading

  -- `Expresslane::stats`, where the provider's reading, if there is a provider, is given.
  unfoldable pub stats : Expresslane A → Option (Option (ℕ × ℕ)) → Option (ℕ × ℕ)
  stats x none = some (x.session.wire_counter, x.session.packets_received)
  stats x (some reading) = reading

  module _ ⦃be : BigEndian⦄ where
    unfoldable pub check_expresslane_health :
        Lane A → List ℕ → Option (Option (ℕ × ℕ)) → Lane A × List Effect
    unfolding reported with_expresslane
    check_expresslane_health l payload provider =
        let heard = with_expresslane l (record l.expresslane { missing_peer_reports = 0 }) in
        if not (expresslane_ready l)
        then (l, [])
        else if not (length payload == 16)
        then missed_report l
        else reported heard (be.of_be (take 8 payload)) (be.of_be (take 8 (drop 8 payload)))
            (stats heard.expresslane provider)

    unfoldable pub encode_expresslane_metrics_payload : Lane A → Option (Option (ℕ × ℕ)) → List ℕ
    encode_expresslane_metrics_payload l provider =
        if expresslane_ready l then encoded (stats l.expresslane provider) else []
      where
        encoded : Option (ℕ × ℕ) → List ℕ
        encoded none = []
        encoded (some (sent, received)) = be.be 8 sent ++ be.be 8 received
