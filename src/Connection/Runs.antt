-- ===== src/Connection/Runs.antt =====
-- The parts of a connection at concrete inputs.
use lightway.Base.{
  ℕ, ◌+◌, ◌-◌, ◌<◌, ◌≤◌, ◌≡◌, refl, Bool, true, false, List, [], ◌∷◌, ◌++◌, none, some, map, length,
  replicate, ◌==◌, arith,
}
use mathlib.Core.List.{Permᴰ}
use lightway.Wire.DataFrag.{DataFrag}
use lightway.Fragments.{is_empty, complete, incomplete}
use lightway.Fragments.Cache.{slots}
use lightway.Fragments.Map.{deliver}
use lightway.Connection.Fragmenting.{
  split, next_fragment_id, as_frame, sent, send_fragmented_outside_data, send-deliver,
}
use lightway.Versions.{version2}
use lightway.Wire.Bytes.{big_endian}
use lightway.Wire.EncodingRequest.{EncodingRequest}
use lightway.Wire.Frame.{encoding_request, encoding_response}
use lightway.Expresslane.Aead.{is_invalid, same_bytes}
use lightway.Expresslane.Cipher.{test_cipher, first_key, second_key}
use lightway.Expresslane.Session.{
  ExpresslaneSession, new, self_key, peer_key, update_next_self_key, update_peer_key,
  promote_self_key, promote, stage, install, has_valid_keys,
}
use lightway.Connection.Types.{
  online, datagram, degraded, active, inactive, is_online, is_datagram, send_frame_or_queue, done,
}
use lightway.Connection.KeyUpdate
use lightway.Connection.KeyUpdate.{
  updates, Spaced, updates-Spaced, call_online, call_required, call_complete,
}
use lightway.Connection.Encoding.{
  EncodingRequestStates, set_encoding, process_encoding_request_pkt, process_encoding_response_pkt,
}
use lightway.Connection.Negotiation.{
  client_codec, server_codec, run_requests, latest, run_requests-latest, next_request,
  set_encoding_agrees, run_ticks, run_ticks_gives_up,
}
use lightway.Connection.Lane.{
  Lane, new_expresslane, state_code, expresslane_ready, expresslane_supported,
  rotate_expresslane_key, send_config, schedule_key_share_tick, time_to_rotate_key, takes_part,
  interval_passed,
}
use lightway.Connection.Configs.{handle_expresslane_config}
use lightway.Connection.Health.{has_packet_drops}
use lightway.Connection.Degraded.{run, call_health, call_rotate, run-degraded, code_of}
use lightway.Connection.Strikes.{run_strikes, lossy, run_strikes-lossy, silent, run-silent}
use lightway.Connection.Handshake.{handshake_agrees}
use lightway.Connection.Staging.{sent_config}

abbrev key_calls : List KeyUpdate.Call
key_calls =
    call_online 3 ∷ call_required 10 ∷ call_required 14 ∷ call_complete 15 ∷ call_required 30 ∷ []

updates-Spaced_example :
    Spaced 10 0 (updates (KeyUpdate.new 10) key_calls) × (updates (KeyUpdate.new 0) key_calls ≡ [])
updates-Spaced_example =
    updates-Spaced 10 0 key_calls
      (omega arith, (omega arith, (omega arith, (omega arith, (omega arith, tt)))))

abbrev odd_on : ℕ → Bool
odd_on id = id == 5

abbrev fresh_states : EncodingRequestStates
fresh_states = record { id_counter = 0; pending_request_pkt = none; retransmissions_counter = 0 }

abbrev mixed_requests : List EncodingRequest
mixed_requests = record { id = 5; enable = true } ∷ record { id = 4; enable = false } ∷ []

run_requests-latest_example :
    (run_requests (server_codec (odd_on 0) fresh_states) mixed_requests).inside_pkt_encoder
    ≡ some (odd_on (latest 0 mixed_requests))
run_requests-latest_example =
    run_requests-latest odd_on fresh_states mixed_requests (refl, (refl, tt))

set_encoding_agrees_example :
    ((set_encoding (client_codec false true fresh_states) true).2
      ≡ send_frame_or_queue (encoding_request (next_request fresh_states true)))
    × ((process_encoding_request_pkt
          (server_codec false fresh_states)
          (next_request fresh_states true)).2
        ≡ send_frame_or_queue (
            encoding_response (record { id = (next_request fresh_states true).id; enable = true })))
    × ((process_encoding_request_pkt
          (server_codec false fresh_states)
          (next_request fresh_states true)).0.inside_pkt_encoder
        ≡ some true)
    × ((process_encoding_response_pkt
          (set_encoding (client_codec false true fresh_states) true).0
          (record { id = (next_request fresh_states true).id; enable = true })).0.inside_pkt_encoder
        ≡ some true)
    × ((process_encoding_response_pkt
          (set_encoding (client_codec false true fresh_states) true).0
          (record { id = (next_request fresh_states true).id; enable = true })
            ).0.encoding_request_states.pending_request_pkt
        ≡ none)
set_encoding_agrees_example =
    set_encoding_agrees false false true true fresh_states fresh_states (omega arith)

abbrev third : EncodingRequest
third = record { id = 3; enable = true }

run_ticks_gives_up_example :
    ((run_ticks 3
        (client_codec false true (record {
          id_counter = 3;
          pending_request_pkt = some third;
          retransmissions_counter = 3;
        }))
        3).0.encoding_request_states.pending_request_pkt
      ≡ none)
    × ((run_ticks 3
          (client_codec false true (record {
            id_counter = 3;
            pending_request_pkt = some third;
            retransmissions_counter = 3;
          }))
          3).1
        ≡ replicate 2 (send_frame_or_queue (encoding_request third)) ++ (done ∷ []))
run_ticks_gives_up_example = run_ticks_gives_up false true 3 third 2 3 refl

two_lossy : 0 + lossy ((100, 10) ∷ (100, 99) ∷ (50, 0) ∷ []) < 3
unfolding lossy has_packet_drops
two_lossy = omega arith

run_strikes-lossy_example :
    ((run_strikes 0 ((100, 10) ∷ (100, 99) ∷ (50, 0) ∷ [])).1 ≡ false)
    × ((run_strikes 0 ((100, 10) ∷ (100, 99) ∷ (50, 0) ∷ [])).0
        ≤ 0 + lossy ((100, 10) ∷ (100, 99) ∷ (50, 0) ∷ []))
run_strikes-lossy_example = run_strikes-lossy 0 ((100, 10) ∷ (100, 99) ∷ (50, 0) ∷ []) two_lossy

abbrev ready_session : ExpresslaneSession ℕ
ready_session =
    (update_peer_key (promote_self_key (update_next_self_key (new {A = ℕ} version2) first_key).0)
      first_key).0

abbrev ready_lane : Lane ℕ
ready_lane = record {
  state = online;
  connection_type = datagram;
  tunnel_protocol_version = record { major = 1; minor = 3 };
  expresslane = record (new_expresslane active 900) { session = ready_session };
}

abbrev degraded_lane : Lane ℕ
degraded_lane = record {
  state = online;
  connection_type = datagram;
  tunnel_protocol_version = record { major = 1; minor = 3 };
  expresslane = new_expresslane degraded 900;
}

abbrev sound_lane : Lane ℕ
sound_lane = record {
  state = online;
  connection_type = datagram;
  tunnel_protocol_version = record { major = 1; minor = 3 };
  expresslane = new_expresslane inactive 900;
}

degraded_first : degraded_lane.expresslane.state ≡ degraded
unfolding new_expresslane
degraded_first = refl

run-degraded_example :
    (state_code
        (run degraded_lane
          (call_rotate first_key 2000 ∷ call_health [] none ∷ [])).expresslane.state
      ≡ state_code degraded)
    × (expresslane_ready (run degraded_lane (call_rotate first_key 2000 ∷ call_health [] none ∷ []))
        ≡ false)
run-degraded_example =
    run-degraded degraded_lane (call_rotate first_key 2000 ∷ call_health [] none ∷ [])
      degraded_first

lane_ready : expresslane_ready ready_lane ≡ true
unfolding expresslane_ready expresslane_supported is_datagram takes_part state_code has_valid_keys
    new_expresslane new update_next_self_key update_peer_key promote_self_key promote stage install
    is_invalid same_bytes
lane_ready = refl

none_missing : ready_lane.expresslane.missing_peer_reports ≡ 0
unfolding new_expresslane
none_missing = refl

run-silent_example :
    code_of (run ready_lane (silent ([] ∷ (1 ∷ []) ∷ [] ∷ []))) ≡ state_code degraded
run-silent_example =
    run-silent ready_lane ([] ∷ (1 ∷ []) ∷ [] ∷ []) 0 lane_ready none_missing (omega arith)
      (omega arith) (refl, (refl, (refl, tt)))

lane_supported : expresslane_supported sound_lane ≡ true
unfolding expresslane_supported is_datagram takes_part new_expresslane
lane_supported = refl

lane_sound : (state_code sound_lane.expresslane.state == state_code degraded) ≡ false
unfolding state_code new_expresslane
lane_sound = refl

lane_due : time_to_rotate_key sound_lane.expresslane 5 ≡ true
unfolding time_to_rotate_key interval_passed new_expresslane
lane_due = refl

lane_online : is_online sound_lane.state ≡ true
unfolding is_online
lane_online = refl

handshake_agrees_example :
    ((rotate_expresslane_key sound_lane first_key 5).1
      ≡ send_config (sent_config sound_lane first_key)
        ∷ schedule_key_share_tick 500 (sent_config sound_lane first_key)
        ∷ [])
    × (peer_key
          (handle_expresslane_config sound_lane
            (sent_config sound_lane first_key)
            second_key
            6).0.expresslane.session
        ≡ first_key)
    × (self_key
          (handle_expresslane_config
            (rotate_expresslane_key sound_lane first_key 5).0
            (record (sent_config sound_lane first_key) { ack = true; version = version2 })
            second_key
            7).0.expresslane.session
        ≡ first_key)
handshake_agrees_example =
    handshake_agrees sound_lane sound_lane first_key second_key second_key 5 6 7 1 version2
      lane_online lane_online lane_supported lane_sound lane_sound lane_due refl

abbrev long_packet : List ℕ
long_packet = 1 ∷ 2 ∷ 3 ∷ 4 ∷ 5 ∷ []

abbrev frag_at : ℕ → List ℕ → Bool → DataFrag
frag_at offset payload more = record {
  id = 8;
  offset = offset;
  more_fragments = more;
  payload = payload;
}

-- The last fragment comes first.
abbrev arrivals : List DataFrag
arrivals = frag_at 4 (5 ∷ []) false ∷ frag_at 0 (1 ∷ 2 ∷ []) true ∷ frag_at 2 (3 ∷ 4 ∷ []) true ∷ []

pieces_of_long :
    split 5 8 2 0 long_packet
    ≡ frag_at 0 (1 ∷ 2 ∷ []) true ∷ frag_at 2 (3 ∷ 4 ∷ []) true ∷ frag_at 4 (5 ∷ []) false ∷ []
unfolding split is_empty
pieces_of_long = refl

shuffled : Permᴰ (split (length long_packet) (next_fragment_id 7) 2 0 long_packet) arrivals
unfolding split is_empty next_fragment_id
shuffled = Permᴰ.trans (Permᴰ.cons refl (Permᴰ.swap refl refl)) (Permᴰ.swap refl refl)

send-deliver_example :
    (send_fragmented_outside_data 7 long_packet 2 false ≡ (
      next_fragment_id 7,
      sent (map (as_frame false) (split (length long_packet) (next_fragment_id 7) 2 0 long_packet)),
    ))
    × (map (λ r. r.1) (deliver ⦃lru = slots⦄ (λ id. none) arrivals)
        ≡ replicate (length arrivals - 1) incomplete ++ (complete long_packet ∷ []))
send-deliver_example =
    send-deliver ⦃lru = slots⦄ (λ id. none) 7 2 long_packet false arrivals refl (omega arith)
      (omega arith) (omega arith) shuffled
