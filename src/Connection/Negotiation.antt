-- ===== src/Connection/Negotiation.antt =====
-- lightway-core/src/connection.rs: requests to switch the codec, from both ends.
use lightway.Base.{
  ℕ, zero, suc, ◌+◌, ◌%◌, ◌^◌, ◌≤◌, ◌≡◌, refl, ap, inl, inr, max, Bool, true, false, List, [], ◌∷◌,
  ◌++◌, none, some, ltb, leb, ◌==◌, All, replicate, arith, Bool-cases,
}
use lightway.Wire.EncodingRequest.{EncodingRequest}
use lightway.Wire.Frame.{encoding_request, encoding_response}
use lightway.Connection.Types.{
  online, datagram, client, server, is_online, is_datagram, is_client, ConnectionResult, done,
  send_frame_or_queue,
}
use lightway.Connection.Encoding.{
  Codec, EncodingRequestStates, encoding_state_changed, process_request,
  process_encoding_request_pkt, settle, process_response, process_encoding_response_pkt, request,
  set_encoding, retransmit, tick, codec_tick, switched, max_retransmissions,
}

-- Ends that are online over datagrams and have an encoder; the server may use it.
abbrev pub client_codec : Bool → Bool → EncodingRequestStates → Codec
client_codec encoder allowed states = record {
  state = online;
  connection_type = datagram;
  mode = client;
  inside_pkt_encoder = some encoder;
  can_use_inside_pkt_encoding = allowed;
  encoding_request_states = states;
}

abbrev pub server_codec : Bool → EncodingRequestStates → Codec
server_codec encoder states = record {
  state = online;
  connection_type = datagram;
  mode = server;
  inside_pkt_encoder = some encoder;
  can_use_inside_pkt_encoding = true;
  encoding_request_states = states;
}

-- Requests as they arrive at the server.
pub run_requests : Codec → List EncodingRequest → Codec
run_requests c [] = c
run_requests c (er ∷ ers) = run_requests (process_encoding_request_pkt c er).0 ers

pub latest : ℕ → List EncodingRequest → ℕ
latest id [] = id
latest id (er ∷ ers) = latest (max id er.id) ers

-- Every request asks for what `setting` has under its id.
abbrev pub AskFor : (ℕ → Bool) → List EncodingRequest → Type 0
AskFor setting ers = All (λ (er : EncodingRequest). er.enable ≡ setting er.id) ers

process_lem :
    (encoder : Bool) (states : EncodingRequestStates) (er : EncodingRequest)
    → (ltb er.id states.id_counter ≡ true
        → process_encoding_request_pkt (server_codec encoder states) er
          ≡ (server_codec encoder states, [], done))
      × (ltb er.id states.id_counter ≡ false
          → process_encoding_request_pkt (server_codec encoder states) er ≡ (
            server_codec er.enable (record states { id_counter = er.id }),
            encoding_state_changed er.enable ∷ [],
            send_frame_or_queue (encoding_response (record { id = er.id; enable = er.enable })),
          ))
unfolding process_encoding_request_pkt process_request is_online is_datagram is_client switched
process_lem encoder states er = (λ stale. rw stale refl, λ fresh. rw fresh refl)

run_requests_settles :
    (setting : ℕ → Bool) (encoder : Bool) (states : EncodingRequestStates)
    (ers : List EncodingRequest)
    → encoder ≡ setting states.id_counter
    → AskFor setting ers
    → run_requests (server_codec encoder states) ers
      ≡ server_codec
          (setting (latest states.id_counter ers))
          (record states { id_counter = latest states.id_counter ers })
unfolding run_requests latest
run_requests_settles setting encoder states [] e asks = ap (λ b. server_codec b states) e
run_requests_settles setting encoder states (er ∷ ers) e (ask, asks) =
    elim (Bool-cases (ltb er.id states.id_counter)) [
      | inl stale ↦
          let same : max states.id_counter er.id ≡ states.id_counter = ground arith in
          rw ((process_lem encoder states er).0 stale, same)
            (run_requests_settles setting encoder states ers e asks)
      | inr fresh ↦
          let newer : max states.id_counter er.id ≡ er.id = ground arith in
          rw ((process_lem encoder states er).1 fresh, newer)
            (run_requests_settles setting er.enable (record states { id_counter = er.id }) ers ask
              asks)
    ]

-- However the requests of a client reach a server that may use its encoder, late, repeated or out of
-- order, the encoder ends as the request with the highest id asks; where that id is the server's own
-- already, as it was.
pub run_requests-latest :
    (setting : ℕ → Bool) (states : EncodingRequestStates) (ers : List EncodingRequest)
    → AskFor setting ers
    → (run_requests (server_codec (setting states.id_counter) states) ers).inside_pkt_encoder
      ≡ some (setting (latest states.id_counter ers))
run_requests-latest setting states ers asks =
    ap (λ c. c.inside_pkt_encoder)
      (run_requests_settles setting (setting states.id_counter) states ers refl asks)

-- The request that `set_encoding` makes, and what it leaves at the client.
abbrev pub next_request : EncodingRequestStates → Bool → EncodingRequest
next_request states enable = record { id = (states.id_counter + 1) % 2 ^ 64; enable = enable }

-- Between a client and a server that are online over datagrams and have an encoder, which the server may
-- use: when the client asks for a setting, the request reaches the server under an id that the server has
-- not passed, and the response comes back, then both encoders have that setting, and the client waits for
-- no response.
pub set_encoding_agrees :
    (b b' allowed enable : Bool) (cs ss : EncodingRequestStates)
    → ss.id_counter ≤ (next_request cs enable).id
    → ((set_encoding (client_codec b allowed cs) enable).2
        ≡ send_frame_or_queue (encoding_request (next_request cs enable)))
      × ((process_encoding_request_pkt (server_codec b' ss) (next_request cs enable)).2
          ≡ send_frame_or_queue
              (encoding_response (record { id = (next_request cs enable).id; enable = enable })))
      × ((process_encoding_request_pkt
            (server_codec b' ss)
            (next_request cs enable)).0.inside_pkt_encoder
          ≡ some enable)
      × ((process_encoding_response_pkt
            (set_encoding (client_codec b allowed cs) enable).0
            (record { id = (next_request cs enable).id; enable = enable })).0.inside_pkt_encoder
          ≡ some enable)
      × ((process_encoding_response_pkt
            (set_encoding (client_codec b allowed cs) enable).0
            (record { id = (next_request cs enable).id; enable = enable })
              ).0.encoding_request_states.pending_request_pkt
          ≡ none)
unfolding set_encoding request process_encoding_response_pkt process_response settle switched
    is_online is_datagram is_client
set_encoding_agrees b b' allowed enable cs ss newer =
    let id = (next_request cs enable).id in
    let fresh : ltb id ss.id_counter ≡ false = ground (arith, newer) in
    let same : (id == id) ≡ true = ground arith in
    let served = (process_lem b' ss (next_request cs enable)).1 fresh in
    rw (served, same) (refl, refl, refl, refl, refl)

-- Ticks for one request, and what each gave.
pub run_ticks : ℕ → Codec → ℕ → Codec × List ConnectionResult
run_ticks zero c id = (c, [])
run_ticks (suc n) c id =
    let (next, effects, result) = codec_tick c id in
    let (last, results) = run_ticks n next id in (last, result ∷ results)

-- Where no response comes, a request that has been sent again fewer times than the limit is sent again
-- up to the limit, by one tick each, and the tick after those gives it up.
pub run_ticks_gives_up :
    (b allowed : Bool) (id : ℕ) (er : EncodingRequest) (left sent : ℕ)
    → left + sent ≡ max_retransmissions
    → ((run_ticks
          (suc left)
          (client_codec b allowed (record {
            id_counter = id;
            pending_request_pkt = some er;
            retransmissions_counter = sent;
          }))
          id).0.encoding_request_states.pending_request_pkt
        ≡ none)
      × ((run_ticks
            (suc left)
            (client_codec b allowed (record {
              id_counter = id;
              pending_request_pkt = some er;
              retransmissions_counter = sent;
            }))
            id).1
          ≡ replicate left (send_frame_or_queue (encoding_request er)) ++ (done ∷ []))
unfolding run_ticks codec_tick tick retransmit is_online is_datagram is_client
run_ticks_gives_up b allowed id er zero sent e =
    let same : (id == id) ≡ true = ground arith in
    let full : leb max_retransmissions sent ≡ true = ground (arith, e) in
    rw (same, full) (refl, refl)
run_ticks_gives_up b allowed id er (suc left) sent e =
    let same : (id == id) ≡ true = ground arith in
    let room : leb max_retransmissions sent ≡ false = ground (arith, e) in
    let next : (sent + 1) % 2 ^ 8 ≡ sent + 1 = omega (arith, e) in
    let (gone, sends) = run_ticks_gives_up b allowed id er left (sent + 1) (omega arith) in
    rw (same, room, next) (gone, ap (◌∷◌ (send_frame_or_queue (encoding_request er))) sends)
