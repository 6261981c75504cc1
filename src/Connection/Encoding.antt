-- ===== src/Connection/Encoding.antt =====
-- lightway-core/src/connection.rs and lightway-core/src/encoding_request_states.rs: switching the inside
-- packet codec on and off. The encoder, which the application brings, is the state that it reports.
use lightway.Base.{
  ℕ, ◌+◌, ◌*◌, ◌%◌, ◌^◌, Bool, true, false, not, ◌||◌, List, [], ◌∷◌, Option, none, some, ltb, leb,
  ◌==◌, if◌then◌else◌,
}
use lightway.Wire.EncodingRequest.{EncodingRequest}
use lightway.Wire.EncodingResponse.{EncodingResponse}
use lightway.Wire.Frame.{encoding_request, encoding_response}
use lightway.Connection.Types.{
  State, is_online, ConnectionType, is_datagram, Mode, is_client, ConnectionResult, done, failed,
  send_frame_or_queue, invalid_state, invalid_mode, invalid_connection_type,
  packet_codec_does_not_exist,
}

abbrev pub max_retransmissions : ℕ
max_retransmissions = 5

pub record EncodingRequestStates : Type 0 where
  pub id_counter : ℕ
  pub pending_request_pkt : Option EncodingRequest
  pub retransmissions_counter : ℕ

-- In milliseconds; the sum is one of bytes.
unfoldable pub retransmit_wait_time : EncodingRequestStates → ℕ
retransmit_wait_time s = 500 * ((1 + s.retransmissions_counter) % 2 ^ 8)

-- The fields of a connection that the codec reads and writes.
pub record Codec : Type 0 where
  pub state : State
  pub connection_type : ConnectionType
  pub mode : Mode
  pub inside_pkt_encoder : Option Bool
  pub can_use_inside_pkt_encoding : Bool
  pub encoding_request_states : EncodingRequestStates

pub data Effect : Type 0 where
  encoding_state_changed : Bool → Effect
  schedule_codec_tick : ℕ → ℕ → Effect

abbrev pub Reply : Type 0
Reply = Codec × List Effect × ConnectionResult

-- `encoder.set_encoding_state`, and the event.
unfoldable pub switched : Codec → Bool → EncodingRequestStates → Codec
switched c enable states = record c {
  inside_pkt_encoder = some enable;
  encoding_request_states = states;
}

unfoldable pub process_request : Codec → Option Bool → EncodingRequest → Reply
unfolding switched
process_request c none er = (c, [], done)
process_request c (some encoder) er =
    let states = c.encoding_request_states in
    if not c.can_use_inside_pkt_encoding
    then (c, [], send_frame_or_queue (encoding_response (record { id = er.id; enable = false })))
    else if not (is_online c.state)
    then (c, [], failed invalid_state)
    else if not (is_datagram c.connection_type)
    then (c, [], failed invalid_connection_type)
    else if is_client c.mode
    then (c, [], failed invalid_mode)
    else if ltb er.id states.id_counter
    then (c, [], done)
    else (
      switched c er.enable (record states { id_counter = er.id }),
      encoding_state_changed er.enable ∷ [],
      send_frame_or_queue (encoding_response (record { id = er.id; enable = er.enable })),
    )

unfoldable pub process_encoding_request_pkt : Codec → EncodingRequest → Reply
unfolding process_request
process_encoding_request_pkt c er = process_request c c.inside_pkt_encoder er

-- The response to the pending request.
unfoldable pub settle : Codec → Option EncodingRequest → EncodingResponse → Reply
unfolding switched
settle c none te = (c, [], done)
settle c (some request) te =
    let states = c.encoding_request_states in
    if not (te.id == states.id_counter) then (c, [], done) else (
      switched c te.enable (record states { pending_request_pkt = none }),
      encoding_state_changed te.enable ∷ [],
      done,
    )

unfoldable pub process_response : Codec → Option Bool → EncodingResponse → Reply
unfolding settle
process_response c none te = (c, [], failed packet_codec_does_not_exist)
process_response c (some encoder) te =
    if not (is_online c.state)
    then (c, [], failed invalid_state)
    else if not (is_datagram c.connection_type)
    then (c, [], failed invalid_connection_type)
    else if not (is_client c.mode)
    then (c, [], failed invalid_mode)
    else settle c c.encoding_request_states.pending_request_pkt te

unfoldable pub process_encoding_response_pkt : Codec → EncodingResponse → Reply
unfolding process_response
process_encoding_response_pkt c te = process_response c c.inside_pkt_encoder te

pub is_encoding_enabled : Codec → Bool
is_encoding_enabled c = encoder_on c.inside_pkt_encoder
  where
    encoder_on : Option Bool → Bool
    encoder_on none = false
    encoder_on (some enabled) = enabled

unfoldable pub request : Codec → Option Bool → Bool → Reply
unfolding retransmit_wait_time
request c none enable = (c, [], failed packet_codec_does_not_exist)
request c (some encoder) enable =
    let id = (c.encoding_request_states.id_counter + 1) % 2 ^ 64 in
    let er : EncodingRequest = record { id = id; enable = enable } in
    let states : EncodingRequestStates = record {
      id_counter = id;
      pending_request_pkt = some er;
      retransmissions_counter = 0;
    } in
    if not (is_online c.state)
    then (c, [], failed invalid_state)
    else if not (is_datagram c.connection_type)
    then (c, [], failed invalid_connection_type)
    else (
      record c { encoding_request_states = states },
      schedule_codec_tick (retransmit_wait_time states) id ∷ [],
      send_frame_or_queue (encoding_request er),
    )

unfoldable pub set_encoding : Codec → Bool → Reply
unfolding request
set_encoding c enable = request c c.inside_pkt_encoder enable

is_pending : Option EncodingRequest → Bool
is_pending none = false
is_pending (some er) = true

-- `stalled_for` is the time since a packet was last delivered inside. The flag tells whether a request to
-- switch the codec off was made; its result is that of `set_encoding`.
pub downgrade_inside_pkt_codec_if_stalled : Codec → ℕ → ℕ → Reply × Bool
unfolding set_encoding is_pending is_encoding_enabled
downgrade_inside_pkt_codec_if_stalled c timeout stalled_for =
    if timeout == 0 || not (is_encoding_enabled c)
    then ((c, [], done), false)
    else if is_pending c.encoding_request_states.pending_request_pkt
    then ((c, [], done), false)
    else if not (ltb timeout stalled_for)
    then ((c, [], done), false)
    else (set_encoding c false, true)

-- The pending request is sent once more, or given up.
unfoldable pub retransmit : Codec → Option EncodingRequest → ℕ → Reply
unfolding retransmit_wait_time
retransmit c none request_id = (c, [], done)
retransmit c (some er) request_id =
    let states = c.encoding_request_states in
    let counted = record states {
      retransmissions_counter = (states.retransmissions_counter + 1) % 2 ^ 8;
    } in
    if not (request_id == states.id_counter)
    then (c, [], done)
    else if leb max_retransmissions states.retransmissions_counter
    then (
      record c { encoding_request_states = record states { pending_request_pkt = none } },
      [],
      done,
    )
    else (
      record c { encoding_request_states = counted },
      schedule_codec_tick (retransmit_wait_time counted) states.id_counter ∷ [],
      send_frame_or_queue (encoding_request er),
    )

unfoldable pub tick : Codec → Option Bool → ℕ → Reply
unfolding retransmit
tick c none request_id = (c, [], failed packet_codec_does_not_exist)
tick c (some encoder) request_id =
    if not (is_online c.state)
    then (c, [], failed invalid_state)
    else if not (is_datagram c.connection_type)
    then (c, [], failed invalid_connection_type)
    else if not (is_client c.mode)
    then (c, [], failed invalid_mode)
    else retransmit c c.encoding_request_states.pending_request_pkt request_id

unfoldable pub codec_tick : Codec → ℕ → Reply
unfolding tick
codec_tick c request_id = tick c c.inside_pkt_encoder request_id
