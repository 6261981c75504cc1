-- ===== src/Connection/Inside.antt =====
-- lightway-core/src/connection.rs, with the plugins' list of lightway-core/src/plugin.rs and the statuses of
-- lightway-core/src/packet_codec.rs: packets of the express lane on their way inside and outside. The
-- decoder, each plugin and the socket are the application's, and arguments here. The count of frames
-- that a success answers, which is 1, is left out.
use lightway.Base.{
  ℕ, ◌/◌, Bool, true, false, not, List, [], ◌∷◌, Option, none, some, ◌==◌, if◌then◌else◌,
}
use mathlib.Core.List.{reverse}
use lightway.Wire.BigEndian.{BigEndian}
use lightway.Expresslane.Aead.{ExpresslaneAead, ExpresslaneResult, ok, err}
use lightway.Expresslane.Session.{ExpresslaneSession}
use lightway.Expresslane.Packets.{append_to_wire, try_from_wire}
use lightway.Connection.Types.{
  State, is_online, ConnectionResult, done, failed, invalid_state, invalid_inside_packet,
  plugin_drop_with_reply, plugin_error, packet_codec_does_not_exist, packet_codec_error,
  outside_io_write_error, wire_error,
}
use lightway.Connection.Errors.{expresslane_encrypt_error, expresslane_decrypt_error}

-- `CodecStatus`, or an error of the decoder.
pub data CodecResult : Type 0 where
  packet_accepted skip_packet codec_failed : CodecResult

pub data PluginResult : Type 0 where
  accept drop_packet drop_with_reply plugin_failed : PluginResult

-- A plugin's `egress`, on the packet that it may change.
abbrev pub Plugin : Type 0
Plugin = List ℕ → List ℕ × PluginResult

unfoldable pub is_accept : PluginResult → Bool
is_accept accept = true
is_accept drop_packet = false
is_accept drop_with_reply = false
is_accept plugin_failed = false

-- The loop of `PluginList::do_egress` over the plugins, the first to run first.
unfoldable pub run_egress : List Plugin → List ℕ → List ℕ × PluginResult
run_egress [] packet = (packet, accept)
run_egress (plugin ∷ plugins) packet =
    let (changed, result) = plugin packet in
    let others = run_egress plugins changed in
    if is_accept result then others else (changed, result)

unfoldable pub do_egress : List Plugin → List ℕ → List ℕ × PluginResult
unfolding run_egress
do_egress plugins packet = run_egress (reverse plugins) packet

pub data IoResult : Type 0 where
  io_ok would_block io_failed : IoResult

-- The fields of a connection that packets of the express lane read and write; `D` is the decoder.
pub record Inside (A D : Type 0) : Type 0 where
  pub state : State
  pub session : ExpresslaneSession A
  pub inside_pkt_decoder : Option D
  pub has_inside_io : Bool
  pub inside_plugins : List Plugin
  pub last_outside_data_received : ℕ
  pub last_data_traffic_from_peer : ℕ
  pub last_data_delivered_to_inside : ℕ

pub data Effect : Type 0 where
  sent_inside udp_sent : List ℕ → Effect

abbrev pub Reply : Type 0 → Type 0 → Type 0
Reply A D = Inside A D × List Effect × ConnectionResult

-- lightway-core/src/utils.rs.
unfoldable pub ipv4_is_valid_packet : List ℕ → Bool
ipv4_is_valid_packet [] = false
ipv4_is_valid_packet (first_byte ∷ rest) = first_byte / 16 == 4

unfoldable pub send_result : IoResult → ConnectionResult
send_result io_ok = done
send_result would_block = done
send_result io_failed = failed outside_io_write_error

module _ {A D : Type 0} where
  -- What the plugins made of the packet, and what becomes of it. The result of the inside socket is
  -- not looked at.
  unfoldable pub egress : Inside A D → ℕ → List ℕ → PluginResult → Reply A D
  egress c now inside_pkt accept = (
    record c { last_data_traffic_from_peer = now; last_data_delivered_to_inside = now },
    sent_inside inside_pkt ∷ [],
    done,
  )
  egress c now inside_pkt drop_packet = (c, [], done)
  egress c now inside_pkt drop_with_reply = (c, [], failed plugin_drop_with_reply)
  egress c now inside_pkt plugin_failed = (c, [], failed plugin_error)

  unfoldable pub send_to_inside : Inside A D → ℕ → List ℕ → Reply A D
  unfolding egress do_egress
  send_to_inside c now inside_pkt =
      if not (is_online c.state)
      then (c, [], failed invalid_state)
      else if not (ipv4_is_valid_packet inside_pkt)
      then (c, [], failed invalid_inside_packet)
      else if not c.has_inside_io
      then (c, [], failed invalid_inside_packet)
      else let (passed, result) = do_egress c.inside_plugins inside_pkt in
        egress c now passed result

  -- What the decoder answered.
  unfoldable pub decoded : Inside A D → ℕ → List ℕ → CodecResult → Reply A D
  unfolding send_to_inside
  decoded c now inside_bytes packet_accepted = (c, [], done)
  decoded c now inside_bytes skip_packet = send_to_inside c now inside_bytes
  decoded c now inside_bytes codec_failed = (c, [], failed packet_codec_error)

  unfoldable pub decode :
      (D → List ℕ → D × List ℕ × CodecResult) → Inside A D → ℕ → List ℕ → Option D → Reply A D
  unfolding decoded
  decode store c now inside_bytes none = (c, [], failed packet_codec_does_not_exist)
  decode store c now inside_bytes (some decoder) =
      let (stored, left, result) = store decoder inside_bytes in
      decoded (record c { inside_pkt_decoder = some stored }) now left result

  unfoldable pub handle_outside_data_bytes :
      (D → List ℕ → D × List ℕ × CodecResult) → Inside A D → ℕ → List ℕ → Bool → Reply A D
  unfolding send_to_inside decode
  handle_outside_data_bytes store c now inside_bytes is_encoded =
      if not is_encoded
      then send_to_inside c now inside_bytes
      else decode store c now inside_bytes c.inside_pkt_decoder

  unfoldable pub handle_received :
      (D → List ℕ → D × List ℕ × CodecResult)
      → Inside A D
      → ℕ
      → ExpresslaneResult (List ℕ × Bool)
      → Reply A D
  unfolding handle_outside_data_bytes
  handle_received store c now (err e) = (c, [], failed (wire_error (expresslane_decrypt_error e)))
  handle_received store c now (ok (bytes, is_encoded)) =
      handle_outside_data_bytes store c now bytes is_encoded

  unfoldable pub udp_send : Inside A D → List ℕ → IoResult → Reply A D
  unfolding send_result
  udp_send c packet result = (c, udp_sent packet ∷ [], send_result result)

  -- What follows sealing.
  unfoldable pub handle_sealed :
      Inside A D → ℕ → List ℕ → IoResult → ExpresslaneResult (Unit {0}) → Reply A D
  unfolding udp_send
  handle_sealed c now buf result (err e) = (c, [], failed (expresslane_encrypt_error e))
  handle_sealed c now buf result (ok _) =
      udp_send (record c { last_data_traffic_from_peer = now }) buf result

module _ {A D : Type 0} ⦃crypto : ExpresslaneAead A⦄ ⦃be : BigEndian⦄ where
  -- `process_new_outside_data` where the header says that the packet is one of the express lane. It
  -- answers what is left in the buffer too.
  unfoldable pub process_expresslane_data :
      (D → List ℕ → D × List ℕ × CodecResult)
      → Inside A D
      → ℕ
      → List ℕ
      → List ℕ
      → List ℕ × Reply A D
  unfolding handle_received
  process_expresslane_data store c now buf session_id =
      let (session, left, received) = try_from_wire c.session buf session_id in
      (
        left,
        handle_received store (record c { session = session; last_outside_data_received = now }) now
            received,
      )

  -- `session_id` is that of the pending session, where there is one; `result` is that of the socket.
  unfoldable pub send_expresslane_data :
      Inside A D → ℕ → List ℕ → List ℕ → List ℕ → Bool → IoResult → Reply A D
  unfolding handle_sealed
  send_expresslane_data c now session_id plaintext iv is_encoded result =
      let (session, buf, sealed) = append_to_wire c.session [] session_id plaintext iv is_encoded in
      handle_sealed (record c { session = session }) now buf result sealed
