-- ===== src/Connection/Fatal.antt =====
-- lightway-core/src/connection.rs: when a packet of the express lane ends a connection over datagrams.
mod Runs
use lightway.Base.{ℕ, ◌≡◌, refl, Bool, true, false, ◌&&◌, List, [], Option, none, some, arith}
use lightway.Wire.BigEndian.{BigEndian}
use lightway.Expresslane.Aead.{ExpresslaneAead, ExpresslaneResult, ok, err}
use lightway.Expresslane.Packets.{append_to_wire, try_from_wire}
use lightway.Connection.Types.{
  ConnectionType, datagram, is_online, ConnectionResult, done, failed, send_frame_or_queue,
}
use lightway.Connection.Errors.{is_fatal, expresslane_error-is_fatal}
use lightway.Connection.Inside.{
  Inside, IoResult, io_ok, would_block, io_failed, CodecResult, packet_accepted, skip_packet,
  codec_failed, PluginResult, accept, drop_packet, drop_with_reply, plugin_failed, do_egress,
  ipv4_is_valid_packet, egress, send_to_inside, decoded, decode, handle_outside_data_bytes,
  handle_received, send_result, udp_send, handle_sealed, process_expresslane_data,
  send_expresslane_data,
}

-- Whether a result ends the connection.
unfoldable pub ends : ConnectionType → ConnectionResult → Bool
ends t done = false
ends t (failed e) = is_fatal e t
ends t (send_frame_or_queue frame) = false

-- Whether a decoder fails on a packet.
unfoldable pub fails : CodecResult → Bool
fails packet_accepted = false
fails skip_packet = false
fails codec_failed = true

-- Whether what a session delivered is encoded, with no decoder for it or one that fails.
module _ {D : Type 0} where
  unfoldable pub undecodable :
      (D → List ℕ → D × List ℕ × CodecResult) → Option D → ExpresslaneResult (List ℕ × Bool) → Bool
  undecodable store decoder (err e) = false
  undecodable store none (ok (packet, is_encoded)) = is_encoded
  undecodable store (some decoder) (ok (packet, is_encoded)) =
      is_encoded && fails (store decoder packet).2

module _ {A D : Type 0} where
  ends-egress :
      (c : Inside A D) (now : ℕ) (packet : List ℕ) (result : PluginResult)
      → ends datagram (egress c now packet result).2 ≡ false
  unfolding ends egress is_fatal
  ends-egress c now packet accept = refl
  ends-egress c now packet drop_packet = refl
  ends-egress c now packet drop_with_reply = refl
  ends-egress c now packet plugin_failed = refl

  ends-send_to_inside :
      (c : Inside A D) (now : ℕ) (packet : List ℕ)
      → ends datagram (send_to_inside c now packet).2 ≡ false
  unfolding ends send_to_inside is_fatal
  ends-send_to_inside c now packet =
      let passed = do_egress c.inside_plugins packet in
      ground (arith, ends-egress c now passed.0 passed.1)

  ends-decoded :
      (c : Inside A D) (now : ℕ) (packet : List ℕ) (result : CodecResult)
      → ends datagram (decoded c now packet result).2 ≡ fails result
  unfolding ends decoded fails is_fatal
  ends-decoded c now packet packet_accepted = refl
  ends-decoded c now packet skip_packet = ends-send_to_inside c now packet
  ends-decoded c now packet codec_failed = refl

  ends-handle_received :
      (store : D → List ℕ → D × List ℕ × CodecResult) (c : Inside A D) (now : ℕ)
      (decoder : Option D) (received : ExpresslaneResult (List ℕ × Bool))
      → c.inside_pkt_decoder ≡ decoder
      → ends datagram (handle_received store c now received).2 ≡ undecodable store decoder received
  unfolding ends handle_received handle_outside_data_bytes decode undecodable is_fatal
  ends-handle_received store c now decoder (err e) is = (expresslane_error-is_fatal e).1
  ends-handle_received store c now none (ok (packet, true)) is = rw is refl
  ends-handle_received store c now none (ok (packet, false)) is = ends-send_to_inside c now packet
  ends-handle_received store c now (some d) (ok (packet, true)) is =
      let stored = store d packet in
      rw is (ends-decoded (record c { inside_pkt_decoder = some stored.0 }) now stored.1 stored.2)
  ends-handle_received store c now (some d) (ok (packet, false)) is =
      ends-send_to_inside c now packet

  ends-handle_sealed :
      (c : Inside A D) (now : ℕ) (buf : List ℕ) (result : IoResult)
      (sealed : ExpresslaneResult (Unit {0}))
      → ends datagram (handle_sealed c now buf result sealed).2 ≡ false
  unfolding ends handle_sealed udp_send send_result is_fatal
  ends-handle_sealed c now buf result (err e) = (expresslane_error-is_fatal e).0
  ends-handle_sealed c now buf io_ok (ok u) = refl
  ends-handle_sealed c now buf would_block (ok u) = refl
  ends-handle_sealed c now buf io_failed (ok u) = refl

module _ {A D : Type 0} ⦃crypto : ExpresslaneAead A⦄ ⦃be : BigEndian⦄ where
  -- Over datagrams, a packet of the express lane that is received ends the connection exactly where the
  -- session delivers it as encoded, and there is no decoder or the decoder fails on it; one that is sent
  -- never does, whatever the session, the plugins and the socket answer.
  pub expresslane-ends :
      (store : D → List ℕ → D × List ℕ × CodecResult) (c : Inside A D) (now : ℕ)
      (buf session_id plaintext iv : List ℕ) (is_encoded : Bool) (result : IoResult)
      → (ends datagram (process_expresslane_data store c now buf session_id).1.2
          ≡ undecodable store c.inside_pkt_decoder (try_from_wire c.session buf session_id).2)
        × (ends datagram (send_expresslane_data c now session_id plaintext iv is_encoded result).2
            ≡ false)
  unfolding process_expresslane_data send_expresslane_data
  expresslane-ends store c now buf session_id plaintext iv is_encoded result =
      let received = try_from_wire c.session buf session_id in
      let sent = append_to_wire c.session [] session_id plaintext iv is_encoded in
      (
        ends-handle_received store
            (record c { session = received.0; last_outside_data_received = now }) now
            c.inside_pkt_decoder received.2 refl,
        ends-handle_sealed (record c { session = sent.0 }) now sent.1 result sent.2,
      )
