-- ===== src/Connection/Fatal/Runs.antt =====
-- Packets of the express lane at a concrete connection.
use lightway.Base.{ℕ, ◌≡◌, refl, false, true, List, [], ◌∷◌, ◌++◌, replicate, none}
use lightway.Versions.{version2}
use lightway.Wire.Bytes.{big_endian, read_onto}
use lightway.Replay.{
  default, would_reject, is_set, commit, set_slot, advance, clear_slots, clear_slot,
}
use lightway.Expresslane.Aead.{same_bytes, is_invalid}
use lightway.Expresslane.Cipher.{test_cipher, first_key}
use lightway.Expresslane.Session.{
  ExpresslaneSession, new, accept, checked_header, read_header, ciphertext_of, update_peer_key,
  update_next_self_key, promote_self_key, promote, stage, install, open_with, open_prev, encoded,
}
use lightway.Expresslane.Packets.{receive, deliver, authenticate, try_from_wire}
use lightway.Expresslane.Histories.{
  run, step, call_update_next_self_key, call_update_peer_key, call_promote_self_key,
}
use lightway.Connection.Types.{online, datagram}
use lightway.Connection.Inside.{
  Inside, CodecResult, skip_packet, io_failed, process_expresslane_data, send_expresslane_data,
}
use lightway.Connection.Fatal.{ends, undecodable, expresslane-ends}

keyed : ExpresslaneSession ℕ
keyed = run (new version2) (
    call_update_next_self_key first_key
    ∷ call_promote_self_key
    ∷ call_update_peer_key first_key
    ∷ [])

-- A connection without a decoder.
abbrev plain : Inside ℕ ℕ
plain = record {
  state = online;
  session = keyed;
  inside_pkt_decoder = none;
  has_inside_io = true;
  inside_plugins = [];
  last_outside_data_received = 0;
  last_data_traffic_from_peer = 0;
  last_data_delivered_to_inside = 0;
}

abbrev session_id : List ℕ
session_id = replicate 8 9

abbrev iv : List ℕ
iv = replicate 12 3

abbrev packet : List ℕ
packet = 69 ∷ 0 ∷ []

-- A frame under `first_key` that says that its packet is encoded.
abbrev encoded_frame : List ℕ
encoded_frame =
    (0 ∷ 0 ∷ 0 ∷ 0 ∷ 0 ∷ 0 ∷ 0 ∷ 1 ∷ []) ++ iv ++ replicate 16 1 ++ (0 ∷ 2 ∷ 128 ∷ 0 ∷ []) ++ packet

abbrev skip : ℕ → List ℕ → ℕ × List ℕ × CodecResult
skip d bytes = (d, bytes, skip_packet)

expresslane-ends_example :
    (ends datagram (process_expresslane_data skip plain 5 encoded_frame session_id).1.2
      ≡ undecodable skip none (try_from_wire keyed encoded_frame session_id).2)
    × (ends datagram (send_expresslane_data plain 5 session_id packet iv true io_failed).2 ≡ false)
expresslane-ends_example =
    expresslane-ends skip plain 5 encoded_frame session_id packet iv true io_failed

-- That frame ends the connection.
encoded_delivered : undecodable skip none (try_from_wire keyed encoded_frame session_id).2 ≡ true
unfolding undecodable keyed try_from_wire receive checked_header read_header read_onto deliver
    authenticate would_reject is_set ciphertext_of open_with open_prev is_invalid same_bytes accept
    commit set_slot advance clear_slots clear_slot default encoded run step new update_next_self_key
    update_peer_key promote_self_key promote stage install
encoded_delivered = refl
