-- ===== src/Connection/Errors.antt =====
-- lightway-core/src/connection.rs: which errors end a connection.
use lightway.Base.{◌≡◌, refl, Bool, true, false}
use lightway.Wire.Buffer.{
  FromWireError, unknown_frame_type, insufficient_data, invalid_express_data, replayed_express_data,
  invalid_protocol_version, invalid_magic_number, invalid_enum_encoding, invalid_string_encoding,
  field_too_large, invalid_bool, invalid_express_data_path,
}
use lightway.Expresslane.Aead.{
  ExpresslaneError, no_key, replayed, new_cipher_failed, set_key_failed, encrypt_failed,
  auth_failed, payload_too_large, buffer_too_small,
}
use lightway.Expresslane.Aead
use lightway.Connection.Types
use lightway.Connection.Types.{
  ConnectionError, ConnectionType, stream, datagram, TlsError, ErrorKind, fatal, tls_failed,
  domain_name_mismatch, duplicate_message, peer_closed, ca_cert_not_available,
  cert_verification_failed, other_kind, timed_out, disconnected_error, unauthorized, invalid_state,
  invalid_mode, invalid_connection_type, invalid_inside_io, outside_io_write_error,
  rejected_session_id, unknown_session_id, access_denied, no_available_client_ip,
  invalid_inside_ip_config, invalid_inside_packet, path_mtu_discovery_required,
  plugin_drop_with_reply, plugin_error, packet_error, peer_goodbye, expresslane_version_mismatch,
  expresslane_degraded, packet_codec_does_not_exist, packet_codec_error, wire_error,
  data_fragment_error, tls, expresslane_error,
}

-- `is_fatal` of a datagram connection for errors of the wire and of TLS; the kind of alert that only
-- one of the TLS libraries knows is left out.
wire_is_fatal : FromWireError → Bool
wire_is_fatal unknown_frame_type = false
wire_is_fatal insufficient_data = false
wire_is_fatal invalid_express_data = false
wire_is_fatal replayed_express_data = false
wire_is_fatal (invalid_protocol_version major minor) = false
wire_is_fatal (invalid_magic_number a b) = true
wire_is_fatal invalid_enum_encoding = true
wire_is_fatal invalid_string_encoding = true
wire_is_fatal field_too_large = true
wire_is_fatal invalid_bool = true
wire_is_fatal invalid_express_data_path = true

tls_is_fatal : TlsError → Bool
tls_is_fatal (fatal domain_name_mismatch) = true
tls_is_fatal (fatal duplicate_message) = true
tls_is_fatal (fatal peer_closed) = true
tls_is_fatal (fatal ca_cert_not_available) = true
tls_is_fatal (fatal cert_verification_failed) = false
tls_is_fatal (fatal other_kind) = false
tls_is_fatal tls_failed = false

datagram_is_fatal : ConnectionError → Bool
unfolding wire_is_fatal tls_is_fatal
datagram_is_fatal timed_out = true
datagram_is_fatal unauthorized = true
datagram_is_fatal invalid_mode = true
datagram_is_fatal invalid_connection_type = true
datagram_is_fatal no_available_client_ip = true
datagram_is_fatal invalid_inside_ip_config = true
datagram_is_fatal access_denied = true
datagram_is_fatal peer_goodbye = true
datagram_is_fatal packet_codec_does_not_exist = true
datagram_is_fatal packet_codec_error = true
datagram_is_fatal disconnected_error = true
datagram_is_fatal path_mtu_discovery_required = true
datagram_is_fatal (tls e) = tls_is_fatal e
datagram_is_fatal (wire_error e) = wire_is_fatal e
datagram_is_fatal Types.invalid_protocol_version = false
datagram_is_fatal invalid_state = false
datagram_is_fatal invalid_inside_io = false
datagram_is_fatal outside_io_write_error = false
datagram_is_fatal unknown_session_id = false
datagram_is_fatal invalid_inside_packet = false
datagram_is_fatal rejected_session_id = false
datagram_is_fatal plugin_drop_with_reply = false
datagram_is_fatal plugin_error = false
datagram_is_fatal packet_error = false
datagram_is_fatal (data_fragment_error e) = false
datagram_is_fatal expresslane_version_mismatch = false
datagram_is_fatal expresslane_degraded = false
datagram_is_fatal (expresslane_error e) = false

unfoldable pub is_fatal : ConnectionError → ConnectionType → Bool
unfolding datagram_is_fatal
is_fatal e stream = true
is_fatal e datagram = datagram_is_fatal e

-- The metrics that count the errors are left out.
pub expresslane_encrypt_error : ExpresslaneError → ConnectionError
expresslane_encrypt_error e = expresslane_error e

pub expresslane_decrypt_error : ExpresslaneError → FromWireError
expresslane_decrypt_error no_key = invalid_express_data
expresslane_decrypt_error replayed = replayed_express_data
expresslane_decrypt_error Aead.insufficient_data = insufficient_data
expresslane_decrypt_error new_cipher_failed = invalid_express_data
expresslane_decrypt_error set_key_failed = invalid_express_data
expresslane_decrypt_error encrypt_failed = invalid_express_data
expresslane_decrypt_error auth_failed = invalid_express_data
expresslane_decrypt_error payload_too_large = invalid_express_data
expresslane_decrypt_error buffer_too_small = invalid_express_data

-- No error of an express lane session ends a connection over datagrams.
pub expresslane_error-is_fatal :
    (e : ExpresslaneError)
    → (is_fatal (expresslane_encrypt_error e) datagram ≡ false)
      × (is_fatal (wire_error (expresslane_decrypt_error e)) datagram ≡ false)
unfolding is_fatal expresslane_encrypt_error expresslane_decrypt_error
expresslane_error-is_fatal no_key = (refl, refl)
expresslane_error-is_fatal replayed = (refl, refl)
expresslane_error-is_fatal Aead.insufficient_data = (refl, refl)
expresslane_error-is_fatal new_cipher_failed = (refl, refl)
expresslane_error-is_fatal set_key_failed = (refl, refl)
expresslane_error-is_fatal encrypt_failed = (refl, refl)
expresslane_error-is_fatal auth_failed = (refl, refl)
expresslane_error-is_fatal payload_too_large = (refl, refl)
expresslane_error-is_fatal buffer_too_small = (refl, refl)
