-- ===== src/Connection/Types.antt =====
-- lightway-core/src/connection.rs, lightway-core/src/context.rs and
-- lightway-core/src/connection/expresslane.rs: the states and errors that the parts of a connection share.
use lightway.Base.{Bool, true, false}
use lightway.Wire.Buffer.{FromWireError}
use lightway.Wire.Frame.{Frame}
use lightway.Fragments.{FragmentMapError}
use lightway.Expresslane.Aead.{ExpresslaneError}

pub data State : Type 0 where
  connecting link_up authenticating online disconnecting disconnected : State

unfoldable pub is_online : State → Bool
is_online online = true
is_online connecting = false
is_online link_up = false
is_online authenticating = false
is_online disconnecting = false
is_online disconnected = false

pub data ConnectionType : Type 0 where
  stream datagram : ConnectionType

unfoldable pub is_datagram : ConnectionType → Bool
is_datagram stream = false
is_datagram datagram = true

-- `ConnectionMode`, without what the two modes carry.
pub data Mode : Type 0 where
  client server : Mode

unfoldable pub is_client : Mode → Bool
is_client client = true
is_client server = false

pub data ExpresslaneState : Type 0 where
  disabled waiting_for_client inactive active degraded : ExpresslaneState

-- The kinds of error of the TLS library that are told apart.
pub data ErrorKind : Type 0 where
  domain_name_mismatch duplicate_message peer_closed ca_cert_not_available cert_verification_failed
        other_kind :
      ErrorKind

pub data TlsError : Type 0 where
  fatal : ErrorKind → TlsError
  tls_failed : TlsError

-- The errors, without the texts and values that only a message prints.
pub data ConnectionError : Type 0 where
  timed_out disconnected_error unauthorized invalid_state invalid_mode invalid_connection_type :
      ConnectionError
  invalid_inside_io outside_io_write_error rejected_session_id unknown_session_id : ConnectionError
  invalid_protocol_version access_denied no_available_client_ip invalid_inside_ip_config :
      ConnectionError
  invalid_inside_packet path_mtu_discovery_required plugin_drop_with_reply plugin_error :
      ConnectionError
  packet_error peer_goodbye expresslane_version_mismatch expresslane_degraded : ConnectionError
  packet_codec_does_not_exist packet_codec_error : ConnectionError
  wire_error : FromWireError → ConnectionError
  data_fragment_error : FragmentMapError → ConnectionError
  tls : TlsError → ConnectionError
  expresslane_error : ExpresslaneError → ConnectionError

-- How a method ends: with success, with an error, or with `send_frame_or_queue` of a frame, whose result
-- is then its own.
pub data ConnectionResult : Type 0 where
  done : ConnectionResult
  failed : ConnectionError → ConnectionResult
  send_frame_or_queue : Frame → ConnectionResult
