-- ===== src/Wire/Frame.antt =====
-- `Frame` of lightway-core/src/wire.rs: one byte of kind, then the payload of that kind.
pub mod RoundTrip
pub mod Safe
use lightway.Base.{
  ℕ, ◌≡◌, Bool, true, false, List, [], ◌∷◌, ◌++◌, ◌==◌, if◌then◌else◌, Option, none, some,
}
use lightway.Wire.Codec.{
  BigEndian, BorrowedBytesMut, Outcome, ok, err, panic, Decoder, FromWireError, insufficient_data,
  unknown_frame_type, return, fail, ◌>>=◌, ◌>>◌, get,
}
use lightway.Wire.Buffer.{from, commit}
use lightway.Wire.Ping
use lightway.Wire.Pong
use lightway.Wire.Data
use lightway.Wire.ServerConfig
use lightway.Wire.AuthFailure
use lightway.Wire.EncodingRequest
use lightway.Wire.EncodingResponse
use lightway.Wire.DataFrag
use lightway.Wire.ExpresslaneConfig
use lightway.Wire.AuthSuccess
use lightway.Wire.AuthRequest
use lightway.Wire.Ping.{Ping}
use lightway.Wire.Pong.{Pong}
use lightway.Wire.Data.{Data}
use lightway.Wire.ServerConfig.{ServerConfig}
use lightway.Wire.AuthFailure.{AuthFailure}
use lightway.Wire.EncodingRequest.{EncodingRequest}
use lightway.Wire.EncodingResponse.{EncodingResponse}
use lightway.Wire.DataFrag.{DataFrag}
use lightway.Wire.ExpresslaneConfig.{ExpresslaneConfig}
use lightway.Wire.AuthSuccess.{AuthSuccessWithConfigV4}
use lightway.Wire.AuthRequest.{AuthRequest}

pub data FrameKind : Type 0 where
  kind_no_op kind_ping kind_pong kind_auth_request kind_data kind_auth_success_with_config_v4
        kind_auth_failure kind_goodbye kind_server_config kind_data_frag kind_encoded_data
        kind_encoded_data_frag kind_encoding_request kind_encoding_response
        kind_expresslane_config :
      FrameKind

pub data Frame : Type 0 where
  no_op : Frame
  ping : Ping → Frame
  pong : Pong → Frame
  auth_request : AuthRequest → Frame
  data_frame : Data → Frame
  auth_success_with_config_v4 : AuthSuccessWithConfigV4 → Frame
  auth_failure_frame : AuthFailure → Frame
  goodbye : Frame
  server_config : ServerConfig → Frame
  data_frag : DataFrag → Frame
  encoded_data : Data → Frame
  encoded_data_frag : DataFrag → Frame
  encoding_request : EncodingRequest → Frame
  encoding_response : EncodingResponse → Frame
  expresslane_config : ExpresslaneConfig → Frame

-- The discriminants, and the derived `TryFromPrimitive`.
pub kind_to_u8 : FrameKind → ℕ
kind_to_u8 kind_no_op = 1
kind_to_u8 kind_ping = 2
kind_to_u8 kind_pong = 3
kind_to_u8 kind_auth_request = 4
kind_to_u8 kind_data = 5
kind_to_u8 kind_auth_success_with_config_v4 = 6
kind_to_u8 kind_auth_failure = 7
kind_to_u8 kind_goodbye = 12
kind_to_u8 kind_server_config = 14
kind_to_u8 kind_data_frag = 15
kind_to_u8 kind_encoded_data = 16
kind_to_u8 kind_encoded_data_frag = 17
kind_to_u8 kind_encoding_request = 18
kind_to_u8 kind_encoding_response = 19
kind_to_u8 kind_expresslane_config = 20

pub kind_from_u8 : ℕ → Option FrameKind
kind_from_u8 byte =
    if byte == 1
    then some kind_no_op
    else if byte == 2
    then some kind_ping
    else if byte == 3
    then some kind_pong
    else if byte == 4
    then some kind_auth_request
    else if byte == 5
    then some kind_data
    else if byte == 6
    then some kind_auth_success_with_config_v4
    else if byte == 7
    then some kind_auth_failure
    else if byte == 12
    then some kind_goodbye
    else if byte == 14
    then some kind_server_config
    else if byte == 15
    then some kind_data_frag
    else if byte == 16
    then some kind_encoded_data
    else if byte == 17
    then some kind_encoded_data_frag
    else if byte == 18
    then some kind_encoding_request
    else if byte == 19
    then some kind_encoding_response
    else if byte == 20
    then some kind_expresslane_config
    else none

pub kind : Frame → FrameKind
kind no_op = kind_no_op
kind (ping x) = kind_ping
kind (pong x) = kind_pong
kind (auth_request x) = kind_auth_request
kind (data_frame x) = kind_data
kind (auth_success_with_config_v4 x) = kind_auth_success_with_config_v4
kind (auth_failure_frame x) = kind_auth_failure
kind goodbye = kind_goodbye
kind (server_config x) = kind_server_config
kind (data_frag x) = kind_data_frag
kind (encoded_data x) = kind_encoded_data
kind (encoded_data_frag x) = kind_encoded_data_frag
kind (encoding_request x) = kind_encoding_request
kind (encoding_response x) = kind_encoding_response
kind (expresslane_config x) = kind_expresslane_config

-- `FrameKind::try_from(byte).map_err(..)?`.
pub kind_or_fail : Option FrameKind → Decoder FrameKind
kind_or_fail none = fail unknown_frame_type
kind_or_fail (some k) = return k

module _ ⦃be : BigEndian⦄ where
  -- The branches of the `match` on the kind.
  pub payload_from_wire : FrameKind → Decoder Frame
  payload_from_wire kind_no_op = return no_op
  payload_from_wire kind_ping = do x ← Ping.try_from_wire; return (ping x)
  payload_from_wire kind_pong = do x ← Pong.try_from_wire; return (pong x)
  payload_from_wire kind_auth_request = do x ← AuthRequest.try_from_wire; return (auth_request x)
  payload_from_wire kind_data = do x ← Data.try_from_wire; return (data_frame x)
  payload_from_wire kind_auth_success_with_config_v4 = do
    x ← AuthSuccess.try_from_wire
    return (auth_success_with_config_v4 x)
  payload_from_wire kind_auth_failure = do
    x ← AuthFailure.try_from_wire
    return (auth_failure_frame x)
  payload_from_wire kind_goodbye = return goodbye
  payload_from_wire kind_server_config = do x ← ServerConfig.try_from_wire; return (server_config x)
  payload_from_wire kind_data_frag = do x ← DataFrag.try_from_wire; return (data_frag x)
  payload_from_wire kind_encoded_data = do x ← Data.try_from_wire; return (encoded_data x)
  payload_from_wire kind_encoded_data_frag = do
    x ← DataFrag.try_from_wire
    return (encoded_data_frag x)
  payload_from_wire kind_encoding_request = do
    x ← EncodingRequest.try_from_wire
    return (encoding_request x)
  payload_from_wire kind_encoding_response = do
    x ← EncodingResponse.try_from_wire
    return (encoding_response x)
  payload_from_wire kind_expresslane_config = do
    x ← ExpresslaneConfig.try_from_wire
    return (expresslane_config x)

  pub frame_from_wire : Decoder Frame
  frame_from_wire = do
    byte ← get 1
    ty ← kind_or_fail (kind_from_u8 byte)
    frame ← payload_from_wire ty
    commit frame

  -- The buffer in the outcome holds what is left in `buf`.
  pub try_from_wire : List ℕ → Outcome Frame
  try_from_wire [] = err insufficient_data (from [])
  try_from_wire (byte ∷ bytes) = frame_from_wire (from (byte ∷ bytes))

  -- The branches of the `match` on the frame.
  pub append_payload_to_wire : Frame → List ℕ → List ℕ
  append_payload_to_wire no_op buf = buf
  append_payload_to_wire (ping x) buf = Ping.append_to_wire x buf
  append_payload_to_wire (pong x) buf = Pong.append_to_wire x buf
  append_payload_to_wire (auth_request x) buf = AuthRequest.append_to_wire x buf
  append_payload_to_wire (data_frame x) buf = Data.append_to_wire x buf
  append_payload_to_wire (auth_success_with_config_v4 x) buf = AuthSuccess.append_to_wire x buf
  append_payload_to_wire (auth_failure_frame x) buf = AuthFailure.append_to_wire x buf
  append_payload_to_wire goodbye buf = buf
  append_payload_to_wire (server_config x) buf = ServerConfig.append_to_wire x buf
  append_payload_to_wire (data_frag x) buf = DataFrag.append_to_wire x buf
  append_payload_to_wire (encoded_data x) buf = Data.append_to_wire x buf
  append_payload_to_wire (encoded_data_frag x) buf = DataFrag.append_to_wire x buf
  append_payload_to_wire (encoding_request x) buf = EncodingRequest.append_to_wire x buf
  append_payload_to_wire (encoding_response x) buf = EncodingResponse.append_to_wire x buf
  append_payload_to_wire (expresslane_config x) buf = ExpresslaneConfig.append_to_wire x buf

  pub append_to_wire : Frame → List ℕ → List ℕ
  append_to_wire frame buf = append_payload_to_wire frame (buf ++ be.be 1 (kind_to_u8 (kind frame)))
