-- ===== src/Wire/Frame/RoundTrip.antt =====
-- The round trip of frames.
use mathlib.Core.List.{append-nil}
use lightway.Base.{
  ℕ, ◌≡◌, refl, sym, ◌<◌, List, [], ◌∷◌, ◌++◌, some, drop, length, length-append, arith,
}
use lightway.Wire.Codec.{
  BigEndian, BorrowedBytesMut, ok, chunk, ◌>>=◌, Shows, Decodes, skip, Decodes-map, Decodes-return,
  append_assoc,
}
use lightway.Wire.Buffer.{from, commit}
use lightway.Wire.Reads.{from-Shows, get_lem, get-Shows, Leaves}
use lightway.Wire.Ping
use lightway.Wire.Pong
use lightway.Wire.Data
use lightway.Wire.ServerConfig
use lightway.Wire.AuthFailure
use lightway.Wire.EncodingRequest
use lightway.Wire.EncodingResponse
use lightway.Wire.DataFrag
use lightway.Wire.ExpresslaneConfig
use lightway.Wire.AuthSuccess
use lightway.Wire.Ping.{Ping}
use lightway.Wire.Pong.{Pong}
use lightway.Wire.Data.{Data}
use lightway.Wire.ServerConfig.{ServerConfig}
use lightway.Wire.AuthFailure.{AuthFailure}
use lightway.Wire.EncodingRequest.{EncodingRequest}
use lightway.Wire.EncodingResponse.{EncodingResponse}
use lightway.Wire.DataFrag.{DataFrag}
use lightway.Wire.ExpresslaneConfig.{ExpresslaneConfig}
use lightway.Wire.AuthSuccess.{AuthSuccessWithConfigV4}
use lightway.Wire.AuthRequest.RoundTrip
use lightway.Wire.Frame.{
  FrameKind, kind_no_op, Frame, no_op, ping, pong, auth_request, data_frame,
  auth_success_with_config_v4, auth_failure_frame, goodbye, server_config, data_frag, encoded_data,
  encoded_data_frag, encoding_request, encoding_response, expresslane_config, kind_to_u8,
  kind_from_u8, kind, kind_or_fail, payload_from_wire, frame_from_wire, try_from_wire,
  append_payload_to_wire, append_to_wire,
}

-- What a frame can carry: integers of their width, lengths that the length fields hold.
abbrev pub IsEncodable : Frame → Type 0
IsEncodable no_op = Unit
IsEncodable (ping x) = Ping.IsEncodable x
IsEncodable (pong x) = Pong.IsEncodable x
IsEncodable (auth_request x) = RoundTrip.IsEncodable x
IsEncodable (data_frame x) = Data.IsEncodable x
IsEncodable (auth_success_with_config_v4 x) = AuthSuccess.IsEncodable x
IsEncodable (auth_failure_frame x) = Unit
IsEncodable goodbye = Unit
IsEncodable (server_config x) = ServerConfig.IsEncodable x
IsEncodable (data_frag x) = DataFrag.IsEncodable x
IsEncodable (encoded_data x) = Data.IsEncodable x
IsEncodable (encoded_data_frag x) = DataFrag.IsEncodable x
IsEncodable (encoding_request x) = EncodingRequest.IsEncodable x
IsEncodable (encoding_response x) = EncodingResponse.IsEncodable x
IsEncodable (expresslane_config x) = ExpresslaneConfig.IsEncodable x

kind_from_u8-kind_to_u8 : (k : FrameKind) → kind_from_u8 (kind_to_u8 k) ≡ some k
unfolding kind_from_u8 kind_to_u8
kind_from_u8-kind_to_u8 kind_no_op = refl
kind_from_u8-kind_to_u8 _ = refl

kind_to_u8-lt : (k : FrameKind) → kind_to_u8 k < 256
unfolding kind_to_u8
kind_to_u8-lt kind_no_op = omega arith
kind_to_u8-lt _ = omega arith

committed :
    (b : BorrowedBytesMut) (rest : List ℕ) (f : Frame)
    → Leaves b rest
    → (c : BorrowedBytesMut) × (commit f b ≡ ok f c) × (c.bytes ≡ rest)
unfolding commit chunk
committed b rest f l = (
  record b { cursor = 0; bytes = drop b.cursor b.bytes },
  ground (arith, l.committable),
  l.unread,
)

module _ ⦃be : BigEndian⦄ where
  append_payload_to_wire_lem :
      (f : Frame) (buf : List ℕ)
      → IsEncodable f
      → append_payload_to_wire f buf ≡ buf ++ append_payload_to_wire f []
  unfolding append_payload_to_wire
  append_payload_to_wire_lem no_op buf h = sym (append-nil buf)
  append_payload_to_wire_lem (ping x) buf h = Ping.append_to_wire_lem x buf
  append_payload_to_wire_lem (pong x) buf h = Pong.append_to_wire_lem x buf
  append_payload_to_wire_lem (auth_request x) buf h = RoundTrip.append_to_wire_lem x buf
  append_payload_to_wire_lem (data_frame x) buf h = Data.append_to_wire_lem x buf
  append_payload_to_wire_lem (auth_success_with_config_v4 x) buf h =
      AuthSuccess.append_to_wire_lem x buf h
  append_payload_to_wire_lem (auth_failure_frame x) buf h = AuthFailure.append_to_wire_lem x buf
  append_payload_to_wire_lem goodbye buf h = sym (append-nil buf)
  append_payload_to_wire_lem (server_config x) buf h = ServerConfig.append_to_wire_lem x buf
  append_payload_to_wire_lem (data_frag x) buf h = DataFrag.append_to_wire_lem x buf
  append_payload_to_wire_lem (encoded_data x) buf h = Data.append_to_wire_lem x buf
  append_payload_to_wire_lem (encoded_data_frag x) buf h = DataFrag.append_to_wire_lem x buf
  append_payload_to_wire_lem (encoding_request x) buf h = EncodingRequest.append_to_wire_lem x buf
  append_payload_to_wire_lem (encoding_response x) buf h = EncodingResponse.append_to_wire_lem x buf
  append_payload_to_wire_lem (expresslane_config x) buf h =
      ExpresslaneConfig.append_to_wire_lem x buf

  Decodes-payload :
      (f : Frame) (b : BorrowedBytesMut) (rest : List ℕ)
      → IsEncodable f
      → Shows b (append_payload_to_wire f [] ++ rest)
      → Decodes (payload_from_wire (kind f) b) f rest
  unfolding payload_from_wire append_payload_to_wire kind
  Decodes-payload no_op b rest h s = Decodes-return s
  Decodes-payload (ping x) b rest h s = Decodes-map _ ping (Ping.decodes x b rest h s)
  Decodes-payload (pong x) b rest h s = Decodes-map _ pong (Pong.decodes x b rest h s)
  Decodes-payload (auth_request x) b rest h s =
      Decodes-map _ auth_request (RoundTrip.decodes x b rest h s)
  Decodes-payload (data_frame x) b rest h s = Decodes-map _ data_frame (Data.decodes x b rest h s)
  Decodes-payload (auth_success_with_config_v4 x) b rest h s =
      Decodes-map _ auth_success_with_config_v4 (AuthSuccess.decodes x b rest h s)
  Decodes-payload (auth_failure_frame x) b rest h s =
      Decodes-map _ auth_failure_frame (AuthFailure.decodes x b rest s)
  Decodes-payload goodbye b rest h s = Decodes-return s
  Decodes-payload (server_config x) b rest h s =
      Decodes-map _ server_config (ServerConfig.decodes x b rest h s)
  Decodes-payload (data_frag x) b rest h s = Decodes-map _ data_frag (DataFrag.decodes x b rest h s)
  Decodes-payload (encoded_data x) b rest h s =
      Decodes-map _ encoded_data (Data.decodes x b rest h s)
  Decodes-payload (encoded_data_frag x) b rest h s =
      Decodes-map _ encoded_data_frag (DataFrag.decodes x b rest h s)
  Decodes-payload (encoding_request x) b rest h s =
      Decodes-map _ encoding_request (EncodingRequest.decodes x b rest h s)
  Decodes-payload (encoding_response x) b rest h s =
      Decodes-map _ encoding_response (EncodingResponse.decodes x b rest h s)
  Decodes-payload (expresslane_config x) b rest h s =
      Decodes-map _ expresslane_config (ExpresslaneConfig.decodes x b rest h s)

  layout :
      (f : Frame) (buf rest : List ℕ)
      → IsEncodable f
      → append_to_wire f buf ++ rest
        ≡ buf ++ (be.be 1 (kind_to_u8 (kind f)) ++ (append_payload_to_wire f [] ++ rest))
  unfolding append_to_wire
  layout f buf rest h =
      rw (append_payload_to_wire_lem f (buf ++ be.be 1 (kind_to_u8 (kind f))) h) (simp append_assoc)

  decodes_frame :
      (f : Frame) (b : BorrowedBytesMut) (rest : List ℕ)
      → IsEncodable f
      → Shows b (be.be 1 (kind_to_u8 (kind f)) ++ (append_payload_to_wire f [] ++ rest))
      → (c : BorrowedBytesMut) × (frame_from_wire b ≡ ok f c) × (c.bytes ≡ rest)
  unfolding frame_from_wire ◌>>=◌ kind_or_fail
  decodes_frame f b rest h s =
      let k = kind_to_u8 (kind f) in
      let d = Decodes-payload f (skip 1 b) rest h (get-Shows 1 k b _ s) in
      rw (get_lem 1 k b _ s (kind_to_u8-lt (kind f)), ◌>>=◌)
        (rw (kind_from_u8-kind_to_u8 (kind f), kind_or_fail)
          (rw (d.result, ◌>>=◌) (committed d.after rest f d.leaves)))

  nonempty :
      (bytes : List ℕ) → 0 < length bytes → try_from_wire bytes ≡ frame_from_wire (from bytes)
  unfolding try_from_wire
  nonempty [] h = elim h [ ]
  nonempty (byte ∷ bytes) h = refl

  -- A frame that its fields can carry is read back from the bytes that it was written as, and what
  -- follows them is what is left in the buffer.
  pub try_from_wire-append_to_wire :
      (f : Frame) (rest : List ℕ)
      → IsEncodable f
      → (b : BorrowedBytesMut) × (try_from_wire (append_to_wire f [] ++ rest) ≡ ok f b)
        × (b.bytes ≡ rest)
  try_from_wire-append_to_wire f rest h =
      let text = be.be 1 (kind_to_u8 (kind f)) ++ (append_payload_to_wire f [] ++ rest) in
      let long : 0 < length text = omega (arith, length-append {0}, be.length-be) in
      rw (layout f [] rest h, nonempty text long)
        (decodes_frame f (from text) rest h (from-Shows text))
