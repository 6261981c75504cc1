-- ===== src/Wire/Frame/Safe.antt =====
-- Safety of the decoding of frames.
use lightway.Base.{
  ℕ, ◌≡◌, refl, ◌≤◌, inl, inr, List, [], ◌∷◌, drop, take, arith, Option-cases, Bool-cases,
}
use lightway.Wire.Codec.{
  BigEndian, BorrowedBytesMut, Outcome, ok, err, panic, ◌>>=◌, IsSafe, Reads, skip, IsSafe-map,
  safe_return,
}
use lightway.Wire.Buffer.{from, commit, len, chunk}
use lightway.Wire.Safety.{get_reads}
use lightway.Wire.Ping
use lightway.Wire.Pong
use lightway.Wire.Data
use lightway.Wire.ServerConfig
use lightway.Wire.AuthFailure
use lightway.Wire.EncodingRequest
use lightway.Wire.EncodingResponse
use lightway.Wire.DataFrag
use lightway.Wire.ExpresslaneConfig
use lightway.Wire.AuthSuccess
use lightway.Wire.Ping.{Ping}
use lightway.Wire.Pong.{Pong}
use lightway.Wire.Data.{Data}
use lightway.Wire.ServerConfig.{ServerConfig}
use lightway.Wire.AuthFailure.{AuthFailure}
use lightway.Wire.EncodingRequest.{EncodingRequest}
use lightway.Wire.EncodingResponse.{EncodingResponse}
use lightway.Wire.DataFrag.{DataFrag}
use lightway.Wire.ExpresslaneConfig.{ExpresslaneConfig}
use lightway.Wire.AuthSuccess.{AuthSuccessWithConfigV4}
use lightway.Wire.AuthRequest.Safe
use lightway.Wire.Frame.{
  FrameKind, kind_no_op, kind_ping, kind_pong, kind_auth_request, kind_data,
  kind_auth_success_with_config_v4, kind_auth_failure, kind_goodbye, kind_server_config,
  kind_data_frag, kind_encoded_data, kind_encoded_data_frag, kind_encoding_request,
  kind_encoding_response, kind_expresslane_config, Frame, ping, pong, auth_request, data_frame,
  auth_success_with_config_v4, auth_failure_frame, server_config, data_frag, encoded_data,
  encoded_data_frag, encoding_request, encoding_response, expresslane_config, kind_from_u8,
  kind_or_fail, payload_from_wire, frame_from_wire, try_from_wire,
}

-- What the caller of `Frame::try_from_wire` sees: a frame was taken off the front of the buffer, or
-- there was an error and the buffer is as it was.
abbrev pub TakesFrame : List ℕ → Outcome Frame → Type 0
TakesFrame bytes (ok f b) = (k : ℕ) × (1 ≤ k) × (b.bytes ≡ drop k bytes)
TakesFrame bytes (err e b) = b.bytes ≡ bytes
TakesFrame bytes panic = ⊥

commit-TakesFrame :
    (bytes : List ℕ) (r : Outcome Frame)
    → IsSafe bytes 1 r
    → TakesFrame bytes (elim r [ ok f b ↦ commit f b | err e b ↦ err e b | panic ↦ panic ])
unfolding commit
commit-TakesFrame bytes (ok f b) (inl (fresh, same, ahead)) = rw fresh (b.cursor, ahead, rw same)
commit-TakesFrame bytes (ok f b) (inr (start, (k, pos, suffix))) =
    rw start (elim (Bool-cases b.committed) [
      | inl e ↦ rw e (k, pos, suffix)
      | inr e ↦ rw e (k, pos, suffix)
    ])
commit-TakesFrame bytes (err e b) h = h
commit-TakesFrame bytes panic h = h

module _ ⦃be : BigEndian⦄ (bytes : List ℕ) (start : ℕ) where
  payload-IsSafe :
      (k : FrameKind) (b : BorrowedBytesMut)
      → Reads bytes start b
      → IsSafe bytes start (payload_from_wire k b)
  unfolding payload_from_wire
  payload-IsSafe kind_no_op b r = safe_return r
  payload-IsSafe kind_ping b r =
      IsSafe-map bytes start ping _ b (Ping.try_from_wire-IsSafe bytes start b r)
  payload-IsSafe kind_pong b r =
      IsSafe-map bytes start pong _ b (Pong.try_from_wire-IsSafe bytes start b r)
  payload-IsSafe kind_auth_request b r =
      IsSafe-map bytes start auth_request _ b (Safe.try_from_wire-IsSafe bytes start b r)
  payload-IsSafe kind_data b r =
      IsSafe-map bytes start data_frame _ b (Data.try_from_wire-IsSafe bytes start b r)
  payload-IsSafe kind_auth_success_with_config_v4 b r =
      IsSafe-map bytes start auth_success_with_config_v4 _ b
        (AuthSuccess.try_from_wire-IsSafe bytes start b r)
  payload-IsSafe kind_auth_failure b r =
      IsSafe-map bytes start auth_failure_frame _ b
        (AuthFailure.try_from_wire-IsSafe bytes start b r)
  payload-IsSafe kind_goodbye b r = safe_return r
  payload-IsSafe kind_server_config b r =
      IsSafe-map bytes start server_config _ b (ServerConfig.try_from_wire-IsSafe bytes start b r)
  payload-IsSafe kind_data_frag b r =
      IsSafe-map bytes start data_frag _ b (DataFrag.try_from_wire-IsSafe bytes start b r)
  payload-IsSafe kind_encoded_data b r =
      IsSafe-map bytes start encoded_data _ b (Data.try_from_wire-IsSafe bytes start b r)
  payload-IsSafe kind_encoded_data_frag b r =
      IsSafe-map bytes start encoded_data_frag _ b (DataFrag.try_from_wire-IsSafe bytes start b r)
  payload-IsSafe kind_encoding_request b r =
      IsSafe-map bytes start encoding_request _ b
        (EncodingRequest.try_from_wire-IsSafe bytes start b r)
  payload-IsSafe kind_encoding_response b r =
      IsSafe-map bytes start encoding_response _ b
        (EncodingResponse.try_from_wire-IsSafe bytes start b r)
  payload-IsSafe kind_expresslane_config b r =
      IsSafe-map bytes start expresslane_config _ b
        (ExpresslaneConfig.try_from_wire-IsSafe bytes start b r)

module _ ⦃be : BigEndian⦄ where
  frame-TakesFrame :
      (bytes : List ℕ) (b : BorrowedBytesMut)
      → Reads bytes 0 b
      → 1 ≤ len b
      → TakesFrame bytes (frame_from_wire b)
  unfolding frame_from_wire ◌>>=◌ kind_or_fail
  frame-TakesFrame bytes b r long =
      let byte = be.of_be (take 1 (chunk b)) in
      rw (get_reads r 1 long, ◌>>=◌)
        (elim (Option-cases (kind_from_u8 byte)) [
          | inl unknown ↦ rw unknown r.same
          | inr (k, known) ↦ rw known (
              commit-TakesFrame bytes (payload_from_wire k (skip 1 b)) (
                payload-IsSafe bytes 1 k (skip 1 b)
                  (record { fresh = r.fresh; same = r.same; ahead = omega arith })))
        ])

  -- Whatever the buffer holds, decoding fails no assertion; an error leaves the buffer as it was, and
  -- a frame is taken off with one byte at least.
  pub try_from_wire-TakesFrame : (bytes : List ℕ) → TakesFrame bytes (try_from_wire bytes)
  unfolding try_from_wire from len
  try_from_wire-TakesFrame [] = refl
  try_from_wire-TakesFrame (byte ∷ bytes) =
      frame-TakesFrame (byte ∷ bytes) (from (byte ∷ bytes))
        (record { fresh = refl; same = refl; ahead = omega arith }) (omega arith)
