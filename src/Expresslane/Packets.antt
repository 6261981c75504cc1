-- ===== src/Expresslane/Packets.antt =====
-- lightway-expresslane/src/session.rs: the data path. `append_to_wire` and `try_from_wire` work on
-- growing buffers, `encrypt_into` and `decrypt_into` on slices of the caller.
use lightway.Base.{
  ℕ, ◌+◌, ◌%◌, ◌^◌, Bool, Option, none, some, List, ◌++◌, ltb, if◌then◌else◌, length, take, drop,
}
use lightway.Replay.{would_reject}
use lightway.Wire.BigEndian.{BigEndian}
use lightway.Expresslane.Aead.{
  ExpresslaneAead, ExpresslaneResult, ok, err, payload_too_large, replayed, buffer_too_small,
  seal_into, open_into, is_invalid, no_key,
}
use lightway.Expresslane.Session.{
  ExpresslaneSession, Keyed, FrameHeader, wire_overhead, max_plaintext, with_encoded, encoded,
  version, reserve_counter, accept, seal_with, open_with, build_aad, frame, checked_header,
  ciphertext_of,
}

-- `out[start..start + bytes.len()].copy_from_slice(bytes)`, in range.
unfoldable pub write : ℕ → List ℕ → List ℕ → List ℕ
write start bytes out = take start out ++ (bytes ++ drop (start + length bytes) out)

module _ ⦃be : BigEndian⦄ where
  unfoldable pub put_frame :
      List ℕ
      → ℕ
      → List ℕ
      → ℕ
      → ExpresslaneResult (List ℕ × List ℕ)
      → List ℕ × ExpresslaneResult (Unit {0})
  put_frame buf counter iv flags (err e) = (buf, err e)
  put_frame buf counter iv flags (ok (ciphertext, auth_tag)) =
      (buf ++ frame counter iv auth_tag flags ciphertext, ok tt)

  -- What `encrypt_into` writes: the ciphertext first, then the fields before it. It answers `out` and
  -- the length written.
  unfoldable pub fill_frame :
      ℕ
      → List ℕ
      → ℕ
      → ℕ
      → List ℕ
      → ℕ
      → ExpresslaneResult (List ℕ × List ℕ)
      → ExpresslaneResult (List ℕ × ℕ)
  fill_frame counter iv flags plain_len out frame_len (err e) = err e
  fill_frame counter iv flags plain_len out frame_len (ok (ciphertext, tag)) =
      let o1 = write wire_overhead ciphertext out in
      let o2 = write 0 (be.be 8 counter) o1 in
      let o3 = write 8 iv o2 in
      let o4 = write 20 tag o3 in
      let o5 = write 36 (be.be 2 (plain_len % 2 ^ 16)) o4 in
      let o6 = write 38 (be.be 2 flags) o5 in ok (o6, frame_len)

module _ {A : Type 0} ⦃crypto : ExpresslaneAead A⦄ ⦃be : BigEndian⦄ where
  -- The session, the buffer and the result.
  unfoldable pub append_to_wire :
      ExpresslaneSession A
      → List ℕ
      → List ℕ
      → List ℕ
      → List ℕ
      → Bool
      → ExpresslaneSession A × List ℕ × ExpresslaneResult (Unit {0})
  append_to_wire s buf session_id plaintext iv is_encoded =
      if ltb max_plaintext (length plaintext)
      then (s, buf, err payload_too_large)
      else let flags = with_encoded is_encoded in
        let (reserved, counter) = reserve_counter s in
        let aad = build_aad (version reserved) session_id counter flags in
        let (grown, result) =
          put_frame buf counter iv flags (seal_with reserved.current_self iv plaintext aad) in
        (reserved, grown, result)

  -- The current key seals into a slice of the length of the plaintext.
  unfoldable pub seal_into_with :
      Option (Keyed A) → List ℕ → List ℕ → List ℕ → ExpresslaneResult (List ℕ × List ℕ)
  unfolding seal_into
  seal_into_with none iv plaintext aad = err no_key
  seal_into_with (some current) iv plaintext aad =
      if is_invalid current.key then err no_key else seal_into current.aead iv plaintext aad

  unfoldable pub encrypt_into :
      ExpresslaneSession A
      → ℕ
      → List ℕ
      → List ℕ
      → List ℕ
      → Bool
      → List ℕ
      → ExpresslaneResult (List ℕ × ℕ)
  encrypt_into s counter session_id plaintext iv is_encoded out =
      let frame_len = wire_overhead + length plaintext in
      if ltb max_plaintext (length plaintext)
      then err payload_too_large
      else if ltb (length out) frame_len
      then err buffer_too_small
      else let flags = with_encoded is_encoded in
        let aad = build_aad (version s) session_id counter flags in
        fill_frame counter iv flags (length plaintext) out frame_len
          (seal_into_with s.current_self iv plaintext aad)

  -- Preview of the replay window, then the keys.
  unfoldable pub authenticate :
      ExpresslaneSession A → List ℕ → List ℕ → FrameHeader → ExpresslaneResult (List ℕ)
  authenticate s session_id ciphertext h =
      if would_reject s.replay h.counter
      then err replayed
      else open_with s.current_peer s.prev_peer h ciphertext
          (build_aad (version s) session_id h.counter h.flags)

  -- What follows the authentication of a frame.
  unfoldable pub deliver :
      ExpresslaneSession A
      → List ℕ
      → FrameHeader
      → ExpresslaneResult (List ℕ)
      → ExpresslaneSession A × List ℕ × ExpresslaneResult (List ℕ × Bool)
  deliver s buf h (err e) = (s, buf, err e)
  deliver s buf h (ok plaintext) =
      let (after, accepted) = accept s h.counter in
      if accepted
      then (after, drop (wire_overhead + h.data_len) buf, ok (plaintext, encoded h.flags))
      else (after, buf, err replayed)

  unfoldable pub receive :
      ExpresslaneSession A
      → List ℕ
      → List ℕ
      → ExpresslaneResult FrameHeader
      → ExpresslaneSession A × List ℕ × ExpresslaneResult (List ℕ × Bool)
  unfolding deliver
  receive s buf session_id (err e) = (s, buf, err e)
  receive s buf session_id (ok h) =
      deliver s buf h (authenticate s session_id (ciphertext_of buf h) h)

  -- The session, the buffer and the result.
  unfoldable pub try_from_wire :
      ExpresslaneSession A
      → List ℕ
      → List ℕ
      → ExpresslaneSession A × List ℕ × ExpresslaneResult (List ℕ × Bool)
  unfolding receive
  try_from_wire s buf session_id = receive s buf session_id (checked_header buf)

-- `decrypt_into`, whose output is a slice of the caller: what is left in it comes with the length.
module _ {A : Type 0} ⦃crypto : ExpresslaneAead A⦄ ⦃be : BigEndian⦄ where
  unfoldable pub open_into_prev :
      Option (Keyed A)
      → FrameHeader
      → List ℕ
      → List ℕ
      → List ℕ
      → ExpresslaneResult (List ℕ × ℕ)
      → ExpresslaneResult (List ℕ × ℕ)
  open_into_prev prev h ciphertext aad out (ok opened) = ok opened
  open_into_prev none h ciphertext aad out (err e) = err e
  open_into_prev (some prev) h ciphertext aad out (err e) =
      if is_invalid prev.key then err e else open_into prev.aead h.iv ciphertext aad h.auth_tag out

  unfoldable pub open_into_with :
      Option (Keyed A)
      → Option (Keyed A)
      → FrameHeader
      → List ℕ
      → List ℕ
      → List ℕ
      → ExpresslaneResult (List ℕ × ℕ)
  unfolding open_into_prev
  open_into_with none prev h ciphertext aad out = err no_key
  open_into_with (some current) prev h ciphertext aad out =
      if is_invalid current.key
      then err no_key
      else open_into_prev prev h ciphertext aad out
          (open_into current.aead h.iv ciphertext aad h.auth_tag out)

  unfoldable pub deliver_into :
      ExpresslaneSession A
      → FrameHeader
      → List ℕ
      → ExpresslaneResult (List ℕ × ℕ)
      → ExpresslaneSession A × ExpresslaneResult (List ℕ × ℕ × Bool)
  deliver_into s h out (err e) = (s, err e)
  deliver_into s h out (ok (opened, plain_len)) =
      let (after, accepted) = accept s h.counter in
      if accepted
      then (after, ok (opened ++ drop h.data_len out, plain_len, encoded h.flags))
      else (after, err replayed)

  unfoldable pub receive_into :
      ExpresslaneSession A
      → List ℕ
      → List ℕ
      → List ℕ
      → ExpresslaneResult FrameHeader
      → ExpresslaneSession A × ExpresslaneResult (List ℕ × ℕ × Bool)
  unfolding deliver_into
  receive_into s session_id wire_packet out (err e) = (s, err e)
  receive_into s session_id wire_packet out (ok h) =
      let aad = build_aad (version s) session_id h.counter h.flags in
      if ltb (length out) h.data_len
      then (s, err buffer_too_small)
      else if would_reject s.replay h.counter
      then (s, err replayed)
      else deliver_into s h out (
          open_into_with s.current_peer s.prev_peer h (ciphertext_of wire_packet h) aad
            (take h.data_len out))

  unfoldable pub decrypt_into :
      ExpresslaneSession A
      → List ℕ
      → List ℕ
      → List ℕ
      → ExpresslaneSession A × ExpresslaneResult (List ℕ × ℕ × Bool)
  unfolding receive_into
  decrypt_into s session_id wire_packet out =
      receive_into s session_id wire_packet out (checked_header wire_packet)
