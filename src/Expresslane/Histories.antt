-- ===== src/Expresslane/Histories.antt =====
-- Whatever is called on a session, in any order: the calls of all threads in the order in which they
-- take effect.
use lightway.Base.{ℕ, inl, inr, Bool, List, [], ◌∷◌, Bool-cases, ltb, length}
use lightway.Replay.{would_reject}
use lightway.Versions.{ExpresslaneVersion}
use lightway.Wire.BigEndian.{BigEndian}
use lightway.Expresslane.Aead.{ExpresslaneKey, ExpresslaneAead, ExpresslaneResult, ok, err}
use lightway.Expresslane.Session.{
  ExpresslaneSession, FrameHeader, set_version, promote_self_key, update_next_self_key,
  update_peer_key, reserve_counter, accept, checked_header, ciphertext_of,
}
use lightway.Expresslane.Packets.{
  append_to_wire, try_from_wire, decrypt_into, authenticate, deliver, receive, deliver_into,
  receive_into,
}

pub data Call : Type 0 where
  call_set_version : ExpresslaneVersion → Call
  call_update_next_self_key call_update_peer_key : ExpresslaneKey → Call
  call_promote_self_key call_reserve_counter : Call
  call_append_to_wire : List ℕ → List ℕ → List ℕ → Bool → Call
  call_try_from_wire : List ℕ → List ℕ → Call
  call_decrypt_into : List ℕ → List ℕ → List ℕ → Call

module _ {A : Type 0} ⦃crypto : ExpresslaneAead A⦄ ⦃be : BigEndian⦄ where
  unfoldable pub step : ExpresslaneSession A → Call → ExpresslaneSession A
  step s (call_set_version v) = (set_version s v).0
  step s (call_update_next_self_key key) = (update_next_self_key s key).0
  step s (call_update_peer_key key) = (update_peer_key s key).0
  step s call_promote_self_key = promote_self_key s
  step s call_reserve_counter = (reserve_counter s).0
  step s (call_append_to_wire session_id plaintext iv is_encoded) =
      (append_to_wire s [] session_id plaintext iv is_encoded).0
  step s (call_try_from_wire buf session_id) = (try_from_wire s buf session_id).0
  step s (call_decrypt_into session_id wire_packet out) =
      (decrypt_into s session_id wire_packet out).0

  unfoldable pub run : ExpresslaneSession A → List Call → ExpresslaneSession A
  run s [] = s
  run s (call ∷ calls) = run (step s call) calls

  -- Receiving leaves a session as it was, or as `accept` does.
  module _ (P : ExpresslaneSession A → Type 0) (s : ExpresslaneSession A) (same : P s)
      (counted : (c : ℕ) → P (accept s c).0) where
    deliver-keeps :
        (buf : List ℕ) (h : FrameHeader) (r : ExpresslaneResult (List ℕ)) → P (deliver s buf h r).0
    unfolding deliver
    deliver-keeps buf h (err e) = same
    deliver-keeps buf h (ok plaintext) = elim (Bool-cases (accept s h.counter).1) [
      | inl yes_ ↦ rw yes_ (counted h.counter)
      | inr no_ ↦ rw no_ (counted h.counter)
    ]

    receive-keeps :
        (buf session_id : List ℕ) (r : ExpresslaneResult FrameHeader)
        → P (receive s buf session_id r).0
    unfolding receive
    receive-keeps buf session_id (err e) = same
    receive-keeps buf session_id (ok h) =
        deliver-keeps buf h (authenticate s session_id (ciphertext_of buf h) h)

    pub try_from_wire-keeps : (buf session_id : List ℕ) → P (try_from_wire s buf session_id).0
    unfolding try_from_wire
    try_from_wire-keeps buf session_id = receive-keeps buf session_id (checked_header buf)

    deliver_into-keeps :
        (h : FrameHeader) (out : List ℕ) (r : ExpresslaneResult (List ℕ × ℕ))
        → P (deliver_into s h out r).0
    unfolding deliver_into
    deliver_into-keeps h out (err e) = same
    deliver_into-keeps h out (ok (opened, n)) = elim (Bool-cases (accept s h.counter).1) [
      | inl yes_ ↦ rw yes_ (counted h.counter)
      | inr no_ ↦ rw no_ (counted h.counter)
    ]

    receive_into-keeps :
        (session_id wire_packet out : List ℕ) (r : ExpresslaneResult FrameHeader)
        → P (receive_into s session_id wire_packet out r).0
    unfolding receive_into
    receive_into-keeps session_id wire_packet out (err e) = same
    receive_into-keeps session_id wire_packet out (ok h) =
        elim (Bool-cases (ltb (length out) h.data_len)) [
          | inl short ↦ rw short same
          | inr fits ↦ elim (Bool-cases (would_reject s.replay h.counter)) [
            | inl rejected ↦ rw (fits, rejected) same
            | inr fresh ↦ rw (fits, fresh) (deliver_into-keeps h out _)
          ]
        ]

    pub decrypt_into-keeps :
        (session_id wire_packet out : List ℕ) → P (decrypt_into s session_id wire_packet out).0
    unfolding decrypt_into
    decrypt_into-keeps session_id wire_packet out =
        receive_into-keeps session_id wire_packet out (checked_header wire_packet)
