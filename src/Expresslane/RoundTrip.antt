-- ===== src/Expresslane/RoundTrip.antt =====
-- lightway-expresslane/src/session.rs: what one end sends, the other end receives.
use lightway.Base.{ℕ, ◌≤◌, ◌≡◌, refl, ap, sym, ◌∙◌, Bool, false, List, [], ◌++◌, length, arith}
use lightway.Wire.BigEndian.{BigEndian}
use lightway.Replay.{would_reject}
use lightway.Expresslane.Aead.{
  ExpresslaneAead, ExpresslaneError, ExpresslaneKey, ok, err, is_invalid,
}
use lightway.Expresslane.Session.{
  ExpresslaneSession, accept, build_aad, version, with_encoded, max_plaintext, promote_self_key,
  update_next_self_key, update_peer_key,
}
use lightway.Expresslane.Packets.{append_to_wire, try_from_wire}
use lightway.Expresslane.Layout.{sent_header}
use lightway.Expresslane.Delivery.{
  next_counter, receive-frame, send-frame, sends_with, receives_with, promote_self_key-update,
  update_peer_key-ok, open_with-current, open_with-prev,
}

module _ {A : Type 0} ⦃crypto : ExpresslaneAead A⦄ ⦃be : BigEndian⦄ where
  -- Once both ends have installed a key that is not the sentinel, a packet of at most the largest size
  -- that the sender appends under an agreed version is delivered as it was sent, whatever follows it in
  -- the buffer, provided the cipher seals it and the receiver's window does not refuse its counter.
  pub try_from_wire-append_to_wire_sealed :
      (s r : ExpresslaneSession A) (key : ExpresslaneKey) (a : A)
      (session_id plaintext iv ct tag rest : List ℕ) (is_encoded : Bool)
      → crypto.new key ≡ ok a
      → is_invalid key ≡ false
      → length iv ≡ 12
      → length plaintext ≤ max_plaintext
      → version s ≡ version r
      → would_reject r.replay (next_counter s) ≡ false
      → crypto.seal a iv plaintext
          (build_aad (version s) session_id (next_counter s) (with_encoded is_encoded))
        ≡ ok (ct, tag)
      → try_from_wire
          (update_peer_key r key).0
          ((append_to_wire
              (promote_self_key (update_next_self_key s key).0)
              []
              session_id
              plaintext
              iv
              is_encoded).1
            ++ rest)
          session_id
        ≡ ((accept (update_peer_key r key).0 (next_counter s)).0, rest, ok (plaintext, is_encoded))
  unfolding version
  try_from_wire-append_to_wire_sealed s r key a session_id plaintext iv ct tag rest is_encoded built
        real iv_len fits agreed fresh sealed =
      let flags = with_encoded is_encoded in
      let c = next_counter s in
      let s' = sends_with s key a in
      let r' = receives_with r key a in
      let (ct_len, tag_len) = crypto.length-seal a iv plaintext _ ct tag sealed in
      let sent =
        send-frame session_id plaintext iv ct tag rest is_encoded s' _ refl real fits sealed in
      let aad = build_aad (version s) session_id c flags in
      let opened = crypto.open-seal key a a iv plaintext aad ct tag built built sealed in
      let aad' = ap (λ v. build_aad v session_id c flags) agreed in
      let seen =
        receive-frame session_id plaintext iv ct tag rest is_encoded r' c (omega arith) iv_len
          tag_len (omega arith) fresh
          (open_with-current _ _ (sent_header c iv tag flags ct) ct _ plaintext real
            (ap (λ d. crypto.open_aead a iv ct d tag) (sym aad') ∙ opened)) in
      rw (promote_self_key-update s key a built, update_peer_key-ok r key a built, sent) seen

  -- A packet that was sent under the key before a rotation is still delivered as it was sent after the
  -- receiver has installed the next key, under the same conditions, where the cipher of the next key
  -- refuses it.
  pub try_from_wire_rotated :
      (s r : ExpresslaneSession A) (key next : ExpresslaneKey) (a b : A)
      (session_id plaintext iv ct tag rest : List ℕ) (is_encoded : Bool) (e : ExpresslaneError)
      → crypto.new key ≡ ok a
      → crypto.new next ≡ ok b
      → is_invalid key ≡ false
      → is_invalid next ≡ false
      → length iv ≡ 12
      → length plaintext ≤ max_plaintext
      → version s ≡ version r
      → would_reject r.replay (next_counter s) ≡ false
      → crypto.seal a iv plaintext
          (build_aad (version s) session_id (next_counter s) (with_encoded is_encoded))
        ≡ ok (ct, tag)
      → crypto.open_aead b iv ct
          (build_aad (version s) session_id (next_counter s) (with_encoded is_encoded))
          tag
        ≡ err e
      → try_from_wire
          (update_peer_key (update_peer_key r key).0 next).0
          ((append_to_wire
              (promote_self_key (update_next_self_key s key).0)
              []
              session_id
              plaintext
              iv
              is_encoded).1
            ++ rest)
          session_id
        ≡ (
          (accept (update_peer_key (update_peer_key r key).0 next).0 (next_counter s)).0,
          rest,
          ok (plaintext, is_encoded),
        )
  unfolding version
  try_from_wire_rotated s r key next a b session_id plaintext iv ct tag rest is_encoded e built
        built_next real real_next iv_len fits agreed fresh sealed refused =
      let flags = with_encoded is_encoded in
      let c = next_counter s in
      let s' = sends_with s key a in
      let r' = receives_with (receives_with r key a) next b in
      let (ct_len, tag_len) = crypto.length-seal a iv plaintext _ ct tag sealed in
      let sent =
        send-frame session_id plaintext iv ct tag rest is_encoded s' _ refl real fits sealed in
      let aad = build_aad (version s) session_id c flags in
      let opened = crypto.open-seal key a a iv plaintext aad ct tag built built sealed in
      let aad' = sym (ap (λ v. build_aad v session_id c flags) agreed) in
      let seen =
        receive-frame session_id plaintext iv ct tag rest is_encoded r' c (omega arith) iv_len
          tag_len (omega arith) fresh
          (open_with-prev _ _ (sent_header c iv tag flags ct) ct _ plaintext e real_next real
            (ap (λ d. crypto.open_aead b iv ct d tag) aad' ∙ refused)
            (ap (λ d. crypto.open_aead a iv ct d tag) aad' ∙ opened)) in
      rw
        (
          promote_self_key-update s key a built,
          update_peer_key-ok r key a built,
          update_peer_key-ok (receives_with r key a) next b built_next,
          sent,
        )
        seen
