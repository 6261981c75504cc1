-- ===== src/Expresslane/Delivery.antt =====
-- lightway-expresslane/src/session.rs: the steps of sending a frame and of receiving it.
use lightway.Base.{
  ℕ, ◌+◌, ◌%◌, ◌^◌, ◌<◌, ◌≤◌, ◌≡◌, refl, ap, ◌∙◌, Bool, true, false, not, List, [], ◌++◌, Option,
  none, some, ltb, length, drop, arith,
}
use lightway.Wire.BigEndian.{BigEndian}
use lightway.Replay.{would_reject}
use lightway.Replay.History.{commit_fresh}
use lightway.Expresslane.Aead.{
  ExpresslaneAead, ExpresslaneError, ExpresslaneResult, ExpresslaneKey, ok, err, is_invalid,
}
use lightway.Expresslane.Session.{
  ExpresslaneSession, Keyed, FrameHeader, accept, build_aad, version, frame, with_encoded, encoded,
  max_plaintext, reserve_counter, seal_with, open_with, open_prev, stage, install, promote,
  promote_self_key, update_next_self_key, update_peer_key,
}
use lightway.Expresslane.Packets.{
  append_to_wire, put_frame, try_from_wire, authenticate, deliver, receive,
}
use lightway.Expresslane.Receive.{accepted-accept}
use lightway.Expresslane.Layout.{sent_header, checked_header-frame, ciphertext_of-frame, drop-frame}

encoded-with_encoded : (e : Bool) → encoded (with_encoded e) ≡ e
unfolding encoded with_encoded
encoded-with_encoded true = refl
encoded-with_encoded false = refl

with_encoded-lt : (e : Bool) → with_encoded e < 256 ^ 2
unfolding with_encoded
with_encoded-lt true = omega arith
with_encoded-lt false = omega arith

-- The counter that the next packet takes.
abbrev pub next_counter : {A : Type 0} → ExpresslaneSession A → ℕ
next_counter s = (s.wire_counter + 1) % 2 ^ 64

module _ {A : Type 0} ⦃crypto : ExpresslaneAead A⦄ ⦃be : BigEndian⦄
    (session_id plaintext iv ct tag rest : List ℕ) (is_encoded : Bool) where
  seal_with-current :
      (o : Option (Keyed A)) (k : Keyed A) (iv plaintext aad : List ℕ)
      (sealed : ExpresslaneResult (List ℕ × List ℕ))
      → o ≡ some k
      → is_invalid k.key ≡ false
      → crypto.seal k.aead iv plaintext aad ≡ sealed
      → seal_with o iv plaintext aad ≡ sealed
  unfolding seal_with
  seal_with-current o k iv plaintext aad sealed e real q =
      ap (λ o. seal_with o iv plaintext aad) e ∙ rw real q

  authenticated :
      (r : ExpresslaneSession A) (h : FrameHeader)
      → open_with r.current_peer r.prev_peer h ct
          (build_aad (version r) session_id h.counter h.flags)
        ≡ ok plaintext
      → would_reject r.replay h.counter ≡ false
      → authenticate r session_id ct h ≡ ok plaintext
  unfolding authenticate
  authenticated r h opened fresh = rw fresh opened

  pub delivered :
      (r : ExpresslaneSession A) (h : FrameHeader) (buf : List ℕ)
      → would_reject r.replay h.counter ≡ false
      → drop (40 + h.data_len) buf ≡ rest
      → deliver r buf h (ok plaintext)
        ≡ ((accept r h.counter).0, rest, ok (plaintext, encoded h.flags))
  unfolding deliver
  delivered r h buf fresh past =
      let counted : (accept r h.counter).1 ≡ true =
        accepted-accept r h.counter ∙ commit_fresh r.replay h.counter fresh in
      rw (counted, past) refl

  -- A frame that authenticates and is fresh is delivered.
  pub receive-frame :
      (r : ExpresslaneSession A) (c : ℕ)
      → c < 2 ^ 64
      → length iv ≡ 12
      → length tag ≡ 16
      → length ct < 256 ^ 2
      → would_reject r.replay c ≡ false
      → open_with r.current_peer r.prev_peer
          (sent_header c iv tag (with_encoded is_encoded) ct)
          ct
          (build_aad (version r) session_id c (with_encoded is_encoded))
        ≡ ok plaintext
      → try_from_wire r (frame c iv tag (with_encoded is_encoded) ct ++ rest) session_id
        ≡ ((accept r c).0, rest, ok (plaintext, is_encoded))
  unfolding try_from_wire receive
  receive-frame r c c_fits iv_len tag_len ct_fits fresh opened =
      let flags = with_encoded is_encoded in
      let h = sent_header c iv tag flags ct in
      let buf = frame c iv tag flags ct ++ rest in
      let flags_fit = with_encoded-lt is_encoded in
      let checked =
        checked_header-frame c iv tag flags ct rest c_fits iv_len tag_len flags_fit ct_fits in
      let cut =
        ciphertext_of-frame c iv tag flags ct rest c_fits iv_len tag_len flags_fit ct_fits in
      let past = drop-frame c iv tag flags ct rest c_fits iv_len tag_len flags_fit ct_fits in
      ap (receive r buf session_id) checked
      ∙ ap (λ x. deliver r buf h (authenticate r session_id x h)) cut
      ∙ ap (deliver r buf h) (authenticated r h opened fresh)
      ∙ delivered r h buf fresh past
      ∙ ap (λ e. ((accept r c).0, rest, ok (plaintext, e))) (encoded-with_encoded is_encoded)

  pub send-frame :
      (s : ExpresslaneSession A) (k : Keyed A)
      → s.current_self ≡ some k
      → is_invalid k.key ≡ false
      → length plaintext ≤ max_plaintext
      → crypto.seal k.aead iv plaintext
          (build_aad (version s) session_id (next_counter s) (with_encoded is_encoded))
        ≡ ok (ct, tag)
      → append_to_wire s [] session_id plaintext iv is_encoded
        ≡ ((reserve_counter s).0, frame (next_counter s) iv tag (with_encoded is_encoded) ct, ok tt)
  unfolding append_to_wire reserve_counter version put_frame
  send-frame s k current real fits sealed =
      let flags = with_encoded is_encoded in
      let c = next_counter s in
      let aad = build_aad (version s) session_id c flags in
      let opened =
        seal_with-current s.current_self k iv plaintext aad (ok (ct, tag)) current real sealed in
      let small : ltb max_plaintext (length plaintext) ≡ false = ground (arith, fits) in
      rw small (
        ap
          (λ x.
            ((reserve_counter s).0, (put_frame [] c iv flags x).0, (put_frame [] c iv flags x).1))
          opened)

module _ {A : Type 0} ⦃crypto : ExpresslaneAead A⦄ where
  -- A session after its new key is in force, for each direction.
  abbrev pub sends_with : ExpresslaneSession A → ExpresslaneKey → A → ExpresslaneSession A
  sends_with s key a = record s {
    next_self = none;
    has_self = not (is_invalid key);
    current_self = some (record { key = key; aead = a });
  }

  abbrev pub receives_with : ExpresslaneSession A → ExpresslaneKey → A → ExpresslaneSession A
  receives_with s key a = record s {
    has_peer = not (is_invalid key);
    prev_peer = s.current_peer;
    current_peer = some (record { key = key; aead = a });
  }

  pub promote_self_key-update :
      (s : ExpresslaneSession A) (key : ExpresslaneKey) (a : A)
      → crypto.new key ≡ ok a
      → promote_self_key (update_next_self_key s key).0 ≡ sends_with s key a
  unfolding update_next_self_key stage promote_self_key promote
  promote_self_key-update s key a e = ap (λ r. promote_self_key (stage s key r).0) e

  pub update_peer_key-ok :
      (s : ExpresslaneSession A) (key : ExpresslaneKey) (a : A)
      → crypto.new key ≡ ok a
      → (update_peer_key s key).0 ≡ receives_with s key a
  unfolding update_peer_key install
  update_peer_key-ok s key a e = ap (λ r. (install s key r).0) e

  pub open_with-current :
      (k : Keyed A) (prev : Option (Keyed A)) (h : FrameHeader) (ct aad plaintext : List ℕ)
      → is_invalid k.key ≡ false
      → crypto.open_aead k.aead h.iv ct aad h.auth_tag ≡ ok plaintext
      → open_with (some k) prev h ct aad ≡ ok plaintext
  unfolding open_with open_prev
  open_with-current k prev h ct aad plaintext real q = rw (real, q) refl

  pub open_with-prev :
      (k prev : Keyed A) (h : FrameHeader) (ct aad plaintext : List ℕ) (e : ExpresslaneError)
      → is_invalid k.key ≡ false
      → is_invalid prev.key ≡ false
      → crypto.open_aead k.aead h.iv ct aad h.auth_tag ≡ err e
      → crypto.open_aead prev.aead h.iv ct aad h.auth_tag ≡ ok plaintext
      → open_with (some k) (some prev) h ct aad ≡ ok plaintext
  unfolding open_with open_prev
  open_with-prev k prev h ct aad plaintext e real real_prev refused q =
      rw (real, refused, real_prev, q) refl
