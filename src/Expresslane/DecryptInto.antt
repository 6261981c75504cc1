-- ===== src/Expresslane/DecryptInto.antt =====
-- lightway-expresslane/src/session.rs: `decrypt_into` against `try_from_wire`.
use mathlib.Core.List.{append_assoc}
use lightway.Base.{
  zero, suc, ◌∷◌, ℕ, ◌+◌, ◌≤◌, ◌≡◌, refl, sym, ◌∙◌, subst, inl, inr, Bool, false, List, [], ◌++◌,
  Option, none, some, ltb, Bool-cases, length, take, drop, arith, length-take, length-drop,
}
use lightway.Wire.BigEndian.{BigEndian}
use lightway.Replay.{would_reject}
use lightway.Expresslane.Aead.{ExpresslaneAead, ExpresslaneResult, ok, err, is_invalid, open_into}
use lightway.Expresslane.Session.{
  ExpresslaneSession, Keyed, FrameHeader, build_aad, version, open_with, open_prev, accept,
  checked_header, ciphertext_of, read_header,
}
use lightway.Expresslane.Packets.{
  try_from_wire, receive, deliver, authenticate, decrypt_into, receive_into, deliver_into,
  open_into_with, open_into_prev,
}

module _ ⦃be : BigEndian⦄ where
  checked_header_cases :
      (buf : List ℕ) (h : FrameHeader)
      → checked_header buf ≡ ok h
      → (h ≡ read_header buf) × (length (ciphertext_of buf h) ≡ h.data_len)
  unfolding checked_header ciphertext_of
  checked_header_cases buf h q =
      let n = (read_header buf).data_len in
      elim (Bool-cases (ltb (length buf) 40)) [
        | inl short ↦ cc (rw short at q)
        | inr long ↦ elim (Bool-cases (ltb (length buf) (40 + n))) [
          | inl short ↦ cc (rw (long, short) at q)
          | inr whole ↦
              let e : read_header buf ≡ h = cc (rw (long, whole) at q) in
              let size : 40 + n ≤ length buf = ground arith in
              let cut : length (take n (drop 40 buf)) ≡ n =
                omega (arith, length-take n (drop 40 buf), length-drop 40 buf) in
              (sym e, subst (λ x. length (take x.data_len (drop 40 buf)) ≡ x.data_len) e cut)
        ]
      ]

-- A delivered packet, seen as what is written over the start of `out`.
pub copied : List ℕ → ExpresslaneResult (List ℕ × Bool) → ExpresslaneResult (List ℕ × ℕ × Bool)
copied out (ok (plaintext, is_encoded)) =
    ok (plaintext ++ drop (length plaintext) out, length plaintext, is_encoded)
copied out (err e) = err e

copied_open : List ℕ → ExpresslaneResult (List ℕ) → ExpresslaneResult (List ℕ × ℕ)
copied_open out (ok plaintext) = ok (plaintext ++ drop (length plaintext) out, length plaintext)
copied_open out (err e) = err e

drop-take : (n : ℕ) (xs : List ℕ) → drop n (take n xs) ≡ []
drop-take zero xs = refl
drop-take (suc n) [] = refl
drop-take (suc n) (x ∷ xs) = drop-take n xs

module _ {A : Type 0} ⦃crypto : ExpresslaneAead A⦄ where
  open_into-copied :
      (a : A) (iv ct aad tag out : List ℕ) (r : ExpresslaneResult (List ℕ))
      → crypto.open_aead a iv ct aad tag ≡ r
      → open_into a iv ct aad tag out ≡ copied_open out r
  unfolding open_into copied_open
  open_into-copied a iv ct aad tag out (ok p) q = rw q refl
  open_into-copied a iv ct aad tag out (err e) q = rw q refl

module _ {A : Type 0} ⦃crypto : ExpresslaneAead A⦄ ⦃be : BigEndian⦄ where
  open_into_prev-copied :
      (prev : Option (Keyed A)) (h : FrameHeader) (ct aad out : List ℕ)
      (r : ExpresslaneResult (List ℕ))
      → open_into_prev prev h ct aad out (copied_open out r)
        ≡ copied_open out (open_prev prev h ct aad r)
  unfolding open_into_prev open_prev copied_open
  open_into_prev-copied none h ct aad out (ok p) = refl
  open_into_prev-copied (some prev) h ct aad out (ok p) = refl
  open_into_prev-copied none h ct aad out (err e) = refl
  open_into_prev-copied (some prev) h ct aad out (err e) = elim (Bool-cases (is_invalid prev.key)) [
    | inl sentinel ↦ rw sentinel refl
    | inr real ↦ rw real (open_into-copied prev.aead h.iv ct aad h.auth_tag out _ refl)
  ]

  open_into_with-copied :
      (current prev : Option (Keyed A)) (h : FrameHeader) (ct aad out : List ℕ)
      → open_into_with current prev h ct aad out ≡ copied_open out (open_with current prev h ct aad)
  unfolding open_into_with open_with copied_open
  open_into_with-copied none prev h ct aad out = refl
  open_into_with-copied (some k) prev h ct aad out = elim (Bool-cases (is_invalid k.key)) [
    | inl sentinel ↦ rw sentinel refl
    | inr real ↦
        rw (real, open_into-copied k.aead h.iv ct aad h.auth_tag out _ refl)
          (open_into_prev-copied prev h ct aad out _)
  ]

module _ {A : Type 0} ⦃crypto : ExpresslaneAead A⦄ where
  length-open_prev :
      (prev : Option (Keyed A)) (h : FrameHeader) (ct aad p : List ℕ)
      (r : ExpresslaneResult (List ℕ))
      → ((x : List ℕ) → r ≡ ok x → length x ≡ length ct)
      → open_prev prev h ct aad r ≡ ok p
      → length p ≡ length ct
  unfolding open_prev
  length-open_prev prev h ct aad p (ok x) first q = first p q
  length-open_prev none h ct aad p (err e) first q = cc q
  length-open_prev (some prev) h ct aad p (err e) first q =
      elim (Bool-cases (is_invalid prev.key)) [
        | inl sentinel ↦ cc (rw sentinel at q)
        | inr real ↦ crypto.length-open prev.aead h.iv ct aad h.auth_tag p (rw real at q)
      ]

  length-open_with :
      (current prev : Option (Keyed A)) (h : FrameHeader) (ct aad p : List ℕ)
      → open_with current prev h ct aad ≡ ok p
      → length p ≡ length ct
  unfolding open_with
  length-open_with none prev h ct aad p q = cc q
  length-open_with (some k) prev h ct aad p q = elim (Bool-cases (is_invalid k.key)) [
    | inl sentinel ↦ cc (rw sentinel at q)
    | inr real ↦
        length-open_prev prev h ct aad p _ (λ x. crypto.length-open k.aead h.iv ct aad h.auth_tag x)
          (rw real at q)
  ]

module _ {A : Type 0} ⦃crypto : ExpresslaneAead A⦄ ⦃be : BigEndian⦄ where
  deliver_into-deliver :
      (s : ExpresslaneSession A) (buf : List ℕ) (h : FrameHeader) (out : List ℕ)
      (r : ExpresslaneResult (List ℕ))
      → ((x : List ℕ) → r ≡ ok x → length x ≡ h.data_len)
      → deliver_into s h out (copied_open (take h.data_len out) r)
        ≡ ((deliver s buf h r).0, copied out (deliver s buf h r).2)
  unfolding deliver_into deliver copied copied_open
  deliver_into-deliver s buf h out (err e) len = refl
  deliver_into-deliver s buf h out (ok p) len =
      let n : length p ≡ h.data_len = len p refl in
      elim (Bool-cases (accept s h.counter).1) [
        | inl fresh ↦
            rw (fresh, ← n, drop-take (length p) out, append_assoc p [] (drop (length p) out)) refl
        | inr stale ↦ rw stale refl
      ]

  receive_into-receive :
      (s : ExpresslaneSession A) (buf session_id out : List ℕ) (r : ExpresslaneResult FrameHeader)
      → ((h : FrameHeader) → r ≡ ok h → h.data_len ≤ length out)
      → ((h : FrameHeader) → r ≡ ok h → length (ciphertext_of buf h) ≡ h.data_len)
      → receive_into s session_id buf out r
        ≡ ((receive s buf session_id r).0, copied out (receive s buf session_id r).2)
  unfolding receive_into receive copied authenticate deliver
  receive_into-receive s buf session_id out (err e) room size = refl
  receive_into-receive s buf session_id out (ok h) room size =
      let aad = build_aad (version s) session_id h.counter h.flags in
      let ct = ciphertext_of buf h in
      let fits : ltb (length out) h.data_len ≡ false = ground (arith, room h refl) in
      elim (Bool-cases (would_reject s.replay h.counter)) [
        | inl rejected ↦ rw (fits, rejected) refl
        | inr fresh ↦
            rw
              (
                fits,
                fresh,
                open_into_with-copied s.current_peer s.prev_peer h ct aad (take h.data_len out),
              )
              (deliver_into-deliver s buf h out _
                λ x q. length-open_with s.current_peer s.prev_peer h ct aad x q ∙ size h refl)
      ]

  -- Decrypting into a slice that has room for the packet gives what receiving from a buffer gives: the
  -- same session, and the same error, or the same packet over the start of the slice, whose rest stays,
  -- with its length and the same flag.
  pub decrypt_into-try_from_wire :
      (s : ExpresslaneSession A) (buf session_id out : List ℕ)
      → (read_header buf).data_len ≤ length out
      → decrypt_into s session_id buf out
        ≡ ((try_from_wire s buf session_id).0, copied out (try_from_wire s buf session_id).2)
  unfolding decrypt_into try_from_wire
  decrypt_into-try_from_wire s buf session_id out room =
      receive_into-receive s buf session_id out (checked_header buf)
        (λ h q. rw (checked_header_cases buf h q).0 room) (λ h q. (checked_header_cases buf h q).1)
