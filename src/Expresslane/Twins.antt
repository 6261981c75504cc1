-- ===== src/Expresslane/Twins.antt =====
-- lightway-expresslane/src/session.rs: the methods on slices of the caller against those on growing
-- buffers.
use lightway.Base.{
  ℕ, ◌+◌, ◌≤◌, ◌≡◌, refl, inl, inr, Bool, false, List, [], ◌++◌, Option, none, some, ltb,
  Bool-cases, length, drop, arith, length-append,
}
use lightway.Wire.BigEndian.{BigEndian}
use lightway.Expresslane.Aead.{ExpresslaneAead, ExpresslaneResult, ok, err, is_invalid, seal_into}
use lightway.Expresslane.Session.{
  ExpresslaneSession, Keyed, build_aad, version, frame, with_encoded, max_plaintext,
  reserve_counter, seal_with,
}
use lightway.Expresslane.Packets.{
  append_to_wire, put_frame, encrypt_into, fill_frame, seal_into_with,
}
use lightway.Expresslane.Writes.{fill_frame_lem}

-- A buffer with a frame, seen as what is written over the start of `out`.
pub framed : List ℕ → List ℕ → ExpresslaneResult (Unit {0}) → ExpresslaneResult (List ℕ × ℕ)
framed out buf (ok done) = ok (buf ++ drop (length buf) out, length buf)
framed out buf (err e) = err e

module _ ⦃be : BigEndian⦄ where
  length-frame :
      (c : ℕ) (iv tag : List ℕ) (flags : ℕ) (ct : List ℕ)
      → length iv ≡ 12
      → length tag ≡ 16
      → length (frame c iv tag flags ct) ≡ 40 + length ct
  unfolding frame
  length-frame c iv tag flags ct iv_len tag_len =
      omega (arith, length-append {0}, be.length-be, iv_len, tag_len)

  fill_frame-put_frame :
      (c : ℕ) (iv : List ℕ) (flags n : ℕ) (out : List ℕ) (r : ExpresslaneResult (List ℕ × List ℕ))
      → ((ct tag : List ℕ) → r ≡ ok (ct, tag) → (length ct ≡ n) × (length tag ≡ 16))
      → length iv ≡ 12
      → 40 + n ≤ length out
      → fill_frame c iv flags n out (40 + n) r
        ≡ framed out (put_frame [] c iv flags r).0 (put_frame [] c iv flags r).1
  unfolding framed put_frame fill_frame
  fill_frame-put_frame c iv flags n out (err e) lens iv_len room = refl
  fill_frame-put_frame c iv flags n out (ok (ct, tag)) lens iv_len room =
      let (ct_len, tag_len) = lens ct tag refl in
      let size = length-frame c iv tag flags ct iv_len tag_len in
      let room' : 40 + length ct ≤ length out = omega arith in
      rw (← ct_len, size) (fill_frame_lem c iv tag flags ct iv_len tag_len out room')

module _ {A : Type 0} ⦃crypto : ExpresslaneAead A⦄ ⦃be : BigEndian⦄ where
  seal_into_with_lem :
      (o : Option (Keyed A)) (iv plaintext aad : List ℕ)
      → seal_into_with o iv plaintext aad ≡ seal_with o iv plaintext aad
  unfolding seal_into_with seal_with seal_into
  seal_into_with_lem none iv plaintext aad = refl
  seal_into_with_lem (some k) iv plaintext aad = refl

  length-seal_with :
      (o : Option (Keyed A)) (iv plaintext aad ct tag : List ℕ)
      → seal_with o iv plaintext aad ≡ ok (ct, tag)
      → (length ct ≡ length plaintext) × (length tag ≡ 16)
  unfolding seal_with
  length-seal_with none iv plaintext aad ct tag q = cc q
  length-seal_with (some k) iv plaintext aad ct tag q = elim (Bool-cases (is_invalid k.key)) [
    | inl sentinel ↦ cc (rw sentinel at q)
    | inr real ↦ crypto.length-seal k.aead iv plaintext aad ct tag (rw real at q)
  ]

  -- Reserving a counter and encrypting into a slice that has room for the frame gives what appending to
  -- an empty buffer gives: the same error, or the same frame over the start of the slice, whose rest
  -- stays, and the frame's length.
  pub encrypt_into-append_to_wire :
      (s : ExpresslaneSession A) (session_id plaintext iv out : List ℕ) (is_encoded : Bool)
      → length iv ≡ 12
      → 40 + length plaintext ≤ length out
      → encrypt_into
          (reserve_counter s).0
          (reserve_counter s).1
          session_id
          plaintext
          iv
          is_encoded
          out
        ≡ framed out
            (append_to_wire s [] session_id plaintext iv is_encoded).1
            (append_to_wire s [] session_id plaintext iv is_encoded).2
  unfolding encrypt_into append_to_wire framed
  encrypt_into-append_to_wire s session_id plaintext iv out is_encoded iv_len room =
      elim (Bool-cases (ltb max_plaintext (length plaintext))) [
        | inl large ↦ rw large refl
        | inr small ↦
            let (reserved, c) = reserve_counter s in
            let flags = with_encoded is_encoded in
            let aad = build_aad (version reserved) session_id c flags in
            let fits : ltb (length out) (40 + length plaintext) ≡ false = ground (arith, room) in
            rw (small, fits, seal_into_with_lem reserved.current_self iv plaintext aad)
              (fill_frame-put_frame c iv flags (length plaintext) out _
                (λ ct tag. length-seal_with reserved.current_self iv plaintext aad ct tag) iv_len
                room)
      ]
