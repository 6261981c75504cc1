-- ===== src/Expresslane/Layout.antt =====
-- lightway-expresslane/src/session.rs: the layout of a frame, read back.
use mathlib.Core.List.{append_assoc}
use native.Mathlib.Nat.{mod-eq_of_lt}
use lightway.Base.{
  ℕ, ◌+◌, ◌^◌, ◌<◌, ◌≤◌, ◌≡◌, refl, ap, sym, ◌∙◌, List, ◌++◌, length, take, drop, arith,
  take-append_self, drop-append_self, drop-drop, length-append,
}
use lightway.Wire.BigEndian.{BigEndian}
use lightway.Expresslane.Aead.{ok}
use lightway.Expresslane.Session.{FrameHeader, checked_header, ciphertext_of, read_header, frame}

take_prefix : (n : ℕ) (xs ys : List ℕ) → length xs ≡ n → take n (xs ++ ys) ≡ xs
take_prefix n xs ys e = rw (← e) (take-append_self xs ys)

drop_prefix : (n : ℕ) (xs ys : List ℕ) → length xs ≡ n → drop n (xs ++ ys) ≡ ys
drop_prefix n xs ys e = rw (← e) (drop-append_self xs ys)

-- The header that a frame is read with.
abbrev pub sent_header : ℕ → List ℕ → List ℕ → ℕ → List ℕ → FrameHeader
sent_header c iv tag flags ct = record {
  counter = c;
  iv = iv;
  auth_tag = tag;
  data_len = length ct;
  flags = flags;
}

module _ ⦃be : BigEndian⦄ (c : ℕ) (iv tag : List ℕ) (flags : ℕ) (ct rest : List ℕ)
    (c_fits : c < 256 ^ 8) (iv_len : length iv ≡ 12) (tag_len : length tag ≡ 16)
    (flags_fit : flags < 256 ^ 2) (ct_fits : length ct < 256 ^ 2) where
  buf : List ℕ
  buf = frame c iv tag flags ct ++ rest

  after_length : List ℕ
  after_length = be.be 2 flags ++ (ct ++ rest)

  layout : buf ≡ be.be 8 c ++ (iv ++ (tag ++ (be.be 2 (length ct) ++ after_length)))
  unfolding buf frame after_length
  layout = simp (append_assoc, mod-eq_of_lt ct_fits)

  at8 : drop 8 buf ≡ iv ++ (tag ++ (be.be 2 (length ct) ++ after_length))
  at8 = ap (drop 8) layout ∙ drop_prefix 8 (be.be 8 c) _ (be.length-be 8 c)

  at20 : drop 20 buf ≡ tag ++ (be.be 2 (length ct) ++ after_length)
  at20 = sym (drop-drop 8 12 buf) ∙ ap (drop 12) at8 ∙ drop_prefix 12 iv _ iv_len

  at36 : drop 36 buf ≡ be.be 2 (length ct) ++ after_length
  at36 = sym (drop-drop 20 16 buf) ∙ ap (drop 16) at20 ∙ drop_prefix 16 tag _ tag_len

  at38 : drop 38 buf ≡ be.be 2 flags ++ (ct ++ rest)
  unfolding after_length
  at38 =
      sym (drop-drop 36 2 buf)
      ∙ ap (drop 2) at36
      ∙ drop_prefix 2 (be.be 2 (length ct)) _ (be.length-be 2 _)

  pub at40 : drop 40 (frame c iv tag flags ct ++ rest) ≡ ct ++ rest
  unfolding buf
  at40 =
      sym (drop-drop 38 2 buf)
      ∙ ap (drop 2) at38
      ∙ drop_prefix 2 (be.be 2 flags) _ (be.length-be 2 _)

  read_counter : be.of_be (take 8 buf) ≡ c
  read_counter =
      ap (λ x. be.of_be (take 8 x)) layout
      ∙ ap be.of_be (take_prefix 8 (be.be 8 c) _ (be.length-be 8 c))
      ∙ be.of_be-be 8 c c_fits

  read_iv : take 12 (drop 8 buf) ≡ iv
  read_iv = ap (take 12) at8 ∙ take_prefix 12 iv _ iv_len

  read_tag : take 16 (drop 20 buf) ≡ tag
  read_tag = ap (take 16) at20 ∙ take_prefix 16 tag _ tag_len

  read_len : be.of_be (take 2 (drop 36 buf)) ≡ length ct
  read_len =
      ap (λ x. be.of_be (take 2 x)) at36
      ∙ ap be.of_be (take_prefix 2 (be.be 2 (length ct)) _ (be.length-be 2 _))
      ∙ be.of_be-be 2 _ ct_fits

  read_flags : be.of_be (take 2 (drop 38 buf)) ≡ flags
  read_flags =
      ap (λ x. be.of_be (take 2 x)) at38
      ∙ ap be.of_be (take_prefix 2 (be.be 2 flags) _ (be.length-be 2 _))
      ∙ be.of_be-be 2 _ flags_fit

  pub read_header-frame :
      read_header (frame c iv tag flags ct ++ rest) ≡ sent_header c iv tag flags ct
  unfolding read_header buf
  read_header-frame = rw (read_counter, read_iv, read_tag, read_len, read_flags) refl

  pub length-frame : length (frame c iv tag flags ct) ≡ 40 + length ct
  unfolding frame
  length-frame = omega (arith, length-append {0}, be.length-be, iv_len, tag_len)

  pub checked_header-frame :
      checked_header (frame c iv tag flags ct ++ rest) ≡ ok (sent_header c iv tag flags ct)
  unfolding checked_header
  checked_header-frame =
      let long : 40 + length ct ≤ length (frame c iv tag flags ct ++ rest) =
        omega (arith, length-append (frame c iv tag flags ct) rest, length-frame) in
      rw read_header-frame (ground (arith, long))

  pub ciphertext_of-frame :
      ciphertext_of (frame c iv tag flags ct ++ rest) (sent_header c iv tag flags ct) ≡ ct
  unfolding ciphertext_of
  ciphertext_of-frame = ap (take (length ct)) at40 ∙ take-append_self ct rest

  pub drop-frame : drop (40 + length ct) (frame c iv tag flags ct ++ rest) ≡ rest
  drop-frame =
      sym (drop-drop 40 (length ct) _) ∙ ap (drop (length ct)) at40 ∙ drop-append_self ct rest
