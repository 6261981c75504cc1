-- ===== src/Expresslane/Writes.antt =====
-- lightway-expresslane/src/session.rs: a frame that is written
-- field by field over a slice.
use mathlib.Core.List.{append_assoc}
use lightway.Base.{
  ℕ, zero, suc, ◌+◌, ◌-◌, ◌%◌, ◌^◌, ◌≤◌, ◌≡◌, refl, ap, sym, ◌∙◌, List, [], ◌∷◌, ◌++◌, length, take,
  drop, arith, drop-drop, take-append-drop, length-take, length-drop, drop-append_self,
}
use lightway.Wire.BigEndian.{BigEndian}
use lightway.Expresslane.Aead.{ok}
use lightway.Expresslane.Session.{frame}
use lightway.Expresslane.Packets.{fill_frame, write}

take_pass : (m k : ℕ) (p y : List ℕ) → length p ≡ m → take (m + k) (p ++ y) ≡ p ++ take k y
take_pass m k [] y e = ap (λ n. take n y) (omega arith)
take_pass zero k (x ∷ p) y e = absurd (omega arith)
take_pass (suc m) k (x ∷ p) y e =
    let shift : suc m + k ≡ suc (m + k) = omega arith in
    rw shift (ap (◌∷◌ x) (take_pass m k p y (omega arith)))

drop_pass : (m k : ℕ) (p y : List ℕ) → length p ≡ m → drop (m + k) (p ++ y) ≡ drop k y
drop_pass m k p y e = sym (drop-drop m k (p ++ y)) ∙ ap (drop k) (rw (← e) (drop-append_self p y))

-- A write behind a prefix, and one over what comes first.
write_pass :
    (m k : ℕ) (xs p y : List ℕ) → length p ≡ m → write (m + k) xs (p ++ y) ≡ p ++ write k xs y
unfolding write
write_pass m k xs p y e =
    let shift : m + k + length xs ≡ m + (k + length xs) = omega arith in
    rw (take_pass m k p y e, shift, drop_pass m (k + length xs) p y e) (append_assoc p (take k y) _)

write_here : (xs q r : List ℕ) → length q ≡ length xs → write 0 xs (q ++ r) ≡ xs ++ r
unfolding write
write_here xs q r e =
    let n : 0 + length xs ≡ length q = omega arith in rw (n, drop-append_self q r) refl

-- `out` in pieces of the widths of the fields.
pieces : (n : ℕ) (out : List ℕ) → out ≡ take n out ++ drop n out
pieces n out = sym (take-append-drop n out)

module _ ⦃be : BigEndian⦄ (c : ℕ) (iv tag : List ℕ) (flags : ℕ) (ct : List ℕ)
    (iv_len : length iv ≡ 12) (tag_len : length tag ≡ 16) where
  -- The writes of the fields, over any bytes of their widths.
  fill_pieces :
      (p1 p2 p3 p4 p5 p6 rest : List ℕ)
      → length p1 ≡ 8
      → length p2 ≡ 12
      → length p3 ≡ 16
      → length p4 ≡ 2
      → length p5 ≡ 2
      → length p6 ≡ length ct
      → fill_frame c iv flags
          (length ct)
          (p1 ++ (p2 ++ (p3 ++ (p4 ++ (p5 ++ (p6 ++ rest))))))
          (40 + length ct)
          (ok (ct, tag))
        ≡ ok (frame c iv tag flags ct ++ rest, 40 + length ct)
  unfolding fill_frame frame
  fill_pieces p1 p2 p3 p4 p5 p6 rest e1 e2 e3 e4 e5 e6 =
      let counter = be.be 8 c in
      let size = be.be 2 (length ct % 2 ^ 16) in
      let bits = be.be 2 flags in
      let counter_len = be.length-be 8 c in
      let size_len = be.length-be 2 (length ct % 2 ^ 16) in
      let y5 = p5 ++ (ct ++ rest) in
      let y4 = p4 ++ y5 in
      let y3 = p3 ++ y4 in
      let y2 = p2 ++ y3 in
      let w1 : write 40 ct (p1 ++ (p2 ++ (p3 ++ (p4 ++ (p5 ++ (p6 ++ rest)))))) ≡ p1 ++ y2 =
        write_pass 8 32 ct p1 _ e1
        ∙ ap (◌++◌ p1) (
            write_pass 12 20 ct p2 _ e2
            ∙ ap (◌++◌ p2) (
                write_pass 16 4 ct p3 _ e3
                ∙ ap (◌++◌ p3) (
                    write_pass 2 2 ct p4 _ e4
                    ∙ ap (◌++◌ p4)
                        (write_pass 2 0 ct p5 _ e5 ∙ ap (◌++◌ p5) (write_here ct p6 rest e6))))) in
      let w2 : write 0 counter (p1 ++ y2) ≡ counter ++ y2 =
        write_here counter p1 y2 (e1 ∙ sym counter_len) in
      let w3 : write 8 iv (counter ++ y2) ≡ counter ++ (iv ++ y3) =
        write_pass 8 0 iv counter y2 counter_len
        ∙ ap (◌++◌ counter) (write_here iv p2 y3 (e2 ∙ sym iv_len)) in
      let w4 : write 20 tag (counter ++ (iv ++ y3)) ≡ counter ++ (iv ++ (tag ++ y4)) =
        write_pass 8 12 tag counter _ counter_len
        ∙ ap (◌++◌ counter) (
            write_pass 12 0 tag iv y3 iv_len
            ∙ ap (◌++◌ iv) (write_here tag p3 y4 (e3 ∙ sym tag_len))) in
      let w5 : write 36 size (counter ++ (iv ++ (tag ++ y4)))
          ≡ counter ++ (iv ++ (tag ++ (size ++ y5))) =
        write_pass 8 28 size counter _ counter_len
        ∙ ap (◌++◌ counter) (
            write_pass 12 16 size iv _ iv_len
            ∙ ap (◌++◌ iv) (
                write_pass 16 0 size tag y4 tag_len
                ∙ ap (◌++◌ tag) (write_here size p4 y5 (e4 ∙ sym size_len)))) in
      let w6 : write 38 bits (counter ++ (iv ++ (tag ++ (size ++ y5))))
          ≡ counter ++ (iv ++ (tag ++ (size ++ (bits ++ (ct ++ rest))))) =
        write_pass 8 30 bits counter _ counter_len
        ∙ ap (◌++◌ counter) (
            write_pass 12 18 bits iv _ iv_len
            ∙ ap (◌++◌ iv) (
                write_pass 16 2 bits tag _ tag_len
                ∙ ap (◌++◌ tag) (
                    write_pass 2 0 bits size y5 size_len
                    ∙ ap (◌++◌ size)
                        (write_here bits p5 (ct ++ rest) (e5 ∙ sym (be.length-be 2 flags)))))) in
      rw (w1, w2, w3, w4, w5, w6) (simp (append_assoc))

  piece_len : (n : ℕ) (xs : List ℕ) → n ≤ length xs → length (take n xs) ≡ n
  piece_len n xs h = omega (arith, length-take n xs)

  all_pieces :
      (n : ℕ) (out : List ℕ)
      → drop n (drop 2 (drop 2 (drop 16 (drop 12 (drop 8 out))))) ≡ drop (40 + n) out
  all_pieces n out = simp (drop-drop)

  pub fill_frame_lem :
      (out : List ℕ)
      → 40 + length ct ≤ length out
      → fill_frame c iv flags (length ct) out (40 + length ct) (ok (ct, tag))
        ≡ ok (frame c iv tag flags ct ++ drop (40 + length ct) out, 40 + length ct)
  fill_frame_lem out h =
      let o1 = drop 8 out in
      let o2 = drop 12 o1 in
      let o3 = drop 16 o2 in
      let o4 = drop 2 o3 in
      let o5 = drop 2 o4 in
      let n = length ct in
      let whole : out
          ≡ take 8 out
            ++ (take 12 o1
                ++ (take 16 o2 ++ (take 2 o3 ++ (take 2 o4 ++ (take n o5 ++ drop n o5))))) =
        pieces 8 out
        ∙ ap (◌++◌ (take 8 out)) (
            pieces 12 o1
            ∙ ap (◌++◌ (take 12 o1)) (
                pieces 16 o2
                ∙ ap (◌++◌ (take 16 o2)) (
                    pieces 2 o3
                    ∙ ap (◌++◌ (take 2 o3))
                        (pieces 2 o4 ∙ ap (◌++◌ (take 2 o4)) (pieces n o5))))) in
      let l1 : length o1 ≡ length out - 8 = length-drop 8 out in
      let l2 : length o2 ≡ length o1 - 12 = length-drop 12 o1 in
      let l3 : length o3 ≡ length o2 - 16 = length-drop 16 o2 in
      let l4 : length o4 ≡ length o3 - 2 = length-drop 2 o3 in
      let l5 : length o5 ≡ length o4 - 2 = length-drop 2 o4 in
      ap (λ o. fill_frame c iv flags (length ct) o (40 + length ct) (ok (ct, tag))) whole
      ∙ fill_pieces (take 8 out) (take 12 o1) (take 16 o2) (take 2 o3) (take 2 o4) (take n o5)
          (drop n o5) (piece_len 8 out (omega arith)) (piece_len 12 o1 (omega arith))
          (piece_len 16 o2 (omega arith)) (piece_len 2 o3 (omega arith))
          (piece_len 2 o4 (omega arith)) (piece_len n o5 (omega arith))
      ∙ ap (λ r. ok (frame c iv tag flags ct ++ r, 40 + length ct)) (all_pieces n out)
