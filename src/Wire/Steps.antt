-- ===== src/Wire/Steps.antt =====
-- One rule for each statement of a decoder, run on a buffer that shows what it is to read.
use lightway.Base.{ℕ, ◌≤◌, ◌<◌, ◌^◌, ◌≡◌, refl, Bool, false, List, ◌++◌, length, arith}
use lightway.Wire.BigEndian.{BigEndian}
use lightway.Wire.Buffer.{
  BorrowedBytesMut, Decoder, FromWireError, ok, return, ◌>>=◌, ◌>>◌, fail_if, require_len, advance,
  peek, copy, get, commit_and_split_to,
}
use lightway.Wire.Reads.{
  Shows, Shows-Leaves, Decodes, skip, split_off, split_off-Leaves, skip-Shows, len-Shows, peek_lem,
  advance_lem, copy_lem, commit_and_split_to_lem, get_lem, get-Shows,
}

require_len_lem :
    (n : ℕ) (b : BorrowedBytesMut) (xs : List ℕ)
    → Shows b xs
    → n ≤ length xs
    → require_len n b ≡ ok tt b
unfolding require_len
require_len_lem n b xs s h = ground (arith, len-Shows b xs s)

module _ {A : Type 0} {b : BorrowedBytesMut} {a : A} {rest : List ℕ} where
  pub Decodes-return : Shows b rest → Decodes (return a b) a rest
  Decodes-return s = record { after = b; result = refl; leaves = Shows-Leaves b rest s }

  pub Decodes-fail_if :
      (k : Decoder A) (test : Bool) (e : FromWireError)
      → test ≡ false
      → Decodes (k b) a rest
      → Decodes ((fail_if test e >> k) b) a rest
  unfolding ◌>>◌ fail_if
  Decodes-fail_if k test e h d = rw h d

  pub Decodes-require :
      (k : Decoder A) (n : ℕ) (xs : List ℕ)
      → Shows b xs
      → n ≤ length xs
      → Decodes (k b) a rest
      → Decodes ((require_len n >> k) b) a rest
  unfolding ◌>>◌
  Decodes-require k n xs s h d = rw (require_len_lem n b xs s h, ◌>>=◌) d

  pub Decodes-copy :
      (f : List ℕ → Decoder A) (n : ℕ) (xs ys : List ℕ)
      → Shows b (xs ++ ys)
      → length xs ≡ n
      → (Shows (skip n b) ys → Decodes (f xs (skip n b)) a rest)
      → Decodes ((copy n >>= f) b) a rest
  unfolding ◌>>=◌
  Decodes-copy f n xs ys s e d = rw (copy_lem n b xs ys e s, ◌>>=◌) (d (skip-Shows n b xs ys e s))

  pub Decodes-peek :
      (f : List ℕ → Decoder A) (n : ℕ) (xs ys : List ℕ)
      → Shows b (xs ++ ys)
      → length xs ≡ n
      → Decodes (f xs b) a rest
      → Decodes ((peek n >>= f) b) a rest
  unfolding ◌>>=◌
  Decodes-peek f n xs ys s e d = rw (peek_lem n b xs ys e s, ◌>>=◌) d

  pub Decodes-advance :
      (k : Decoder A) (n : ℕ) (xs ys : List ℕ)
      → Shows b (xs ++ ys)
      → length xs ≡ n
      → (Shows (skip n b) ys → Decodes (k (skip n b)) a rest)
      → Decodes ((advance n >> k) b) a rest
  unfolding ◌>>◌
  Decodes-advance k n xs ys s e d =
      rw (advance_lem n b xs ys e s, ◌>>=◌) (d (skip-Shows n b xs ys e s))

  -- A decoder called as a part.
  pub Decodes-call :
      {B : Type 0} (m : Decoder B) (f : B → Decoder A) (x : B) (c : BorrowedBytesMut)
      → m b ≡ ok x c
      → Decodes (f x c) a rest
      → Decodes ((m >>= f) b) a rest
  unfolding ◌>>=◌
  Decodes-call m f x c e d = rw (e, ◌>>=◌) d

  -- A split is the last read of a decoder.
  pub Decodes-split :
      (f : List ℕ → A) (n : ℕ) (xs : List ℕ)
      → Shows b (xs ++ rest)
      → length xs ≡ n
      → f xs ≡ a
      → Decodes ((commit_and_split_to n >>= λ ys. return (f ys)) b) a rest
  unfolding ◌>>=◌
  Decodes-split f n xs s e v =
      rw (commit_and_split_to_lem n b xs rest e s, ◌>>=◌)
        (record { after = split_off rest; result = rw v; leaves = split_off-Leaves rest })

  pub Decodes-get :
      ⦃be : BigEndian⦄ (f : ℕ → Decoder A) (k v : ℕ) (ys : List ℕ)
      → Shows b (be.be k v ++ ys)
      → v < 256 ^ k
      → (Shows (skip k b) ys → Decodes (f v (skip k b)) a rest)
      → Decodes ((get k >>= f) b) a rest
  unfolding ◌>>=◌
  Decodes-get f k v ys s small d = rw (get_lem k v b ys s small, ◌>>=◌) (d (get-Shows k v b ys s))

-- `Ok(wrap(decoder?))`.
pub Decodes-map :
    {A B : Type 0} {b : BorrowedBytesMut} {a : A} {rest : List ℕ} (m : Decoder A) (wrap : A → B)
    → Decodes (m b) a rest
    → Decodes ((m >>= λ x. return (wrap x)) b) (wrap a) rest
unfolding ◌>>=◌
Decodes-map m wrap d = record { after = d.after; result = rw (d.result, ◌>>=◌); leaves = d.leaves }
