-- ===== src/Wire/Safety.antt =====
-- One rule of safety for each statement of a decoder: on assertions, and on the underlying buffer.
use lightway.Base.{
  ℕ, ◌+◌, ◌-◌, ◌≤◌, ◌≡◌, refl, ap, ◌⊎◌, inl, inr, Bool, true, false, List, take, drop, length-drop,
  drop-drop, ◌∙◌, arith, Bool-cases,
}
use lightway.Wire.BigEndian.{BigEndian}
use lightway.Wire.Buffer.{
  BorrowedBytesMut, Outcome, ok, err, panic, Decoder, FromWireError, insufficient_data, return,
  ◌>>=◌, ◌>>◌, fail_if, require_len, advance, peek, copy, get, commit_and_split_to, len, chunk,
}
use lightway.Wire.Reads.{skip}

-- A decoder was started with its cursor at `start` or beyond. Where it reports an error the underlying
-- buffer is as it was; where it succeeds the buffer can be committed, and a commit leaves a suffix of
-- it that begins at `start` or beyond.
abbrev pub IsSafe : {A : Type 0} → List ℕ → ℕ → Outcome A → Type 0
IsSafe bytes start (ok a b) =
    ((b.committed ≡ false) × (b.bytes ≡ bytes) × (start ≤ b.cursor))
    ⊎ ((b.cursor ≡ 0) × ((k : ℕ) × (start ≤ k) × (b.bytes ≡ drop k bytes)))
IsSafe bytes start (err e b) = b.bytes ≡ bytes
IsSafe bytes start panic = ⊥

-- Nothing of `bytes` has been committed.
pub record Reads (bytes : List ℕ) (start : ℕ) (b : BorrowedBytesMut) : Type 0 where
  pub fresh : b.committed ≡ false
  pub same : b.bytes ≡ bytes
  pub ahead : start ≤ b.cursor

pub len-skip : (n : ℕ) (b : BorrowedBytesMut) → len (skip n b) ≡ len b - n
unfolding len
len-skip n b = omega arith

pub skip-Reads :
    {bytes : List ℕ} {start : ℕ} {b : BorrowedBytesMut} (n : ℕ)
    → Reads bytes start b
    → Reads bytes start (skip n b)
skip-Reads n r = record { fresh = r.fresh; same = r.same; ahead = omega (arith, r.ahead) }

require_len_cases :
    (n : ℕ) (b : BorrowedBytesMut)
    → (require_len n b ≡ err insufficient_data b) ⊎ ((require_len n b ≡ ok tt b) × (n ≤ len b))
unfolding require_len
require_len_cases n b = ground arith

pub require_len_reads : (n : ℕ) (b : BorrowedBytesMut) → n ≤ len b → require_len n b ≡ ok tt b
unfolding require_len
require_len_reads n b h = ground arith

module _ {bytes : List ℕ} {start : ℕ} {b : BorrowedBytesMut} (r : Reads bytes start b) (n : ℕ)
    (h : n ≤ len b) where
  pub advance_reads : advance n b ≡ ok tt (skip n b)
  unfolding advance
  advance_reads = ground (arith, r.fresh)

  pub peek_reads : peek n b ≡ ok (take n (chunk b)) b
  unfolding peek
  peek_reads = ground arith

  copy_reads : copy n b ≡ ok (take n (chunk b)) (skip n b)
  unfolding copy ◌>>=◌ ◌>>◌
  copy_reads = ground (arith, peek_reads, advance_reads)

  pub get_reads : ⦃be : BigEndian⦄ → get n b ≡ ok (be.of_be (take n (chunk b))) (skip n b)
  unfolding get ◌>>=◌
  get_reads ⦃be⦄ = ground (arith, copy_reads)

  split_reads :
      commit_and_split_to n b
      ≡ ok
          (take n (chunk b))
          (record { cursor = 0; bytes = drop n (drop b.cursor b.bytes); committed = true })
  unfolding commit_and_split_to chunk len
  split_reads = ground (arith, r.fresh, length-drop b.cursor b.bytes)

-- A decoder that returns before any commit.
pub safe_return :
    {bytes : List ℕ} {start : ℕ} {b : BorrowedBytesMut}
    → Reads bytes start b
    → ((b.committed ≡ false) × (b.bytes ≡ bytes) × (start ≤ b.cursor))
      ⊎ ((b.cursor ≡ 0) × ((k : ℕ) × (start ≤ k) × (b.bytes ≡ drop k bytes)))
safe_return r = inl (r.fresh, r.same, r.ahead)

module _ {A : Type 0} {bytes : List ℕ} {start : ℕ} {b : BorrowedBytesMut}
    (r : Reads bytes start b) where
  pub IsSafe-fail_if :
      (k : Decoder A) (test : Bool) (e : FromWireError)
      → (test ≡ false → IsSafe bytes start (k b))
      → IsSafe bytes start ((fail_if test e >> k) b)
  unfolding ◌>>◌ fail_if
  IsSafe-fail_if k test e next = elim (Bool-cases test) [
    | inl bad ↦ rw bad r.same
    | inr good ↦ rw good (next good)
  ]

  pub IsSafe-require :
      (k : Decoder A) (n : ℕ)
      → (n ≤ len b → IsSafe bytes start (k b))
      → IsSafe bytes start ((require_len n >> k) b)
  unfolding ◌>>◌
  IsSafe-require k n next = elim (require_len_cases n b) [
    | inl short ↦ rw (short, ◌>>=◌) r.same
    | inr (long, h) ↦ rw (long, ◌>>=◌) (next h)
  ]

  pub IsSafe-peek :
      (f : List ℕ → Decoder A) (n : ℕ)
      → n ≤ len b
      → ((xs : List ℕ) → IsSafe bytes start (f xs b))
      → IsSafe bytes start ((peek n >>= f) b)
  unfolding ◌>>=◌
  IsSafe-peek f n h next = rw (peek_reads r n h, ◌>>=◌) (next _)

  pub IsSafe-advance :
      (k : Decoder A) (n : ℕ)
      → n ≤ len b
      → (Reads bytes start (skip n b) → IsSafe bytes start (k (skip n b)))
      → IsSafe bytes start ((advance n >> k) b)
  unfolding ◌>>◌
  IsSafe-advance k n h next = rw (advance_reads r n h, ◌>>=◌) (next (skip-Reads n r))

  pub IsSafe-copy :
      (f : List ℕ → Decoder A) (n : ℕ)
      → n ≤ len b
      → ((xs : List ℕ) → Reads bytes start (skip n b) → IsSafe bytes start (f xs (skip n b)))
      → IsSafe bytes start ((copy n >>= f) b)
  unfolding ◌>>=◌
  IsSafe-copy f n h next = rw (copy_reads r n h, ◌>>=◌) (next _ (skip-Reads n r))

  pub IsSafe-get :
      ⦃be : BigEndian⦄ (f : ℕ → Decoder A) (n : ℕ)
      → n ≤ len b
      → ((v : ℕ) → Reads bytes start (skip n b) → IsSafe bytes start (f v (skip n b)))
      → IsSafe bytes start ((get n >>= f) b)
  unfolding ◌>>=◌
  IsSafe-get f n h next = rw (get_reads r n h, ◌>>=◌) (next _ (skip-Reads n r))

  -- A decoder called as a part: it succeeds with its cursor moved by `n`, or fails in place.
  pub IsSafe-call :
      {B : Type 0} (m : Decoder B) (f : B → Decoder A) (n : ℕ)
      → ((x : B) × (m b ≡ ok x (skip n b))) ⊎ ((e : FromWireError) × (m b ≡ err e b))
      → ((x : B) → Reads bytes start (skip n b) → IsSafe bytes start (f x (skip n b)))
      → IsSafe bytes start ((m >>= f) b)
  unfolding ◌>>=◌
  IsSafe-call m f n (inl (x, e)) next = rw (e, ◌>>=◌) (next x (skip-Reads n r))
  IsSafe-call m f n (inr (x, e)) next = rw (e, ◌>>=◌) r.same

  -- A split is the last read of a decoder.
  pub IsSafe-split :
      (f : List ℕ → A) (n : ℕ)
      → n ≤ len b
      → IsSafe bytes start ((commit_and_split_to n >>= λ xs. return (f xs)) b)
  unfolding ◌>>=◌
  IsSafe-split f n h =
      rw (split_reads r n h, ◌>>=◌)
        (inr (
          refl,
          (
            b.cursor + n,
            omega (arith, r.ahead),
            drop-drop b.cursor n b.bytes ∙ ap (drop (b.cursor + n)) r.same,
          ),
        ))

-- `Ok(wrap(decoder?))`.
module _ {A B : Type 0} (bytes : List ℕ) (start : ℕ) (wrap : A → B) where
  wrapped-IsSafe :
      (r : Outcome A)
      → IsSafe bytes start r
      → IsSafe {A = B} bytes start
          (elim r [ ok a b' ↦ ok (wrap a) b' | err e b' ↦ err e b' | panic ↦ panic ])
  wrapped-IsSafe (ok a b') h = h
  wrapped-IsSafe (err e b') h = h
  wrapped-IsSafe panic h = h

  pub IsSafe-map :
      (m : Decoder A) (b : BorrowedBytesMut)
      → IsSafe bytes start (m b)
      → IsSafe bytes start ((m >>= λ a. return (wrap a)) b)
  unfolding ◌>>=◌
  IsSafe-map m b h = wrapped-IsSafe (m b) h
