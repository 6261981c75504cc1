-- ===== src/Wire/Reads.antt =====
-- What a decoder reads from a buffer that has not been committed.
use lightway.Base.{
  ℕ, ◌+◌, ◌≤◌, ◌<◌, ◌^◌, ◌≡◌, refl, ap, sym, ◌∙◌, ◌⊎◌, inl, inr, true, false, List, ◌++◌, length,
  take, drop, length-append, length-drop, drop-drop, take-append_self, drop-append_self, arith,
}
use lightway.Wire.BigEndian.{BigEndian}
use lightway.Wire.Buffer.{
  BorrowedBytesMut, Outcome, ok, from, len, chunk, advance, peek, copy, get, ◌>>=◌, ◌>>◌,
  commit_and_split_to,
}

-- The buffer with its cursor moved on, and the buffer after a split.
abbrev pub skip : ℕ → BorrowedBytesMut → BorrowedBytesMut
skip n b = record b { cursor = b.cursor + n }

pub split_off : List ℕ → BorrowedBytesMut
split_off rest = record { cursor = 0; bytes = rest; committed = true }

-- The buffer has not been committed, and `xs` is unread.
pub record Shows (b : BorrowedBytesMut) (xs : List ℕ) : Type 0 where
  pub fresh : b.committed ≡ false
  pub unread : chunk b ≡ xs

pub len-Shows : (b : BorrowedBytesMut) (xs : List ℕ) → Shows b xs → len b ≡ length xs
unfolding len chunk
len-Shows b xs s = omega (arith, length-drop b.cursor b.bytes, ap length s.unread)

pub from-Shows : (bytes : List ℕ) → Shows (from bytes) bytes
unfolding from chunk
from-Shows bytes = record { fresh = refl; unread = refl }

-- Reading off a prefix.
pub skip-Shows :
    (n : ℕ) (b : BorrowedBytesMut) (xs ys : List ℕ)
    → length xs ≡ n
    → Shows b (xs ++ ys)
    → Shows (skip n b) ys
unfolding chunk
skip-Shows n b xs ys e s = record {
  fresh = s.fresh;
  unread =
      sym (drop-drop b.cursor n b.bytes) ∙ ap (drop n) s.unread ∙ rw (← e) (drop-append_self xs ys);
}

module _ (n : ℕ) (b : BorrowedBytesMut) (xs ys : List ℕ) (e : length xs ≡ n)
    (s : Shows b (xs ++ ys)) where
  fits : n ≤ len b
  fits = omega (arith, len-Shows b (xs ++ ys) s, length-append xs ys)

  prefix : take n (chunk b) ≡ xs
  prefix = ap (take n) s.unread ∙ rw (← e) (take-append_self xs ys)

  pub peek_lem : peek n b ≡ ok xs b
  unfolding peek
  peek_lem = ground (arith, fits, prefix)

  pub advance_lem : advance n b ≡ ok tt (skip n b)
  unfolding advance
  advance_lem = ground (arith, fits, s.fresh)

  pub copy_lem : copy n b ≡ ok xs (skip n b)
  unfolding copy ◌>>=◌ ◌>>◌
  copy_lem = ground (arith, peek_lem, advance_lem)

  pub commit_and_split_to_lem : commit_and_split_to n b ≡ ok xs (split_off ys)
  unfolding commit_and_split_to split_off chunk
  commit_and_split_to_lem = ground (
    arith,
    s.fresh,
    s.unread,
    length-append xs ys,
    prefix,
    ap (drop n) s.unread,
    drop-append_self xs ys,
  )

module _ ⦃be : BigEndian⦄ where
  pub get_lem :
      (k v : ℕ) (b : BorrowedBytesMut) (ys : List ℕ)
      → Shows b (be.be k v ++ ys)
      → v < 256 ^ k
      → get k b ≡ ok v (skip k b)
  unfolding get ◌>>=◌
  get_lem k v b ys s small =
      ground (arith, copy_lem k b (be.be k v) ys (be.length-be k v) s, be.of_be-be k v small)

  pub get-Shows :
      (k v : ℕ) (b : BorrowedBytesMut) (ys : List ℕ)
      → Shows b (be.be k v ++ ys)
      → Shows (skip k b) ys
  get-Shows k v b ys s = skip-Shows k b (be.be k v) ys (be.length-be k v) s

-- What a commit leaves in the underlying buffer.
pub record Leaves (b : BorrowedBytesMut) (rest : List ℕ) : Type 0 where
  pub unread : chunk b ≡ rest
  pub committable : (b.committed ≡ false) ⊎ (b.cursor ≡ 0)

-- A decoder's outcome: the value `a`, with `rest` to follow.
pub record Decodes {A : Type 0} (r : Outcome A) (a : A) (rest : List ℕ) : Type 0 where
  pub after : BorrowedBytesMut
  pub result : r ≡ ok a after
  pub leaves : Leaves after rest

pub Shows-Leaves : (b : BorrowedBytesMut) (xs : List ℕ) → Shows b xs → Leaves b xs
Shows-Leaves b xs s = record { unread = s.unread; committable = inl s.fresh }

pub split_off-Leaves : (rest : List ℕ) → Leaves (split_off rest) rest
unfolding split_off chunk
split_off-Leaves rest = record { unread = refl; committable = inr refl }
