-- ===== src/Wire/AuthRequest/Safe.antt =====
-- Safety of the decoding of authentication requests.
use lightway.Base.{ℕ, List, arith}
use lightway.Wire.Codec.{
  BigEndian, BorrowedBytesMut, Decoder, FromWireError, ◌>>=◌, skip, IsSafe, Reads, len-skip,
  safe_return, IsSafe-fail_if, IsSafe-require, IsSafe-get, IsSafe-copy, IsSafe-advance, IsSafe-peek,
  IsSafe-map,
}
use lightway.Base.{Option, none, some}
use lightway.Wire.Codec.{IsSafe-peek}
use lightway.Wire.Utf8.{IsSafe-utf8}
use lightway.Versions.{try_new}
use lightway.Wire.AuthRequest.{
  AuthMethodKind, user_pass_kind, token_kind, versioned_token_kind, custom_callback_kind,
  kind_from_u8, or_fail, user_pass_from_wire, token_from_wire, versioned_token_from_wire,
  custom_callback_from_wire, method_from_wire, auth_method_from_wire, try_from_wire,
}

pub IsSafe-or_fail :
    {A B : Type 0} {bytes : List ℕ} {start : ℕ} {b : BorrowedBytesMut}
    → Reads bytes start b
    → (o : Option A) (e : FromWireError) (f : A → Decoder B)
    → ((a : A) → IsSafe bytes start (f a b))
    → IsSafe bytes start ((or_fail o e >>= f) b)
unfolding or_fail ◌>>=◌
IsSafe-or_fail r none e f next = r.same
IsSafe-or_fail r (some a) e f next = next a

module _ ⦃be : BigEndian⦄ (bytes : List ℕ) (start : ℕ) where
  user_pass-IsSafe :
      (b : BorrowedBytesMut) → Reads bytes start b → IsSafe bytes start (user_pass_from_wire b)
  unfolding user_pass_from_wire
  user_pass-IsSafe b r = IsSafe-require r _ 102 λ h. IsSafe-get r _ 1 (omega arith) λ m r1.
      IsSafe-get r1 _ 1 (omega (arith, len-skip)) λ n r2. IsSafe-fail_if r2 _ _ _ λ bounds.
        IsSafe-peek r2 _ m (ground (arith, len-skip 1 b, len-skip 1 (skip 1 b))) λ user.
          IsSafe-utf8 r2 _ user (
            IsSafe-advance r2 _ 50 (omega (arith, len-skip)) λ r3.
              IsSafe-peek r3 _ n
                (ground
                  (arith, len-skip 1 b, len-skip 1 (skip 1 b), len-skip 50 (skip 1 (skip 1 b))))
                λ password.
                  IsSafe-utf8 r3 _ password
                    (IsSafe-advance r3 _ 50 (omega (arith, len-skip)) λ r4. safe_return r4))

  token-IsSafe :
      (b : BorrowedBytesMut) → Reads bytes start b → IsSafe bytes start (token_from_wire b)
  unfolding token_from_wire
  token-IsSafe b r = IsSafe-require r _ 2 λ h. IsSafe-get r _ 2 h λ n r1.
      IsSafe-fail_if r1 _ _ _ λ _. IsSafe-require r1 _ n λ h1.
        IsSafe-peek r1 _ n h1
          λ t. IsSafe-utf8 r1 _ t (IsSafe-advance r1 _ n h1 λ r2. safe_return r2)

  versioned_token-IsSafe :
      (b : BorrowedBytesMut)
      → Reads bytes start b
      → IsSafe bytes start (versioned_token_from_wire b)
  unfolding versioned_token_from_wire
  versioned_token-IsSafe b r = IsSafe-require r _ 4 λ h. IsSafe-get r _ 1 (omega arith) λ major r1.
      IsSafe-get r1 _ 1 (omega (arith, len-skip)) λ minor r2.
        IsSafe-or_fail r2 (try_new major minor) _ _ λ version.
          IsSafe-get r2 _ 2 (omega (arith, len-skip)) λ n r3. IsSafe-fail_if r3 _ _ _ λ _.
            IsSafe-require r3 _ n λ h3.
              IsSafe-peek r3 _ n h3
                λ t. IsSafe-utf8 r3 _ t (IsSafe-advance r3 _ n h3 λ r4. safe_return r4)

  custom_callback-IsSafe :
      (b : BorrowedBytesMut)
      → Reads bytes start b
      → IsSafe bytes start (custom_callback_from_wire b)
  unfolding custom_callback_from_wire
  custom_callback-IsSafe b r = IsSafe-require r _ 2 λ h. IsSafe-get r _ 2 h λ n r1.
      IsSafe-fail_if r1 _ _ _
        λ _. IsSafe-require r1 _ n λ h1. IsSafe-copy r1 _ n h1 λ t r2. safe_return r2

  method-IsSafe :
      (k : AuthMethodKind) (b : BorrowedBytesMut)
      → Reads bytes start b
      → IsSafe bytes start (method_from_wire k b)
  unfolding method_from_wire
  method-IsSafe user_pass_kind b r = user_pass-IsSafe b r
  method-IsSafe token_kind b r = token-IsSafe b r
  method-IsSafe versioned_token_kind b r = versioned_token-IsSafe b r
  method-IsSafe custom_callback_kind b r = custom_callback-IsSafe b r

  auth_method-IsSafe :
      (b : BorrowedBytesMut) → Reads bytes start b → IsSafe bytes start (auth_method_from_wire b)
  unfolding auth_method_from_wire
  auth_method-IsSafe b r = IsSafe-require r _ 1 λ h.
      IsSafe-get r _ 1 h
        λ byte r1. IsSafe-or_fail r1 (kind_from_u8 byte) _ _ λ k. method-IsSafe k (skip 1 b) r1

  pub try_from_wire-IsSafe :
      (b : BorrowedBytesMut) → Reads bytes start b → IsSafe bytes start (try_from_wire b)
  unfolding try_from_wire
  try_from_wire-IsSafe b r = IsSafe-map bytes start _ _ b (auth_method-IsSafe b r)
