-- ===== src/Expresslane/Aead.antt =====
-- lightway-expresslane/src/error.rs, key.rs and aead.rs. The cipher behind the trait belongs to the
-- TLS libraries: the trait is an interface with laws for what authenticated encryption promises.
use lightway.Base.{
  ℕ, ◌≡◌, Bool, true, false, ◌&&◌, List, [], ◌∷◌, ◌==◌, length, replicate, drop, ◌++◌,
}

pub data ExpresslaneError : Type 0 where
  new_cipher_failed set_key_failed no_key encrypt_failed auth_failed : ExpresslaneError
  payload_too_large replayed insufficient_data buffer_too_small : ExpresslaneError

pub data ExpresslaneResult (T : Type 0) : Type 0 where
  ok : T → ExpresslaneResult T
  err : ExpresslaneError → ExpresslaneResult T

-- The `?` operator.
infixl 5 ◌>>=◌
unfoldable pub ◌>>=◌ :
    {S T : Type 0} → ExpresslaneResult S → (S → ExpresslaneResult T) → ExpresslaneResult T
ok a >>= f = f a
err e >>= f = err e

abbrev pub expresslane_key_size : ℕ
expresslane_key_size = 32

-- A key is the list of its bytes.
pub record ExpresslaneKey : Type 0 where
  pub bytes : List ℕ

abbrev pub invalid : ExpresslaneKey
invalid = record { bytes = replicate expresslane_key_size 0 }

unfoldable pub same_bytes : List ℕ → List ℕ → Bool
same_bytes [] [] = true
same_bytes [] (y ∷ ys) = false
same_bytes (x ∷ xs) [] = false
same_bytes (x ∷ xs) (y ∷ ys) = (x == y) && same_bytes xs ys

unfoldable pub is_invalid : ExpresslaneKey → Bool
unfolding same_bytes
is_invalid key = same_bytes key.bytes invalid.bytes

-- `seal cipher iv plaintext aad` answers the ciphertext and the tag.
pub record ExpresslaneAead (A : Type 0) : Type 0 where
  pub new : ExpresslaneKey → ExpresslaneResult A
  pub seal : A → List ℕ → List ℕ → List ℕ → ExpresslaneResult (List ℕ × List ℕ)
  pub open_aead : A → List ℕ → List ℕ → List ℕ → List ℕ → ExpresslaneResult (List ℕ)
  -- What one cipher sealed, a cipher built for the same key opens.
  pub open-seal :
      (key : ExpresslaneKey) (a b : A) (iv plaintext aad ciphertext tag : List ℕ)
      → new key ≡ ok a
      → new key ≡ ok b
      → seal a iv plaintext aad ≡ ok (ciphertext, tag)
      → open_aead b iv ciphertext aad tag ≡ ok plaintext
  pub length-seal :
      (a : A) (iv plaintext aad ciphertext tag : List ℕ)
      → seal a iv plaintext aad ≡ ok (ciphertext, tag)
      → (length ciphertext ≡ length plaintext) × (length tag ≡ 16)
  pub length-open :
      (a : A) (iv ciphertext aad tag plaintext : List ℕ)
      → open_aead a iv ciphertext aad tag ≡ ok plaintext
      → length plaintext ≡ length ciphertext

module _ {A : Type 0} ⦃crypto : ExpresslaneAead A⦄ where
  -- The default bodies of the trait, for an `out` of the plaintext's and of the ciphertext's length:
  -- they answer what is written over it besides the result. `PooledAead`, which overrides them, is not
  -- modelled.
  unfoldable pub seal_into : A → List ℕ → List ℕ → List ℕ → ExpresslaneResult (List ℕ × List ℕ)
  seal_into a iv plaintext aad = crypto.seal a iv plaintext aad

  unfoldable pub open_into :
      A → List ℕ → List ℕ → List ℕ → List ℕ → List ℕ → ExpresslaneResult (List ℕ × ℕ)
  unfolding ◌>>=◌
  open_into a iv ciphertext aad tag out = do
    plaintext ← crypto.open_aead a iv ciphertext aad tag
    ok (plaintext ++ drop (length plaintext) out, length plaintext)
