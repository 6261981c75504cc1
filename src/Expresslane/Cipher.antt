-- ===== src/Expresslane/Cipher.antt =====
-- A cipher for the tests: it has the laws of the interface, and hides nothing.
use lightway.Base.{
  ℕ, ◌≡◌, refl, ap, sym, ◌∙◌, Bool, true, false, List, [], ◌∷◌, if◌then◌else◌, length, replicate,
  get_or, arith,
}
use lightway.Expresslane.Aead.{
  ExpresslaneKey, ExpresslaneAead, ExpresslaneResult, ok, err, auth_failed, same_bytes,
}

-- It leaves the packet as it is, and its tag repeats the first byte of the key.
abbrev pub tag_of : ℕ → List ℕ
tag_of first = replicate 16 first

abbrev pub open_if : Bool → List ℕ → ExpresslaneResult (List ℕ)
open_if same ct = if same then ok ct else err auth_failed

same_bytes_self : (xs : List ℕ) → same_bytes xs xs ≡ true
unfolding same_bytes
same_bytes_self [] = refl
same_bytes_self (x ∷ xs) = ground (arith, same_bytes_self xs)

pub length-open_if : (b : Bool) (ct p : List ℕ) → open_if b ct ≡ ok p → length p ≡ length ct
length-open_if true ct p q = let e : ct ≡ p = cc q in ap length (sym e)
length-open_if false ct p q = cc q

open_if_self : (xs ys : List ℕ) → open_if (same_bytes xs xs) ys ≡ ok ys
open_if_self xs ys = ap (λ b. open_if b ys) (same_bytes_self xs)

pub open-seal_lem :
    (a b first : ℕ) (plaintext ct tag : List ℕ)
    → ◌≡◌ {A = ExpresslaneResult ℕ} (ok first) (ok a)
    → ◌≡◌ {A = ExpresslaneResult ℕ} (ok first) (ok b)
    → ◌≡◌ {A = ExpresslaneResult (List ℕ × List ℕ)} (ok (plaintext, tag_of a)) (ok (ct, tag))
    → open_if (same_bytes tag (tag_of b)) ct ≡ ok plaintext
open-seal_lem a b first plaintext ct tag built built' sealed =
    let same : a ≡ b = cc (built, built') in
    let packet : plaintext ≡ ct = cc sealed in
    let tagged : tag_of b ≡ tag = ap tag_of (sym same) ∙ cc sealed in
    rw (← tagged, packet) (open_if_self (tag_of b) ct)

pub length-seal_lem :
    (a : ℕ) (plaintext ct tag : List ℕ)
    → ◌≡◌ {A = ExpresslaneResult (List ℕ × List ℕ)} (ok (plaintext, tag_of a)) (ok (ct, tag))
    → (length ct ≡ length plaintext) × (length tag ≡ 16)
length-seal_lem a plaintext ct tag sealed =
    let packet : plaintext ≡ ct = cc sealed in
    let tagged : tag_of a ≡ tag = cc sealed in (ap length (sym packet), ap length (sym tagged))

instance abbrev pub test_cipher : ExpresslaneAead ℕ
test_cipher = record {
  new = λ key. ok (get_or key.bytes 0 0);
  seal = λ a iv plaintext aad. ok (plaintext, tag_of a);
  open_aead = λ a iv ct aad tag. open_if (same_bytes tag (tag_of a)) ct;
  open-seal =
      λ key a b iv plaintext aad ct tag. open-seal_lem a b (get_or key.bytes 0 0) plaintext ct tag;
  length-seal = λ a iv plaintext aad ct tag. length-seal_lem a plaintext ct tag;
  length-open = λ a iv ct aad tag p. length-open_if (same_bytes tag (tag_of a)) ct p;
}

abbrev pub first_key : ExpresslaneKey
first_key = record { bytes = replicate 32 1 }

abbrev pub second_key : ExpresslaneKey
second_key = record { bytes = replicate 32 2 }
