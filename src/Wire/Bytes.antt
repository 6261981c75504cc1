-- ===== src/Wire/Bytes.antt =====
-- The `bytes` crate's big-endian integers for the tests: written out, they have the laws of the interface.
use lightway.Base.{
  ℕ, zero, suc, ◌+◌, ◌*◌, ◌/◌, ◌%◌, ◌^◌, ◌<◌, ◌≤◌, ◌≡◌, refl, sym, ap, ◌∙◌, List, [], ◌∷◌, ◌++◌,
  length, length-append, All, arith,
}
use native.Mathlib.Nat.{pow-suc, pow-succ', mul-le-mul_right, mul_assoc}
use lightway.Wire.BigEndian.{BigEndian}

unfoldable pub to_bytes : ℕ → ℕ → List ℕ
to_bytes zero v = []
to_bytes (suc k) v = to_bytes k (v / 256) ++ (v % 256 ∷ [])

unfoldable pub read_onto : ℕ → List ℕ → ℕ
read_onto acc [] = acc
read_onto acc (b ∷ bs) = read_onto (acc * 256 + b) bs

read_onto-append :
    (acc : ℕ) (xs : List ℕ) (b : ℕ) → read_onto acc (xs ++ (b ∷ [])) ≡ read_onto acc xs * 256 + b
unfolding read_onto
read_onto-append acc [] b = refl
read_onto-append acc (x ∷ xs) b = read_onto-append (acc * 256 + x) xs b

pub length-to_bytes : (k v : ℕ) → length (to_bytes k v) ≡ k
unfolding to_bytes
length-to_bytes zero v = refl
length-to_bytes (suc k) v =
    omega (arith, length-append (to_bytes k (v / 256)) (v % 256 ∷ []), length-to_bytes k (v / 256))

All-append :
    (xs : List ℕ) (b : ℕ) → All (λ x. x < 256) xs → b < 256 → All (λ x. x < 256) (xs ++ (b ∷ []))
All-append [] b h k = (k, tt)
All-append (x ∷ xs) b (h, hs) k = (h, All-append xs b hs k)

pub to_bytes-All : (k v : ℕ) → All (λ x. x < 256) (to_bytes k v)
unfolding to_bytes
to_bytes-All zero v = tt
to_bytes-All (suc k) v =
    All-append (to_bytes k (v / 256)) (v % 256) (to_bytes-All k (v / 256)) (omega arith)

pub read_onto-to_bytes : (k v : ℕ) → v < 256 ^ k → read_onto 0 (to_bytes k v) ≡ v
unfolding to_bytes read_onto
read_onto-to_bytes zero v h = omega arith
read_onto-to_bytes (suc k) v h =
    let q = v / 256 in
    let small : q < 256 ^ k = omega (arith, pow-suc 256 k) in
    rw (read_onto-append 0 (to_bytes k q) (v % 256), read_onto-to_bytes k q small) (omega arith)

pub read_onto-lt :
    (acc : ℕ) (bs : List ℕ) → All (λ x. x < 256) bs → read_onto acc bs < (acc + 1) * 256 ^ length bs
unfolding read_onto
read_onto-lt acc [] h = omega arith
read_onto-lt acc (b ∷ bs) (h, hs) =
    let p = 256 ^ length bs in
    let grown : (acc * 256 + b + 1) * p ≤ (acc + 1) * 256 * p = mul-le-mul_right p (omega arith) in
    let same : (acc + 1) * 256 * p ≡ (acc + 1) * 256 ^ suc (length bs) =
      mul_assoc (acc + 1) 256 p ∙ ap (λ x. (acc + 1) * x) (sym (pow-succ' 256 (length bs))) in
    omega (arith, read_onto-lt (acc * 256 + b) bs hs, same, grown)

instance abbrev pub big_endian : BigEndian
big_endian = record {
  be = to_bytes;
  of_be = read_onto 0;
  length-be = length-to_bytes;
  be-IsByte = to_bytes-All;
  of_be-be = read_onto-to_bytes;
  of_be-lt = λ bs h. omega (arith, read_onto-lt 0 bs h);
}
