-- ===== src/Wire/AuthRequest/RoundTrip.antt =====
-- The round trip of authentication requests.
use lightway.Base.{
  ℕ, ◌-◌, ◌^◌, ◌≤◌, ◌<◌, ◌≡◌, refl, sym, ap, ◌∙◌, true, List, [], ◌++◌, length, replicate,
  length-append, length-replicate, arith,
}
use lightway.Wire.Codec.{
  BigEndian, BorrowedBytesMut, Decoder, FromWireError, ◌>>=◌, Shows, Decodes, skip, Decodes-return,
  Decodes-fail_if, Decodes-require, Decodes-get, Decodes-copy, Decodes-advance, Decodes-peek,
  append_assoc, mod-eq_of_lt,
}
use mathlib.Core.List.{append-nil}
use lightway.Base.{subst, Option, none, some}
use lightway.Wire.Codec.{Decodes-map, Decodes-peek}
use lightway.Wire.Utf8.{is_utf8, Decodes-utf8}
use lightway.Versions.{Version, try_new}
use lightway.Wire.AuthRequest.{
  AuthMethodKind, user_pass_kind, kind_to_u8, kind_from_u8, AuthMethod, user_pass, token,
  versioned_token, custom_callback, AuthRequest, max_user_pass_length, max_token_bytes,
  max_versioned_token_bytes, max_custom_data_bytes, kind, or_fail, user_pass_from_wire,
  token_from_wire, versioned_token_from_wire, custom_callback_from_wire, method_from_wire,
  auth_method_from_wire, try_from_wire, append_method_to_wire, append_to_wire,
}

pub Decodes-or_fail :
    {A B : Type 0} {b : BorrowedBytesMut} {x : B} {rest : List ℕ} (o : Option A) (e : FromWireError)
    (f : A → Decoder B) (a : A)
    → o ≡ some a
    → Decodes (f a b) x rest
    → Decodes ((or_fail o e >>= f) b) x rest
unfolding or_fail ◌>>=◌
Decodes-or_fail none e f a h d = cc
Decodes-or_fail {b} {x} {rest} (some c) e f a h d =
    subst (λ y. Decodes (f y b) x rest) (ground arith) d

abbrev IsText : ℕ → List ℕ → Type 0
IsText most t = (length t ≤ most) × (is_utf8 t ≡ true)

abbrev pub IsMethodEncodable : AuthMethod → Type 0
IsMethodEncodable (user_pass user password) =
    IsText max_user_pass_length user × IsText max_user_pass_length password
IsMethodEncodable (token t) = IsText max_token_bytes t
IsMethodEncodable (versioned_token version t) =
    (try_new version.major version.minor ≡ some version) × IsText max_versioned_token_bytes t
IsMethodEncodable (custom_callback bytes) = length bytes ≤ max_custom_data_bytes

abbrev pub IsEncodable : AuthRequest → Type 0
IsEncodable r = IsMethodEncodable r.auth_method

kind_from_u8-kind_to_u8 : (k : AuthMethodKind) → kind_from_u8 (kind_to_u8 k) ≡ some k
unfolding kind_from_u8 kind_to_u8
kind_from_u8-kind_to_u8 user_pass_kind = refl
kind_from_u8-kind_to_u8 _ = refl

kind_to_u8-lt : (k : AuthMethodKind) → kind_to_u8 k < 256
unfolding kind_to_u8
kind_to_u8-lt k = ground arith

pub version_small :
    (v : Version) → try_new v.major v.minor ≡ some v → (v.major < 256) × (v.minor < 256)
unfolding try_new
version_small v h = ground arith

length-field :
    (t : List ℕ)
    → length t ≤ max_user_pass_length
    → length (t ++ replicate (max_user_pass_length - length t) 0) ≡ max_user_pass_length
length-field t h = omega (
  arith,
  length-append t (replicate (max_user_pass_length - length t) 0),
  length-replicate {A = ℕ} (max_user_pass_length - length t) 0,
)

module _ ⦃be : BigEndian⦄ (b : BorrowedBytesMut) (rest : List ℕ) where
  Decodes-token :
      (t : List ℕ)
      → IsText max_token_bytes t
      → Shows b (append_method_to_wire (token t) [] ++ rest)
      → Decodes (token_from_wire b) (token t) rest
  unfolding token_from_wire append_method_to_wire
  Decodes-token t (short, valid) s =
      let n = length t in
      let small : n < 2 ^ 16 = omega arith in
      let shown : Shows b (be.be 2 n ++ (t ++ rest)) =
        subst (Shows b) (simp (append_assoc, mod-eq_of_lt small)) s in
      Decodes-require _ 2 _ shown (omega (arith, length-append {0}, be.length-be)) (
        Decodes-get _ 2 n _ shown small λ s1. Decodes-fail_if _ _ _ (ground arith) (
          Decodes-require _ n _ s1 (omega (arith, length-append t rest)) (
            Decodes-peek _ n t rest s1 refl (
              Decodes-utf8 _ t valid
                (Decodes-advance _ n t rest s1 refl λ s2. Decodes-return s2)))))

  Decodes-versioned_token :
      (v : Version) (t : List ℕ)
      → try_new v.major v.minor ≡ some v
      → IsText max_versioned_token_bytes t
      → Shows b (append_method_to_wire (versioned_token v t) [] ++ rest)
      → Decodes (versioned_token_from_wire b) (versioned_token v t) rest
  unfolding versioned_token_from_wire append_method_to_wire
  Decodes-versioned_token v t known (short, valid) s =
      let n = length t in
      let small : n < 2 ^ 16 = omega arith in
      let shown : Shows b (be.be 1 v.major ++ (be.be 1 v.minor ++ (be.be 2 n ++ (t ++ rest)))) =
        subst (Shows b) (simp (append_assoc, mod-eq_of_lt small)) s in
      let (major, minor) = version_small v known in
      Decodes-require _ 4 _ shown (omega (arith, length-append {0}, be.length-be)) (
        Decodes-get _ 1 v.major _ shown major λ s1. Decodes-get _ 1 v.minor _ s1 minor λ s2.
          Decodes-or_fail _ _ _ v known (
            Decodes-get _ 2 n _ s2 small λ s3. Decodes-fail_if _ _ _ (ground arith) (
              Decodes-require _ n _ s3 (omega (arith, length-append t rest)) (
                Decodes-peek _ n t rest s3 refl (
                  Decodes-utf8 _ t valid
                    (Decodes-advance _ n t rest s3 refl λ s4. Decodes-return s4))))))

  Decodes-custom_callback :
      (t : List ℕ)
      → length t ≤ max_custom_data_bytes
      → Shows b (append_method_to_wire (custom_callback t) [] ++ rest)
      → Decodes (custom_callback_from_wire b) (custom_callback t) rest
  unfolding custom_callback_from_wire append_method_to_wire
  Decodes-custom_callback t short s =
      let n = length t in
      let small : n < 2 ^ 16 = omega arith in
      let shown : Shows b (be.be 2 n ++ (t ++ rest)) =
        subst (Shows b) (simp (append_assoc, mod-eq_of_lt small)) s in
      Decodes-require _ 2 _ shown (omega (arith, length-append {0}, be.length-be)) (
        Decodes-get _ 2 n _ shown small λ s1. Decodes-fail_if _ _ _ (ground arith) (
          Decodes-require _ n _ s1 (omega (arith, length-append t rest))
            (Decodes-copy _ n t rest s1 refl λ s2. Decodes-return s2)))

  Decodes-user_pass :
      (user password : List ℕ)
      → IsText max_user_pass_length user
      → IsText max_user_pass_length password
      → Shows b (append_method_to_wire (user_pass user password) [] ++ rest)
      → Decodes (user_pass_from_wire b) (user_pass user password) rest
  unfolding user_pass_from_wire append_method_to_wire
  Decodes-user_pass user password (m_short, m_valid) (n_short, n_valid) s =
      let m = length user in
      let n = length password in
      let m_small : m < 2 ^ 8 = omega arith in
      let n_small : n < 2 ^ 8 = omega arith in
      let pad1 : List ℕ = replicate (max_user_pass_length - m) 0 in
      let pad2 : List ℕ = replicate (max_user_pass_length - n) 0 in
      let second = (password ++ pad2) ++ rest in
      let shown : Shows b (be.be 1 m ++ (be.be 1 n ++ ((user ++ pad1) ++ second))) =
        subst (Shows b) (simp (append_assoc, mod-eq_of_lt m_small, mod-eq_of_lt n_small)) s in
      let flat : (c : BorrowedBytesMut) (t pad ys : List ℕ)
          → Shows c ((t ++ pad) ++ ys)
          → Shows c (t ++ (pad ++ ys)) =
        λ c t pad ys sh. subst (Shows c) (append_assoc t pad ys) sh in
      Decodes-require _ 102 _ shown
        (omega (
          arith,
          length-append {0},
          be.length-be,
          length-field user m_short,
          length-field password n_short,
        ))
        (Decodes-get _ 1 m _ shown m_small λ s1. Decodes-get _ 1 n _ s1 n_small λ s2.
          Decodes-fail_if _ _ _ (ground arith) (
            Decodes-peek _ m user (pad1 ++ second) (flat _ user pad1 second s2) refl (
              Decodes-utf8 _ user m_valid (
                Decodes-advance _ 50 (user ++ pad1) second s2 (length-field user m_short) λ s3.
                  Decodes-peek _ n password (pad2 ++ rest) (flat _ password pad2 rest s3) refl (
                    Decodes-utf8 _ password n_valid (
                      Decodes-advance _ 50 (password ++ pad2) rest s3
                        (length-field password n_short) λ s4. Decodes-return s4))))))

  Decodes-method :
      (m : AuthMethod)
      → IsMethodEncodable m
      → Shows b (append_method_to_wire m [] ++ rest)
      → Decodes (method_from_wire (kind m) b) m rest
  unfolding method_from_wire kind
  Decodes-method (user_pass user password) h s = Decodes-user_pass user password h.0 h.1 s
  Decodes-method (token t) h s = Decodes-token t h s
  Decodes-method (versioned_token v t) h s = Decodes-versioned_token v t h.0 h.1 s
  Decodes-method (custom_callback t) h s = Decodes-custom_callback t h s

module _ ⦃be : BigEndian⦄ where
  append_method_to_wire_lem :
      (m : AuthMethod) (buf : List ℕ)
      → append_method_to_wire m buf ≡ buf ++ append_method_to_wire m []
  unfolding append_method_to_wire
  append_method_to_wire_lem (user_pass user password) buf = refl
  append_method_to_wire_lem (token t) buf = refl
  append_method_to_wire_lem (versioned_token v t) buf = refl
  append_method_to_wire_lem (custom_callback t) buf = refl

  layout :
      (r : AuthRequest) (buf rest : List ℕ)
      → append_to_wire r buf ++ rest
        ≡ buf
          ++ (be.be 1 (kind_to_u8 (kind r.auth_method))
              ++ (append_method_to_wire r.auth_method [] ++ rest))
  unfolding append_to_wire
  layout r buf rest =
      rw
        (append_method_to_wire_lem r.auth_method (buf ++ be.be 1 (kind_to_u8 (kind r.auth_method))))
        (simp append_assoc)

  pub append_to_wire_lem :
      (r : AuthRequest) (buf : List ℕ) → append_to_wire r buf ≡ buf ++ append_to_wire r []
  append_to_wire_lem r buf =
      sym (append-nil _) ∙ layout r buf [] ∙ ap (◌++◌ buf) (sym (layout r [] []) ∙ append-nil _)

  pub decodes :
      (r : AuthRequest) (b : BorrowedBytesMut) (rest : List ℕ)
      → IsEncodable r
      → Shows b (append_to_wire r [] ++ rest)
      → Decodes (try_from_wire b) r rest
  unfolding try_from_wire auth_method_from_wire
  decodes r b rest h s =
      let k = kind r.auth_method in
      let shown : Shows b
          (be.be 1 (kind_to_u8 k) ++ (append_method_to_wire r.auth_method [] ++ rest)) =
        subst (Shows b) (layout r [] rest) s in
      Decodes-map _ (λ m. record { auth_method = m })
        (Decodes-require _ 1 _ shown (omega (arith, length-append {0}, be.length-be)) (
          Decodes-get _ 1 (kind_to_u8 k) _ shown (kind_to_u8-lt k) λ s1.
            Decodes-or_fail _ _ _ k (kind_from_u8-kind_to_u8 k)
              (Decodes-method (skip 1 b) rest r.auth_method h s1)))
