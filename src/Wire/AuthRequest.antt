-- ===== src/Wire/AuthRequest.antt =====
-- lightway-core/src/wire/auth_request.rs: the authentication methods and their encodings. Strings are
-- UTF-8 bytes.
pub mod RoundTrip
pub mod Safe
use lightway.Base.{
  ℕ, ◌+◌, ◌-◌, ◌*◌, ◌/◌, ◌%◌, ◌^◌, ◌≤◌, ◌<◌, ◌≡◌, refl, sym, ap, ◌∙◌, Bool, true, false, not, ◌||◌,
  ◌⊎◌, inl, inr, List, [], ◌∷◌, ◌++◌, ltb, leb, ◌==◌, if◌then◌else◌, length, replicate,
  length-append, length-replicate, arith, Bool-cases,
}
use lightway.Wire.Codec.{
  BigEndian, BorrowedBytesMut, Decoder, FromWireError, field_too_large, invalid_bool, return, fail,
  ◌>>=◌, ◌>>◌, fail_if, require_len, copy, get, peek, advance, commit_and_split_to, len, Shows,
  Decodes, Outcome, ok, err, panic, skip, Decodes-return, Decodes-fail_if, Decodes-require,
  Decodes-get, Decodes-copy, Decodes-split, Decodes-advance, Decodes-peek, IsSafe, Reads, len-skip,
  safe_return, IsSafe-fail_if, IsSafe-require, IsSafe-get, IsSafe-copy, IsSafe-split,
  IsSafe-advance, IsSafe-peek, append_assoc, mod-eq_of_lt,
}
use lightway.Base.{Option, none, some}
use lightway.Wire.Codec.{invalid_enum_encoding, invalid_protocol_version}
use lightway.Wire.Utf8.{from_utf8}
use lightway.Versions.{Version, try_new}

pub data AuthMethodKind : Type 0 where
  user_pass_kind token_kind versioned_token_kind custom_callback_kind : AuthMethodKind

pub kind_to_u8 : AuthMethodKind → ℕ
kind_to_u8 user_pass_kind = 1
kind_to_u8 token_kind = 2
kind_to_u8 versioned_token_kind = 3
kind_to_u8 custom_callback_kind = 23

-- The derived `TryFromPrimitive`.
pub kind_from_u8 : ℕ → Option AuthMethodKind
kind_from_u8 byte =
    if byte == 1
    then some user_pass_kind
    else if byte == 2
    then some token_kind
    else if byte == 3
    then some versioned_token_kind
    else if byte == 23
    then some custom_callback_kind
    else none

pub data AuthMethod : Type 0 where
  user_pass : List ℕ → List ℕ → AuthMethod
  token : List ℕ → AuthMethod
  versioned_token : Version → List ℕ → AuthMethod
  custom_callback : List ℕ → AuthMethod

pub record AuthRequest : Type 0 where
  pub auth_method : AuthMethod

abbrev pub max_user_pass_length : ℕ
max_user_pass_length = 50

-- One byte of kind, two of a version, two of a length.
abbrev pub max_token_bytes : ℕ
max_token_bytes = 1350 - 1 - 2

abbrev pub max_versioned_token_bytes : ℕ
max_versioned_token_bytes = 1350 - 1 - 2 - 2

abbrev pub max_custom_data_bytes : ℕ
max_custom_data_bytes = 1350 - 1 - 2

pub kind : AuthMethod → AuthMethodKind
kind (user_pass user password) = user_pass_kind
kind (token t) = token_kind
kind (versioned_token version t) = versioned_token_kind
kind (custom_callback bytes) = custom_callback_kind

-- `Option::ok_or` with `?`.
pub or_fail : {A : Type 0} → Option A → FromWireError → Decoder A
or_fail none e = fail e
or_fail (some a) e = return a

module _ ⦃be : BigEndian⦄ where
  pub user_pass_from_wire : Decoder AuthMethod
  user_pass_from_wire = do
    require_len (2 + 2 * max_user_pass_length)
    user_len ← get 1
    pass_len ← get 1
    fail_if (ltb max_user_pass_length user_len || ltb max_user_pass_length pass_len) field_too_large
    user_bytes ← peek user_len
    user ← from_utf8 user_bytes
    advance max_user_pass_length
    pass_bytes ← peek pass_len
    password ← from_utf8 pass_bytes
    advance max_user_pass_length
    return (user_pass user password)

  pub token_from_wire : Decoder AuthMethod
  token_from_wire = do
    require_len 2
    token_len ← get 2
    fail_if (ltb max_token_bytes token_len) field_too_large
    require_len token_len
    bytes ← peek token_len
    t ← from_utf8 bytes
    advance token_len
    return (token t)

  pub versioned_token_from_wire : Decoder AuthMethod
  versioned_token_from_wire = do
    require_len 4
    major ← get 1
    minor ← get 1
    version ← or_fail (try_new major minor) (invalid_protocol_version major minor)
    token_len ← get 2
    fail_if (ltb max_versioned_token_bytes token_len) field_too_large
    require_len token_len
    bytes ← peek token_len
    t ← from_utf8 bytes
    advance token_len
    return (versioned_token version t)

  pub custom_callback_from_wire : Decoder AuthMethod
  custom_callback_from_wire = do
    require_len 2
    data_len ← get 2
    fail_if (ltb max_custom_data_bytes data_len) field_too_large
    require_len data_len
    bytes ← copy data_len
    return (custom_callback bytes)

  -- The branches of the `match` on the kind.
  pub method_from_wire : AuthMethodKind → Decoder AuthMethod
  method_from_wire user_pass_kind = user_pass_from_wire
  method_from_wire token_kind = token_from_wire
  method_from_wire versioned_token_kind = versioned_token_from_wire
  method_from_wire custom_callback_kind = custom_callback_from_wire

  pub auth_method_from_wire : Decoder AuthMethod
  auth_method_from_wire = do
    require_len 1
    byte ← get 1
    kind ← or_fail (kind_from_u8 byte) invalid_enum_encoding
    method_from_wire kind

  pub try_from_wire : Decoder AuthRequest
  try_from_wire = do method ← auth_method_from_wire; return (record { auth_method = method })

  -- The payload behind the kind byte.
  pub append_method_to_wire : AuthMethod → List ℕ → List ℕ
  append_method_to_wire (user_pass user password) buf =
      buf
      ++ (be.be 1 (length user % 2 ^ 8)
          ++ (be.be 1 (length password % 2 ^ 8)
              ++ (user
                  ++ (replicate (max_user_pass_length - length user) 0
                      ++ (password ++ replicate (max_user_pass_length - length password) 0)))))
  append_method_to_wire (token t) buf = buf ++ (be.be 2 (length t % 2 ^ 16) ++ t)
  append_method_to_wire (versioned_token version t) buf =
      buf
      ++ (be.be 1 version.major ++ (be.be 1 version.minor ++ (be.be 2 (length t % 2 ^ 16) ++ t)))
  append_method_to_wire (custom_callback bytes) buf =
      buf ++ (be.be 2 (length bytes % 2 ^ 16) ++ bytes)

  pub append_to_wire : AuthRequest → List ℕ → List ℕ
  append_to_wire r buf =
      append_method_to_wire r.auth_method (buf ++ be.be 1 (kind_to_u8 (kind r.auth_method)))
