-- ===== src/Wire/ServerConfig.antt =====
-- lightway-core/src/wire/server_config.rs
use lightway.Base.{
  ℕ, ◌-◌, ◌%◌, ◌^◌, ◌≤◌, ◌<◌, ◌≡◌, refl, List, [], ◌++◌, ltb, length, length-append, arith,
}
use lightway.Wire.Codec.{
  BigEndian, BorrowedBytesMut, Decoder, field_too_large, return, ◌>>=◌, ◌>>◌, fail_if, require_len,
  get, commit_and_split_to, Shows, Decodes, Decodes-fail_if, Decodes-require, Decodes-get,
  Decodes-split, IsSafe, Reads, IsSafe-fail_if, IsSafe-require, IsSafe-get, IsSafe-split,
  append_assoc, mod-eq_of_lt,
}

pub record ServerConfig : Type 0 where
  pub payload : List ℕ

abbrev pub max_server_config_bytes : ℕ
max_server_config_bytes = 1350 - 2

abbrev pub IsEncodable : ServerConfig → Type 0
IsEncodable d = length d.payload ≤ max_server_config_bytes

module _ ⦃be : BigEndian⦄ where
  pub try_from_wire : Decoder ServerConfig
  try_from_wire = do
    require_len 2
    data_len ← get 2
    fail_if (ltb max_server_config_bytes data_len) field_too_large
    require_len data_len
    bytes ← commit_and_split_to data_len
    return (record { payload = bytes })

  pub append_to_wire : ServerConfig → List ℕ → List ℕ
  append_to_wire d buf = buf ++ (be.be 2 (length d.payload % 2 ^ 16) ++ d.payload)

  pub append_to_wire_lem :
      (d : ServerConfig) (buf : List ℕ) → append_to_wire d buf ≡ buf ++ append_to_wire d []
  unfolding append_to_wire
  append_to_wire_lem d buf = refl

  layout :
      (d : ServerConfig) (rest : List ℕ)
      → IsEncodable d
      → append_to_wire d [] ++ rest ≡ be.be 2 (length d.payload) ++ (d.payload ++ rest)
  unfolding append_to_wire
  layout d rest short =
      let small : length d.payload < 2 ^ 16 = omega arith in simp (append_assoc, mod-eq_of_lt small)

  pub decodes :
      (d : ServerConfig) (b : BorrowedBytesMut) (rest : List ℕ)
      → IsEncodable d
      → Shows b (append_to_wire d [] ++ rest)
      → Decodes (try_from_wire b) d rest
  unfolding try_from_wire
  decodes d b rest short s =
      let n = length d.payload in
      let shown = rw (layout d rest short) at s in
      Decodes-require _ 2 _ shown (omega (arith, length-append {0}, be.length-be)) (
        Decodes-get _ 2 n _ shown (omega arith) λ s1. Decodes-fail_if _ _ _ (ground arith) (
          Decodes-require _ n _ s1 (omega (arith, length-append d.payload rest))
            (Decodes-split _ n d.payload s1 refl refl)))

  pub try_from_wire-IsSafe :
      (bytes : List ℕ) (start : ℕ) (b : BorrowedBytesMut)
      → Reads bytes start b
      → IsSafe bytes start (try_from_wire b)
  unfolding try_from_wire
  try_from_wire-IsSafe bytes start b r = IsSafe-require r _ 2 λ h.
      IsSafe-get r _ 2 h
        λ n r1. IsSafe-fail_if r1 _ _ _ λ _. IsSafe-require r1 _ n λ h1. IsSafe-split r1 _ n h1
