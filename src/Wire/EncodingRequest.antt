-- ===== src/Wire/EncodingRequest.antt =====
-- lightway-core/src/wire/encoding_request.rs
use lightway.Base.{
  ℕ, ◌^◌, ◌<◌, ◌≡◌, refl, Bool, List, [], ◌++◌, if◌then◌else◌, length-append, arith,
}
use lightway.Wire.Codec.{
  BigEndian, BorrowedBytesMut, Decoder, return, ◌>>=◌, ◌>>◌, require_len, get, Shows, Decodes,
  Decodes-return, Decodes-require, Decodes-get, IsSafe, Reads, len-skip, safe_return,
  IsSafe-require, IsSafe-get, append_assoc,
}
use lightway.Wire.Flag.{flag_from, Decodes-flag, IsSafe-flag}

pub record EncodingRequest : Type 0 where
  pub id : ℕ
  pub enable : Bool

abbrev pub wire_size : ℕ
wire_size = 9

abbrev pub IsEncodable : EncodingRequest → Type 0
IsEncodable e = e.id < 2 ^ 64

module _ ⦃be : BigEndian⦄ where
  pub try_from_wire : Decoder EncodingRequest
  try_from_wire = do
    require_len wire_size
    id ← get 8
    byte ← get 1
    enable ← flag_from byte
    return (record { id = id; enable = enable })

  pub append_to_wire : EncodingRequest → List ℕ → List ℕ
  append_to_wire e buf =
      let encoding_enabled = if e.enable then 1 else 0 in
      buf ++ (be.be 8 e.id ++ be.be 1 encoding_enabled)

  pub append_to_wire_lem :
      (e : EncodingRequest) (buf : List ℕ) → append_to_wire e buf ≡ buf ++ append_to_wire e []
  unfolding append_to_wire
  append_to_wire_lem e buf = refl

  layout :
      (e : EncodingRequest) (rest : List ℕ)
      → append_to_wire e [] ++ rest ≡ be.be 8 e.id ++ (be.be 1 (if e.enable then 1 else 0) ++ rest)
  unfolding append_to_wire
  layout e rest = simp append_assoc

  pub decodes :
      (e : EncodingRequest) (b : BorrowedBytesMut) (rest : List ℕ)
      → IsEncodable e
      → Shows b (append_to_wire e [] ++ rest)
      → Decodes (try_from_wire b) e rest
  unfolding try_from_wire
  decodes e b rest small s =
      let shown = rw (layout e rest) at s in
      Decodes-require _ 9 _ shown (omega (arith, length-append {0}, be.length-be)) (
        Decodes-get _ 8 e.id _ shown small λ s1.
          Decodes-get _ 1 (if e.enable then 1 else 0) _ s1 (ground arith)
            λ s2. Decodes-flag _ e.enable (Decodes-return s2))

  pub try_from_wire-IsSafe :
      (bytes : List ℕ) (start : ℕ) (b : BorrowedBytesMut)
      → Reads bytes start b
      → IsSafe bytes start (try_from_wire b)
  unfolding try_from_wire
  try_from_wire-IsSafe bytes start b r = IsSafe-require r _ 9 λ h.
      IsSafe-get r _ 8 (omega arith) λ id r1.
        IsSafe-get r1 _ 1 (omega (arith, len-skip 8 b))
          λ byte r2. IsSafe-flag r2 _ byte λ enable. safe_return r2
