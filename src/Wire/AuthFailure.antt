-- ===== src/Wire/AuthFailure.antt =====
-- lightway-core/src/wire/auth_failure.rs
use lightway.Base.{ℕ, ◌≡◌, refl, List, [], ◌++◌, replicate, length-append, arith}
use lightway.Wire.Codec.{
  BorrowedBytesMut, Decoder, return, ◌>>◌, require_len, advance, Shows, Decodes, Decodes-return,
  Decodes-require, Decodes-advance, IsSafe, Reads, safe_return, IsSafe-require, IsSafe-advance,
}

pub data AuthFailure : Type 0 where
  auth_failure : AuthFailure

abbrev pub wire_size : ℕ
wire_size = 52

pub try_from_wire : Decoder AuthFailure
try_from_wire = do require_len wire_size; advance wire_size; return auth_failure

pub append_to_wire : AuthFailure → List ℕ → List ℕ
append_to_wire auth_failure buf = buf ++ replicate wire_size 0

pub append_to_wire_lem :
    (a : AuthFailure) (buf : List ℕ) → append_to_wire a buf ≡ buf ++ append_to_wire a []
unfolding append_to_wire
append_to_wire_lem auth_failure buf = refl

pub decodes :
    (a : AuthFailure) (b : BorrowedBytesMut) (rest : List ℕ)
    → Shows b (append_to_wire a [] ++ rest)
    → Decodes (try_from_wire b) a rest
unfolding try_from_wire append_to_wire
decodes auth_failure b rest s =
    let padding : List ℕ = replicate wire_size 0 in
    Decodes-require _ wire_size _ s (omega (arith, length-append padding rest))
      (Decodes-advance _ wire_size padding rest s refl λ s1. Decodes-return s1)

pub try_from_wire-IsSafe :
    (bytes : List ℕ) (start : ℕ) (b : BorrowedBytesMut)
    → Reads bytes start b
    → IsSafe bytes start (try_from_wire b)
unfolding try_from_wire
try_from_wire-IsSafe bytes start b r =
    IsSafe-require r _ wire_size λ h. IsSafe-advance r _ wire_size h λ r1. safe_return r1
