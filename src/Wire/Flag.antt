-- ===== src/Wire/Flag.antt =====
-- The byte that lightway-core/src/wire/encoding_request.rs and encoding_response.rs read as a Boolean.
use lightway.Base.{ℕ, Bool, true, false, List, ◌==◌, if◌then◌else◌, Bool-cases, inl, inr}
use lightway.Wire.Codec.{
  BorrowedBytesMut, Decoder, invalid_bool, return, fail, ◌>>=◌, Decodes, IsSafe, Reads,
}

-- `match enable { 0 => .., 1 => .., _ => Err(InvalidBool) }`.
pub flag_from : ℕ → Decoder Bool
flag_from byte =
    if byte == 0 then return false else if byte == 1 then return true else fail invalid_bool

module _ {A : Type 0} (f : Bool → Decoder A) where
  pub Decodes-flag :
      {b : BorrowedBytesMut} {a : A} {rest : List ℕ} (enable : Bool)
      → Decodes (f enable b) a rest
      → Decodes ((flag_from (if enable then 1 else 0) >>= f) b) a rest
  unfolding flag_from ◌>>=◌
  Decodes-flag true d = d
  Decodes-flag false d = d

pub IsSafe-flag :
    {A : Type 0} {bytes : List ℕ} {start : ℕ} {b : BorrowedBytesMut}
    → Reads bytes start b
    → (f : Bool → Decoder A) (byte : ℕ) → ((enable : Bool) → IsSafe bytes start (f enable b))
    → IsSafe bytes start ((flag_from byte >>= f) b)
unfolding flag_from ◌>>=◌
IsSafe-flag r f byte next = elim (Bool-cases (byte == 0)) [
  | inl is_zero ↦ rw is_zero (next false)
  | inr more ↦ elim (Bool-cases (byte == 1)) [
    | inl is_one ↦ rw (more, is_one) (next true)
    | inr other ↦ rw (more, other) r.same
  ]
]
