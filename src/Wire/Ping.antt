-- ===== src/Wire/Ping.antt =====
-- lightway-core/src/wire/ping.rs
use lightway.Base.{ℕ, ◌%◌, ◌^◌, ◌<◌, ◌≡◌, refl, List, [], ◌++◌, length, length-append, arith}
use lightway.Wire.Codec.{
  BigEndian, BorrowedBytesMut, Decoder, return, ◌>>=◌, ◌>>◌, require_len, copy, get, Shows, Decodes,
  Decodes-return, Decodes-require, Decodes-get, Decodes-copy, IsSafe, Reads, len-skip, safe_return,
  IsSafe-require, IsSafe-get, IsSafe-copy, append_assoc, mod-eq_of_lt,
}

pub record Ping : Type 0 where
  pub id : ℕ
  pub payload : List ℕ

abbrev pub wire_overhead : ℕ
wire_overhead = 4

abbrev pub keepalive_id : ℕ
keepalive_id = 0

abbrev pub IsEncodable : Ping → Type 0
IsEncodable p = (p.id < 2 ^ 16) × (length p.payload < 2 ^ 16)

module _ ⦃be : BigEndian⦄ where
  pub try_from_wire : Decoder Ping
  try_from_wire = do
    require_len wire_overhead
    id ← get 2
    payload_length ← get 2
    require_len payload_length
    payload ← copy payload_length
    return (record { id = id; payload = payload })

  pub append_to_wire : Ping → List ℕ → List ℕ
  append_to_wire p buf = buf ++ (be.be 2 p.id ++ (be.be 2 (length p.payload % 2 ^ 16) ++ p.payload))

  pub append_to_wire_lem :
      (p : Ping) (buf : List ℕ) → append_to_wire p buf ≡ buf ++ append_to_wire p []
  unfolding append_to_wire
  append_to_wire_lem p buf = refl

  layout :
      (p : Ping) (rest : List ℕ)
      → IsEncodable p
      → append_to_wire p [] ++ rest
        ≡ be.be 2 p.id ++ (be.be 2 (length p.payload) ++ (p.payload ++ rest))
  unfolding append_to_wire
  layout p rest (_, short) = simp (append_assoc, mod-eq_of_lt short)

  pub decodes :
      (p : Ping) (b : BorrowedBytesMut) (rest : List ℕ)
      → IsEncodable p
      → Shows b (append_to_wire p [] ++ rest)
      → Decodes (try_from_wire b) p rest
  unfolding try_from_wire
  decodes p b rest (id_small, short) s =
      let n = length p.payload in
      let shown = rw (layout p rest (id_small, short)) at s in
      Decodes-require _ 4 _ shown (omega (arith, length-append {0}, be.length-be)) (
        Decodes-get _ 2 p.id _ shown id_small λ s1. Decodes-get _ 2 n _ s1 short λ s2.
          Decodes-require _ n _ s2 (omega (arith, length-append p.payload rest))
            (Decodes-copy _ n p.payload rest s2 refl λ s3. Decodes-return s3))

  pub try_from_wire-IsSafe :
      (bytes : List ℕ) (start : ℕ) (b : BorrowedBytesMut)
      → Reads bytes start b
      → IsSafe bytes start (try_from_wire b)
  unfolding try_from_wire
  try_from_wire-IsSafe bytes start b r = IsSafe-require r _ 4 λ h.
      IsSafe-get r _ 2 (omega arith) λ id r1.
        IsSafe-get r1 _ 2 (omega (arith, len-skip 2 b))
          λ n r2. IsSafe-require r2 _ n λ h2. IsSafe-copy r2 _ n h2 λ payload r3. safe_return r3
