-- ===== src/Wire/Data.antt =====
-- lightway-core/src/wire/data.rs
use lightway.Base.{ℕ, ◌-◌, ◌%◌, ◌^◌, ◌<◌, ◌≡◌, refl, List, [], ◌++◌, length, length-append, arith}
use lightway.Wire.Codec.{
  BigEndian, BorrowedBytesMut, Decoder, return, ◌>>=◌, ◌>>◌, require_len, get, commit_and_split_to,
  Shows, Decodes, Decodes-require, Decodes-get, Decodes-split, IsSafe, Reads, IsSafe-require,
  IsSafe-get, IsSafe-split, append_assoc, mod-eq_of_lt,
}

pub record Data : Type 0 where
  pub payload : List ℕ

abbrev pub wire_overhead : ℕ
wire_overhead = 2

-- `FrameKind` takes one byte.
pub maximum_packet_size_for_plpmtu : ℕ → ℕ
maximum_packet_size_for_plpmtu plpmtu = plpmtu - wire_overhead - 1

abbrev pub IsEncodable : Data → Type 0
IsEncodable d = length d.payload < 2 ^ 16

module _ ⦃be : BigEndian⦄ where
  pub try_from_wire : Decoder Data
  try_from_wire = do
    require_len wire_overhead
    data_len ← get 2
    require_len data_len
    bytes ← commit_and_split_to data_len
    return (record { payload = bytes })

  pub append_to_wire : Data → List ℕ → List ℕ
  append_to_wire d buf = buf ++ (be.be 2 (length d.payload % 2 ^ 16) ++ d.payload)

  pub append_to_wire_lem :
      (d : Data) (buf : List ℕ) → append_to_wire d buf ≡ buf ++ append_to_wire d []
  unfolding append_to_wire
  append_to_wire_lem d buf = refl

  layout :
      (d : Data) (rest : List ℕ)
      → IsEncodable d
      → append_to_wire d [] ++ rest ≡ be.be 2 (length d.payload) ++ (d.payload ++ rest)
  unfolding append_to_wire
  layout d rest short = simp (append_assoc, mod-eq_of_lt short)

  pub decodes :
      (d : Data) (b : BorrowedBytesMut) (rest : List ℕ)
      → IsEncodable d
      → Shows b (append_to_wire d [] ++ rest)
      → Decodes (try_from_wire b) d rest
  unfolding try_from_wire
  decodes d b rest short s =
      let n = length d.payload in
      let shown = rw (layout d rest short) at s in
      Decodes-require _ 2 _ shown (omega (arith, length-append {0}, be.length-be)) (
        Decodes-get _ 2 n _ shown short λ s1.
          Decodes-require _ n _ s1 (omega (arith, length-append d.payload rest))
            (Decodes-split _ n d.payload s1 refl refl))

  pub try_from_wire-IsSafe :
      (bytes : List ℕ) (start : ℕ) (b : BorrowedBytesMut)
      → Reads bytes start b
      → IsSafe bytes start (try_from_wire b)
  unfolding try_from_wire
  try_from_wire-IsSafe bytes start b r =
      IsSafe-require r _ 2
        λ h. IsSafe-get r _ 2 h λ n r1. IsSafe-require r1 _ n λ h1. IsSafe-split r1 _ n h1
