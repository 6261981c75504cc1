-- ===== src/Wire/DataFrag.antt =====
-- lightway-core/src/wire/data_frag.rs
use lightway.Base.{
  ℕ, ◌+◌, ◌-◌, ◌*◌, ◌/◌, ◌%◌, ◌^◌, ◌<◌, ◌≡◌, refl, Bool, not, List, [], ◌++◌, ◌==◌, if◌then◌else◌,
  length, length-append, arith,
}
use lightway.Wire.Codec.{
  BigEndian, BorrowedBytesMut, Decoder, return, ◌>>=◌, ◌>>◌, require_len, get, commit_and_split_to,
  Shows, Decodes, Decodes-require, Decodes-get, Decodes-split, IsSafe, Reads, len-skip,
  IsSafe-require, IsSafe-get, IsSafe-split, append_assoc, mod-eq_of_lt,
}
use Prim.Native.Nat.{bit_and, bit_or}
use lightway.Base.Bits.{agree_below, agree_below-eq, zero-bit_or}

pub record DataFrag : Type 0 where
  pub id : ℕ
  pub offset : ℕ
  pub more_fragments : Bool
  pub payload : List ℕ

abbrev pub more_fragments_mask : ℕ
more_fragments_mask = 0x2000

abbrev pub offset_mask : ℕ
offset_mask = 0x1fff

abbrev pub offset_shift : ℕ
offset_shift = 3

-- `OffsetAndMoreFragments`; `offset as u16 >> OFFSET_SHIFT`.
pub from_parts : ℕ → Bool → ℕ
from_parts offset more_fragments =
    let mf_bit = if more_fragments then more_fragments_mask else 0 in
    bit_or mf_bit (offset % 2 ^ 16 / 2 ^ offset_shift)

pub into_parts : ℕ → ℕ × Bool
into_parts word =
    let more_fragments = not (bit_and word more_fragments_mask == 0) in
    (bit_and word offset_mask * 2 ^ offset_shift % 2 ^ 16, more_fragments)

abbrev pub wire_overhead : ℕ
wire_overhead = 6

-- `size &= !((1 << OFFSET_SHIFT) - 1)` rounds down to a multiple of 8.
pub maximum_packet_size_for_plpmtu : ℕ → ℕ
maximum_packet_size_for_plpmtu plpmtu =
    let size = plpmtu - wire_overhead - 1 in size / 2 ^ offset_shift * 2 ^ offset_shift

abbrev pub start_offset : DataFrag → ℕ
start_offset f = f.offset

abbrev pub end_offset : DataFrag → ℕ
end_offset f = f.offset + length f.payload

abbrev pub IsEncodable : DataFrag → Type 0
IsEncodable f =
    (f.id < 2 ^ 16) × (f.offset < 2 ^ 16) × (f.offset % 8 ≡ 0) × (length f.payload < 2 ^ 16)

low_part : (x : ℕ) → x < 0x2000 → bit_and x offset_mask ≡ x
unfolding agree_below
low_part = agree_below-eq (λ x. bit_and x offset_mask) (λ x. x) 0x2000 refl

low_flag : (x : ℕ) → x < 0x2000 → bit_and x more_fragments_mask ≡ 0
unfolding agree_below
low_flag = agree_below-eq (λ x. bit_and x more_fragments_mask) (λ x. 0) 0x2000 refl

high_part : (x : ℕ) → x < 0x2000 → bit_and (bit_or more_fragments_mask x) offset_mask ≡ x
unfolding agree_below
high_part =
    agree_below-eq (λ x. bit_and (bit_or more_fragments_mask x) offset_mask) (λ x. x) 0x2000 refl

high_flag :
    (x : ℕ) → x < 0x2000 → bit_and (bit_or more_fragments_mask x) more_fragments_mask ≡ 0x2000
unfolding agree_below
high_flag =
    agree_below-eq (λ x. bit_and (bit_or more_fragments_mask x) more_fragments_mask) (λ x. 0x2000)
      0x2000 refl

with_flag : (x : ℕ) → x < 0x2000 → bit_or more_fragments_mask x ≡ 0x2000 + x
unfolding agree_below
with_flag = agree_below-eq (λ x. bit_or more_fragments_mask x) (λ x. 0x2000 + x) 0x2000 refl

-- The 16-bit word of offset and flag is read back, for an offset of 16 bits in multiples of 8.
pub into_parts-from_parts :
    (offset : ℕ) (more : Bool)
    → offset < 2 ^ 16
    → offset % 8 ≡ 0
    → into_parts (from_parts offset more) ≡ (offset, more)
unfolding into_parts from_parts
into_parts-from_parts offset more small aligned =
    let x = offset % 2 ^ 16 / 2 ^ offset_shift in
    ground (arith, low_part x, low_flag x, high_part x, high_flag x, zero-bit_or x)

pub from_parts-lt : (offset : ℕ) (more : Bool) → from_parts offset more < 2 ^ 16
unfolding from_parts
from_parts-lt offset more =
    let x = offset % 2 ^ 16 / 2 ^ offset_shift in ground (arith, with_flag x, zero-bit_or x)

module _ ⦃be : BigEndian⦄ where
  pub try_from_wire : Decoder DataFrag
  try_from_wire = do
    require_len wire_overhead
    data_len ← get 2
    fragment_id ← get 2
    word ← get 2
    require_len data_len
    let parts = into_parts word
    bytes ← commit_and_split_to data_len
    return
        (record { id = fragment_id; offset = parts.0; more_fragments = parts.1; payload = bytes })

  pub append_to_wire : DataFrag → List ℕ → List ℕ
  append_to_wire f buf =
      buf
      ++ (be.be 2 (length f.payload % 2 ^ 16)
          ++ (be.be 2 f.id ++ (be.be 2 (from_parts f.offset f.more_fragments) ++ f.payload)))

  pub append_to_wire_lem :
      (f : DataFrag) (buf : List ℕ) → append_to_wire f buf ≡ buf ++ append_to_wire f []
  unfolding append_to_wire
  append_to_wire_lem f buf = refl

  layout :
      (f : DataFrag) (rest : List ℕ)
      → IsEncodable f
      → append_to_wire f [] ++ rest
        ≡ be.be 2 (length f.payload)
          ++ (be.be 2 f.id
              ++ (be.be 2 (from_parts f.offset f.more_fragments) ++ (f.payload ++ rest)))
  unfolding append_to_wire
  layout f rest (_, _, _, short) = simp (append_assoc, mod-eq_of_lt short)

  pub decodes :
      (f : DataFrag) (b : BorrowedBytesMut) (rest : List ℕ)
      → IsEncodable f
      → Shows b (append_to_wire f [] ++ rest)
      → Decodes (try_from_wire b) f rest
  unfolding try_from_wire
  decodes f b rest (small, fits, aligned, short) s =
      let n = length f.payload in
      let word = from_parts f.offset f.more_fragments in
      let shown = rw (layout f rest (small, fits, aligned, short)) at s in
      let parts = into_parts-from_parts f.offset f.more_fragments fits aligned in
      Decodes-require _ 6 _ shown (omega (arith, length-append {0}, be.length-be)) (
        Decodes-get _ 2 n _ shown short λ s1. Decodes-get _ 2 f.id _ s1 small λ s2.
          Decodes-get _ 2 word _ s2 (from_parts-lt f.offset f.more_fragments) λ s3.
            Decodes-require _ n _ s3 (omega (arith, length-append f.payload rest))
              (Decodes-split _ n f.payload s3 refl (rw parts)))

  pub try_from_wire-IsSafe :
      (bytes : List ℕ) (start : ℕ) (b : BorrowedBytesMut)
      → Reads bytes start b
      → IsSafe bytes start (try_from_wire b)
  unfolding try_from_wire
  try_from_wire-IsSafe bytes start b r = IsSafe-require r _ 6 λ h.
      IsSafe-get r _ 2 (omega arith) λ n r1.
        IsSafe-get r1 _ 2 (omega (arith, len-skip 2 b)) λ id r2.
          IsSafe-get r2 _ 2 (omega (arith, len-skip))
            λ word r3. IsSafe-require r3 _ n λ h3. IsSafe-split r3 _ n h3
