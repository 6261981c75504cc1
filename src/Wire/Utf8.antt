-- ===== src/Wire/Utf8.antt =====
-- UTF-8 strings: `String::from_utf8` as the decoders of lightway-core/src/wire/ use it. A `String` is
-- the list of its bytes.
use lightway.Base.{
  ℕ, zero, suc, ◌≡◌, Bool, true, false, not, ◌&&◌, List, [], ◌∷◌, ltb, leb, if◌then◌else◌, Option,
  none, some, Bool-cases, inl, inr,
}
use lightway.Wire.Codec.{
  BorrowedBytesMut, ok, err, Decoder, invalid_string_encoding, return, fail_if, ◌>>=◌, ◌>>◌,
  Decodes, IsSafe, Reads,
}

-- What a leading byte asks for: the number of continuation bytes, and the range of the first of them.
pub record Sequence : Type 0 where
  pub more : ℕ
  pub low : ℕ
  pub high : ℕ

abbrev within : ℕ → ℕ → ℕ → Bool
within low high b = leb low b && leb b high

leading : ℕ → Option Sequence
leading b =
    if ltb b 0x80
    then some (record { more = 0; low = 0; high = 0 })
    else if within 0xc2 0xdf b
    then some (record { more = 1; low = 0x80; high = 0xbf })
    else if within 0xe0 0xe0 b
    then some (record { more = 2; low = 0xa0; high = 0xbf })
    else if within 0xed 0xed b
    then some (record { more = 2; low = 0x80; high = 0x9f })
    else if within 0xe1 0xef b
    then some (record { more = 2; low = 0x80; high = 0xbf })
    else if within 0xf0 0xf0 b
    then some (record { more = 3; low = 0x90; high = 0xbf })
    else if within 0xf1 0xf3 b
    then some (record { more = 3; low = 0x80; high = 0xbf })
    else if within 0xf4 0xf4 b
    then some (record { more = 3; low = 0x80; high = 0x8f })
    else none

-- The bytes still to come of a sequence, then whole sequences.
continues : ℕ → ℕ → ℕ → List ℕ → Bool
unfolding leading
continues zero low high [] = true
continues zero low high (b ∷ bs) = elim (leading b) [
  | none ↦ false
  | some s ↦ continues s.more s.low s.high bs
]
continues (suc more) low high [] = false
continues (suc more) low high (b ∷ bs) = within low high b && continues more 0x80 0xbf bs

unfoldable pub is_utf8 : List ℕ → Bool
unfolding continues
is_utf8 bytes = continues 0 0 0 bytes

unfoldable pub from_utf8 : List ℕ → Decoder (List ℕ)
from_utf8 bytes = fail_if (not (is_utf8 bytes)) invalid_string_encoding >> return bytes

module _ (bytes : List ℕ) (b : BorrowedBytesMut) where
  pub from_utf8_valid : is_utf8 bytes ≡ true → from_utf8 bytes b ≡ ok bytes b
  unfolding from_utf8 ◌>>=◌ ◌>>◌ fail_if
  from_utf8_valid h = rw h

  pub from_utf8_invalid : is_utf8 bytes ≡ false → from_utf8 bytes b ≡ err invalid_string_encoding b
  unfolding from_utf8 ◌>>=◌ ◌>>◌ fail_if
  from_utf8_invalid h = rw h

pub Decodes-utf8 :
    {A : Type 0} {b : BorrowedBytesMut} {a : A} {rest : List ℕ} (f : List ℕ → Decoder A)
    (bytes : List ℕ)
    → is_utf8 bytes ≡ true
    → Decodes (f bytes b) a rest
    → Decodes ((from_utf8 bytes >>= f) b) a rest
unfolding from_utf8 ◌>>=◌ ◌>>◌ fail_if
Decodes-utf8 f bytes valid d = rw valid d

pub IsSafe-utf8 :
    {A : Type 0} {text : List ℕ} {start : ℕ} {b : BorrowedBytesMut}
    → Reads text start b
    → (f : List ℕ → Decoder A) (bytes : List ℕ) → IsSafe text start (f bytes b)
    → IsSafe text start ((from_utf8 bytes >>= f) b)
unfolding from_utf8 ◌>>=◌ ◌>>◌ fail_if
IsSafe-utf8 r f bytes next = elim (Bool-cases (is_utf8 bytes)) [
  | inl valid ↦ rw valid next
  | inr bad ↦ rw bad r.same
]
