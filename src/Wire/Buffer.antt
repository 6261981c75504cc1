-- ===== src/Wire/Buffer.antt =====
-- lightway-core/src/borrowed_bytesmut.rs: a cursor over a buffer that is advanced only on commit, and
-- decoders over it. `BytesMut` is the list of its bytes. A failed assertion is `panic`.
use lightway.Base.{
  ℕ, ◌+◌, ◌-◌, Bool, true, false, ◌||◌, not, List, ltb, leb, ◌==◌, if◌then◌else◌, length, take,
  drop,
}
use lightway.Wire.BigEndian.{BigEndian}

-- `FromWireError` of lightway-core/src/wire.rs.
pub data FromWireError : Type 0 where
  insufficient_data : FromWireError
  invalid_magic_number : ℕ → ℕ → FromWireError
  invalid_enum_encoding unknown_frame_type invalid_string_encoding field_too_large : FromWireError
  invalid_protocol_version : ℕ → ℕ → FromWireError
  invalid_bool invalid_express_data_path invalid_express_data : FromWireError
  replayed_express_data : FromWireError

pub record BorrowedBytesMut : Type 0 where
  pub cursor : ℕ
  pub bytes : List ℕ
  pub committed : Bool

pub data Outcome (A : Type 0) : Type 0 where
  ok : A → BorrowedBytesMut → Outcome A
  err : FromWireError → BorrowedBytesMut → Outcome A
  panic : Outcome A

-- `From<&mut BytesMut>`.
unfoldable pub from : List ℕ → BorrowedBytesMut
from bytes = record { cursor = 0; bytes = bytes; committed = false }

unfoldable pub len : BorrowedBytesMut → ℕ
len b = length b.bytes - b.cursor

-- `Buf::chunk` and `Deref::deref`.
unfoldable pub chunk : BorrowedBytesMut → List ℕ
chunk b = drop b.cursor b.bytes

abbrev pub Decoder : Type 0 → Type 0
Decoder A = BorrowedBytesMut → Outcome A

abbrev pub return : {A : Type 0} → A → Decoder A
return a b = ok a b

abbrev pub fail : {A : Type 0} → FromWireError → Decoder A
fail e b = err e b

infixl 5 ◌>>=◌ ◌>>◌
unfoldable pub ◌>>=◌ : {A B : Type 0} → Decoder A → (A → Decoder B) → Decoder B
◌>>=◌ m f b = elim (m b) [ ok a b' ↦ f a b' | err e b' ↦ err e b' | panic ↦ panic ]

unfoldable pub ◌>>◌ : {B : Type 0} → Decoder (Unit {0}) → Decoder B → Decoder B
unfolding ◌>>=◌
m >> k = m >>= λ _. k

-- `if test { return Err(e) }`.
unfoldable pub fail_if : Bool → FromWireError → Decoder (Unit {0})
fail_if test e b = if test then err e b else ok tt b

-- `if buf.len() < n { return Err(InsufficientData) }`.
unfoldable pub require_len : ℕ → Decoder (Unit {0})
unfolding fail_if
require_len n b = fail_if (ltb (len b) n) insufficient_data b

unfoldable pub advance : ℕ → Decoder (Unit {0})
advance cnt b =
    if b.committed
    then panic
    else if leb cnt (len b)
    then ok tt (record b { cursor = b.cursor + cnt })
    else panic

-- `buf[..cnt].to_vec()`, which panics beyond the end.
unfoldable pub peek : ℕ → Decoder (List ℕ)
peek cnt b = if leb cnt (len b) then ok (take cnt (chunk b)) b else panic

-- `Buf::copy_to_bytes` and `Buf::copy_to_slice` of `cnt` bytes.
unfoldable pub copy : ℕ → Decoder (List ℕ)
copy cnt = do bytes ← peek cnt; advance cnt; return bytes

unfoldable pub commit_and_split_to : ℕ → Decoder (List ℕ)
commit_and_split_to cnt b =
    let rest = drop b.cursor b.bytes in
    if b.committed
    then panic
    else if leb cnt (length rest)
    then ok (take cnt rest) (record { cursor = 0; bytes = drop cnt rest; committed = true })
    else panic

-- What is left in the underlying buffer; `none` of it where the assertion fails.
unfoldable pub commit : {A : Type 0} → A → Decoder A
commit a b =
    if not b.committed || b.cursor == 0
    then ok a (record b { cursor = 0; bytes = drop b.cursor b.bytes })
    else panic

module _ ⦃be : BigEndian⦄ where
  -- `Buf::get_u8`, `get_u16` and `get_u64` are `get 1`, `get 2` and `get 8`.
  unfoldable pub get : ℕ → Decoder ℕ
  get width = do bytes ← copy width; return (be.of_be bytes)
