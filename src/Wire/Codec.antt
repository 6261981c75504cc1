-- ===== src/Wire/Codec.antt =====
-- The names that every frame of lightway-core/src/wire/ uses.
pub use native.Mathlib.Nat.{mod-eq_of_lt}
pub use mathlib.Core.List.{append_assoc}
pub use lightway.Wire.BigEndian.{BigEndian}
pub use lightway.Wire.Buffer.{
  BorrowedBytesMut, Outcome, ok, err, panic, Decoder, FromWireError, insufficient_data,
  invalid_magic_number, invalid_enum_encoding, unknown_frame_type, invalid_string_encoding,
  field_too_large, invalid_protocol_version, invalid_bool, return, fail, len, advance, peek, copy,
  get, commit_and_split_to,
}
unfoldable pub use lightway.Wire.Buffer.{◌>>=◌, ◌>>◌, fail_if, require_len, chunk}
pub use lightway.Wire.Reads.{Shows, Decodes, skip}
pub use lightway.Wire.Steps.{
  Decodes-return, Decodes-fail_if, Decodes-require, Decodes-copy, Decodes-peek, Decodes-advance,
  Decodes-split, Decodes-get, Decodes-call, Decodes-map,
}
pub use lightway.Wire.Safety.{
  IsSafe, Reads, len-skip, safe_return, IsSafe-fail_if, IsSafe-require, IsSafe-peek, IsSafe-advance,
  IsSafe-copy, IsSafe-get, IsSafe-split, IsSafe-call, IsSafe-map,
}
