-- ===== src/Wire/ExpresslaneConfig.antt =====
-- lightway-core/src/wire/expresslane_config.rs
use lightway.Base.{
  ℕ, ◌+◌, ◌/◌, ◌%◌, ◌^◌, ◌<◌, ◌≡◌, refl, Bool, false, List, [], ◌++◌, ◌==◌, if◌then◌else◌, length,
  replicate, length-append, arith,
}
use lightway.Wire.Codec.{
  BigEndian, BorrowedBytesMut, Decoder, return, ◌>>=◌, ◌>>◌, require_len, copy, get, Shows, Decodes,
  Decodes-return, Decodes-require, Decodes-get, Decodes-copy, IsSafe, Reads, len-skip, safe_return,
  IsSafe-require, IsSafe-get, IsSafe-copy, append_assoc,
}
use lightway.Versions.{ExpresslaneVersion, unknown, from_u8, to_u8}
use lightway.Versions.Laws.{from_u8-to_u8}

-- The 32 bytes of a key.
abbrev pub key_size : ℕ
key_size = 32

pub record ExpresslaneConfig : Type 0 where
  pub version : ExpresslaneVersion
  pub enabled : Bool
  pub ack : Bool
  pub counter : ℕ
  pub key : List ℕ

pub default : ExpresslaneConfig
default = record {
  version = unknown;
  enabled = false;
  ack = false;
  counter = 0;
  key = replicate key_size 0;
}

-- The bit field of the header byte, most significant bit first: enabled, ack, six unused bits.
pub header : Bool → Bool → ℕ
header enabled ack = (if enabled then 128 else 0) + (if ack then 64 else 0)

pub header_enabled : ℕ → Bool
header_enabled byte = byte / 128 % 2 == 1

pub header_ack : ℕ → Bool
header_ack byte = byte / 64 % 2 == 1

abbrev pub wire_overhead : ℕ
wire_overhead = 44

abbrev pub IsEncodable : ExpresslaneConfig → Type 0
IsEncodable c = (c.counter < 2 ^ 64) × (length c.key ≡ key_size)

header_lem :
    (e a : Bool)
    → (header_enabled (header e a) ≡ e) × (header_ack (header e a) ≡ a) × (header e a < 256)
unfolding header header_enabled header_ack
header_lem e a = ground arith

to_u8-lt : (v : ExpresslaneVersion) → to_u8 v < 256
unfolding to_u8
to_u8-lt v = ground arith

module _ ⦃be : BigEndian⦄ where
  pub try_from_wire : Decoder ExpresslaneConfig
  try_from_wire = do
    require_len wire_overhead
    version ← get 1
    header_byte ← get 1
    reserved ← get 2
    counter ← get 8
    key ← copy key_size
    return (record {
      version = from_u8 version;
      enabled = header_enabled header_byte;
      ack = header_ack header_byte;
      counter = counter;
      key = key;
    })

  pub append_to_wire : ExpresslaneConfig → List ℕ → List ℕ
  append_to_wire c buf =
      buf
      ++ (be.be 1 (to_u8 c.version)
          ++ (be.be 1 (header c.enabled c.ack) ++ (be.be 2 0 ++ (be.be 8 c.counter ++ c.key))))

  pub append_to_wire_lem :
      (c : ExpresslaneConfig) (buf : List ℕ) → append_to_wire c buf ≡ buf ++ append_to_wire c []
  unfolding append_to_wire
  append_to_wire_lem c buf = refl

  layout :
      (c : ExpresslaneConfig) (rest : List ℕ)
      → append_to_wire c [] ++ rest
        ≡ be.be 1 (to_u8 c.version)
          ++ (be.be 1 (header c.enabled c.ack)
              ++ (be.be 2 0 ++ (be.be 8 c.counter ++ (c.key ++ rest))))
  unfolding append_to_wire
  layout c rest = simp append_assoc

  pub decodes :
      (c : ExpresslaneConfig) (b : BorrowedBytesMut) (rest : List ℕ)
      → IsEncodable c
      → Shows b (append_to_wire c [] ++ rest)
      → Decodes (try_from_wire b) c rest
  unfolding try_from_wire
  decodes c b rest (small, whole) s =
      let shown = rw (layout c rest) at s in
      let (enabled, ack, byte) = header_lem c.enabled c.ack in
      Decodes-require _ 44 _ shown (omega (arith, length-append {0}, be.length-be)) (
        Decodes-get _ 1 (to_u8 c.version) _ shown (to_u8-lt c.version) λ s1.
          Decodes-get _ 1 (header c.enabled c.ack) _ s1 byte λ s2.
            Decodes-get _ 2 0 _ s2 (omega arith) λ s3. Decodes-get _ 8 c.counter _ s3 small λ s4.
              Decodes-copy _ key_size c.key rest s4 whole
                λ s5. rw (from_u8-to_u8, enabled, ack) (Decodes-return s5))

  pub try_from_wire-IsSafe :
      (bytes : List ℕ) (start : ℕ) (b : BorrowedBytesMut)
      → Reads bytes start b
      → IsSafe bytes start (try_from_wire b)
  unfolding try_from_wire
  try_from_wire-IsSafe bytes start b r = IsSafe-require r _ 44 λ h.
      IsSafe-get r _ 1 (omega arith) λ version r1.
        IsSafe-get r1 _ 1 (omega (arith, len-skip)) λ byte r2.
          IsSafe-get r2 _ 2 (omega (arith, len-skip)) λ reserved r3.
            IsSafe-get r3 _ 8 (omega (arith, len-skip)) λ counter r4.
              IsSafe-copy r4 _ key_size (omega (arith, len-skip)) λ key r5. safe_return r5
