-- ===== src/Wire/Header.antt =====
-- `SessionId` and `Header` of lightway-core/src/wire.rs. The header is read from the `BytesMut` itself,
-- not through a `BorrowedBytesMut`: the cursor is how far it has been read, and is never taken back.
use lightway.Base.{
  ℕ, ◌≡◌, ◌≢◌, refl, Bool, true, false, not, ◌&&◌, ◌||◌, List, [], ◌∷◌, ◌++◌, if◌then◌else◌, ◌==◌,
  length, length-append, replicate, some, arith,
}
use lightway.Wire.Codec.{
  BigEndian, BorrowedBytesMut, Outcome, ok, err, panic, Decoder, invalid_magic_number,
  invalid_protocol_version, return, ◌>>=◌, ◌>>◌, fail_if, require_len, copy, get, advance, chunk,
  Shows, Decodes, Decodes-return, Decodes-fail_if, Decodes-require, Decodes-get, Decodes-copy,
  Decodes-advance, IsSafe, Reads, len-skip, safe_return, IsSafe-fail_if, IsSafe-require, IsSafe-get,
  IsSafe-copy, IsSafe-advance, append_assoc,
}
use lightway.Wire.Buffer.{from}
use lightway.Wire.Reads.{from-Shows}
use lightway.Wire.AuthRequest.{or_fail}
use lightway.Wire.AuthRequest.RoundTrip.{Decodes-or_fail, version_small}
use lightway.Wire.AuthRequest.Safe.{IsSafe-or_fail}
use lightway.Versions.{Version, try_new}

-- The eight bytes of a `SessionId`.
abbrev pub empty : List ℕ
empty = replicate 8 0

abbrev pub rejected : List ℕ
rejected = replicate 8 0xff

same_bytes : List ℕ → List ℕ → Bool
same_bytes [] [] = true
same_bytes (x ∷ xs) (y ∷ ys) = x == y && same_bytes xs ys
same_bytes _ _ = false

pub is_reserved : List ℕ → Bool
unfolding same_bytes
is_reserved session = same_bytes session empty || same_bytes session rejected

pub record Header : Type 0 where
  pub version : Version
  pub aggressive_mode : Bool
  pub expresslane_data : Bool
  pub session : List ℕ

abbrev pub wire_size : ℕ
wire_size = 16

-- `as u8`, and `!= 0`.
abbrev pub bit_of : Bool → ℕ
bit_of b = if b then 1 else 0

abbrev pub is_set : ℕ → Bool
is_set byte = not (byte == 0)

abbrev pub IsEncodable : Header → Type 0
IsEncodable h = (try_new h.version.major h.version.minor ≡ some h.version) × (length h.session ≡ 8)

module _ ⦃be : BigEndian⦄ where
  pub read_header : Decoder Header
  read_header = do
    require_len wire_size
    he0 ← get 1
    he1 ← get 1
    fail_if (not (he0 == 0x48) || not (he1 == 0x65)) (invalid_magic_number he0 he1)
    major_version ← get 1
    minor_version ← get 1
    aggressive ← get 1
    expresslane ← get 1
    advance 2
    session ← copy 8
    version ←
        or_fail (try_new major_version minor_version)
          (invalid_protocol_version major_version minor_version)
    return (record {
      version = version;
      aggressive_mode = is_set aggressive;
      expresslane_data = is_set expresslane;
      session = session;
    })

  -- What is left of the `BytesMut` is the `chunk` of the outcome's buffer.
  pub try_from_wire : List ℕ → Outcome Header
  try_from_wire buf = read_header (from buf)

  pub append_to_wire : Header → List ℕ → List ℕ
  append_to_wire h buf =
      buf
      ++ (be.be 1 0x48
          ++ (be.be 1 0x65
              ++ (be.be 1 h.version.major
                  ++ (be.be 1 h.version.minor
                      ++ (be.be 1 (bit_of h.aggressive_mode)
                          ++ (be.be 1 (bit_of h.expresslane_data)
                              ++ (replicate 2 0 ++ h.session)))))))

  layout :
      (h : Header) (rest : List ℕ)
      → append_to_wire h [] ++ rest
        ≡ be.be 1 0x48
          ++ (be.be 1 0x65
              ++ (be.be 1 h.version.major
                  ++ (be.be 1 h.version.minor
                      ++ (be.be 1 (bit_of h.aggressive_mode)
                          ++ (be.be 1 (bit_of h.expresslane_data)
                              ++ (replicate 2 0 ++ (h.session ++ rest)))))))
  unfolding append_to_wire
  layout h rest = simp append_assoc

  is_set-bit_of : (b : Bool) → is_set (bit_of b) ≡ b
  is_set-bit_of true = refl
  is_set-bit_of false = refl

  decodes :
      (h : Header) (b : BorrowedBytesMut) (rest : List ℕ)
      → IsEncodable h
      → Shows b (append_to_wire h [] ++ rest)
      → Decodes (read_header b) h rest
  unfolding read_header
  decodes h b rest (known, eight) s =
      let v = h.version in
      let a = h.aggressive_mode in
      let e = h.expresslane_data in
      let (major, minor) = version_small v known in
      let shown = rw (layout h rest) at s in
      Decodes-require _ 16 _ shown (omega (arith, length-append {0}, be.length-be)) (
        Decodes-get _ 1 0x48 _ shown (omega arith) λ s1.
          Decodes-get _ 1 0x65 _ s1 (omega arith) λ s2. Decodes-fail_if _ _ _ refl (
            Decodes-get _ 1 v.major _ s2 major λ s3. Decodes-get _ 1 v.minor _ s3 minor λ s4.
              Decodes-get _ 1 (bit_of a) _ s4 (ground arith) λ s5.
                Decodes-get _ 1 (bit_of e) _ s5 (ground arith) λ s6.
                  Decodes-advance _ 2 (replicate 2 0) (h.session ++ rest) s6 refl λ s7.
                    Decodes-copy _ 8 h.session rest s7 eight λ s8.
                      Decodes-or_fail _ _ _ v known
                        (rw (is_set-bit_of a, is_set-bit_of e) (Decodes-return s8))))

  safe :
      (bytes : List ℕ) (start : ℕ) (b : BorrowedBytesMut)
      → Reads bytes start b
      → IsSafe bytes start (read_header b)
  unfolding read_header
  safe bytes start b r = IsSafe-require r _ 16 λ h. IsSafe-get r _ 1 (omega arith) λ he0 r1.
      IsSafe-get r1 _ 1 (omega (arith, len-skip)) λ he1 r2. IsSafe-fail_if r2 _ _ _ λ _.
        IsSafe-get r2 _ 1 (omega (arith, len-skip)) λ major r3.
          IsSafe-get r3 _ 1 (omega (arith, len-skip)) λ minor r4.
            IsSafe-get r4 _ 1 (omega (arith, len-skip)) λ x r5.
              IsSafe-get r5 _ 1 (omega (arith, len-skip)) λ y r6.
                IsSafe-advance r6 _ 2 (omega (arith, len-skip)) λ r7.
                  IsSafe-copy r7 _ 8 (omega (arith, len-skip)) λ session r8.
                    IsSafe-or_fail r8 (try_new major minor) _ _ λ version. safe_return r8

  -- A header of a supported version with eight bytes of session is read back from what it was written
  -- as, and what follows it is left to read.
  pub header_round_trip :
      (h : Header) (rest : List ℕ)
      → IsEncodable h
      → (b : BorrowedBytesMut) × (try_from_wire (append_to_wire h [] ++ rest) ≡ ok h b)
        × (chunk b ≡ rest)
  unfolding try_from_wire
  header_round_trip h rest k =
      let text = append_to_wire h [] ++ rest in
      let d = decodes h (from text) rest k (from-Shows text) in (d.after, d.result, d.leaves.unread)

  never_panics : (bytes : List ℕ) (r : Outcome Header) → IsSafe bytes 0 r → r ≢ panic
  never_panics bytes (ok h b) s e = cc
  never_panics bytes (err x b) s e = cc
  never_panics bytes panic s e = absurd s

  -- No bytes make the header's decoder fail an assertion.
  pub header_total : (buf : List ℕ) → try_from_wire buf ≢ panic
  unfolding try_from_wire from
  header_total buf e =
      never_panics buf (read_header (from buf))
        (safe buf 0 (from buf) (record { fresh = refl; same = refl; ahead = omega arith })) e
