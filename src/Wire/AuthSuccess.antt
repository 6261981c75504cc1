-- ===== src/Wire/AuthSuccess.antt =====
-- lightway-core/src/wire/auth_success_with_config_ipv4.rs
use lightway.Base.{
  ℕ, ◌+◌, ◌-◌, ◌*◌, ◌≤◌, ◌≡◌, refl, sym, ap, ◌∙◌, true, ◌⊎◌, inl, inr, List, [], ◌∷◌, ◌++◌, ◌==◌,
  if◌then◌else◌, length, replicate, length-append, length-replicate, arith, Bool-cases,
}
use lightway.Wire.Codec.{
  BorrowedBytesMut, Decoder, FromWireError, invalid_string_encoding, chunk, return, ◌>>=◌, ◌>>◌,
  require_len, copy, peek, advance, len, Shows, Decodes, ok, err, skip, Decodes-return,
  Decodes-require, Decodes-copy, IsSafe, Reads, len-skip, safe_return, IsSafe-require, IsSafe-copy,
  IsSafe-call, Decodes-call, append_assoc,
}
use mathlib.Core.List.{append-nil}
use Prim.Native.Nat.{min}
use lightway.Base.{suc, take-append_self, Option, none, some, take}
use lightway.Wire.Reads.{len-Shows, skip-Shows}
use lightway.Wire.Safety.{peek_reads, advance_reads, require_len_reads}
use lightway.Wire.Utf8.{from_utf8, from_utf8_valid, from_utf8_invalid, is_utf8}

-- All strings are UTF-8 bytes, and a session id is 8 bytes.
pub record AuthSuccessWithConfigV4 : Type 0 where
  pub local_ip : List ℕ
  pub peer_ip : List ℕ
  pub dns_ip : List ℕ
  pub mtu : List ℕ
  pub session : List ℕ

abbrev pub max_str_size : ℕ
max_str_size = 23

abbrev pub wire_size : ℕ
wire_size = 4 * (max_str_size + 1) + 8

-- `iter().position(|b| b == &0)`.
pub position_null : List ℕ → Option ℕ
position_null [] = none
position_null (b ∷ bs) =
    let rest = position_null bs in
    if b == 0 then some 0 else elim rest [ none ↦ none | some i ↦ some (suc i) ]

abbrev unwrap_or : Option ℕ → ℕ → ℕ
unwrap_or none d = d
unwrap_or (some i) d = i

pub try_fixed_len_string_from_wire : Decoder (List ℕ)
try_fixed_len_string_from_wire = do
  require_len max_str_size
  field ← peek (max_str_size + 1)
  let null_idx = min max_str_size (unwrap_or (position_null field) max_str_size)
  bytes ← peek null_idx
  s ← from_utf8 bytes
  advance (max_str_size + 1)
  return s

-- `pad` bytes of zero, one at least.
pub append_fixed_len_string_to_wire : List ℕ → List ℕ → List ℕ
append_fixed_len_string_to_wire s buf = buf ++ (s ++ replicate (max_str_size - length s + 1) 0)

-- A string that the fixed field holds: short, with no NUL, and UTF-8 as every `String`.
abbrev pub IsField : List ℕ → Type 0
IsField s = (length s ≤ max_str_size) × (position_null s ≡ none) × (is_utf8 s ≡ true)

position_null-append :
    (s t : List ℕ) → position_null s ≡ none → position_null (s ++ (0 ∷ t)) ≡ some (length s)
unfolding position_null
position_null-append [] t h = refl
position_null-append (b ∷ s) t h = ground (arith, position_null-append s t)

abbrev padded : List ℕ → List ℕ
padded s = s ++ (0 ∷ replicate (max_str_size - length s) 0)

length-padded : (s : List ℕ) → length s ≤ max_str_size → length (padded s) ≡ max_str_size + 1
length-padded s h = omega (
  arith,
  length-append s (0 ∷ replicate (max_str_size - length s) 0),
  length-replicate {A = ℕ} (max_str_size - length s) 0,
)

-- The decoder on any buffer of 24 bytes or more.
string_result :
    {bytes : List ℕ} {start : ℕ} (b : BorrowedBytesMut)
    → Reads bytes start b
    → max_str_size + 1 ≤ len b
    → let field = take (max_str_size + 1) (chunk b) in
      let text = take (min max_str_size (unwrap_or (position_null field) max_str_size)) (chunk b) in
      try_fixed_len_string_from_wire b ≡ (
        if is_utf8 text then ok text (skip (max_str_size + 1) b) else err invalid_string_encoding b)
unfolding try_fixed_len_string_from_wire ◌>>=◌ ◌>>◌
string_result b r h =
    let field = take (max_str_size + 1) (chunk b) in
    let null_idx = min max_str_size (unwrap_or (position_null field) max_str_size) in
    let text = take null_idx (chunk b) in
    rw (require_len_reads max_str_size b (omega arith), ◌>>=◌)
      (rw (peek_reads r (max_str_size + 1) h, ◌>>=◌)
        (rw (peek_reads r null_idx (omega arith), ◌>>=◌)
          (elim (Bool-cases (is_utf8 text)) [
            | inl valid ↦
                rw (valid, from_utf8_valid text b valid, ◌>>=◌)
                  (rw (advance_reads r (max_str_size + 1) h, ◌>>=◌))
            | inr bad ↦ rw (bad, from_utf8_invalid text b bad, ◌>>=◌)
          ])))

string_lem :
    (s : List ℕ) (b : BorrowedBytesMut) (ys : List ℕ)
    → IsField s
    → Shows b (padded s ++ ys)
    → try_fixed_len_string_from_wire b ≡ ok s (skip (max_str_size + 1) b)
string_lem s b ys (short, no_null, valid) shown =
    let zeros : List ℕ = replicate (max_str_size - length s) 0 in
    let room : max_str_size + 1 ≤ len b =
      omega (arith, len-Shows b _ shown, length-append (padded s) ys, length-padded s short) in
    let field : take (max_str_size + 1) (chunk b) ≡ padded s =
      rw (shown.unread, ← length-padded s short) (take-append_self (padded s) ys) in
    let whole : chunk b ≡ s ++ (0 ∷ (zeros ++ ys)) = shown.unread ∙ simp append_assoc in
    let text : take (length s) (chunk b) ≡ s = rw whole (take-append_self s (0 ∷ (zeros ++ ys))) in
    let capped : min max_str_size (length s) ≡ length s = omega arith in
    string_result {start = 0} b (record { fresh = shown.fresh; same = refl; ahead = omega arith })
      room
    ∙ rw (field, position_null-append s zeros no_null) (rw capped (rw text (rw valid)))

string_cases :
    {bytes : List ℕ} {start : ℕ} (b : BorrowedBytesMut)
    → Reads bytes start b
    → max_str_size + 1 ≤ len b
    → ((s : List ℕ) × (try_fixed_len_string_from_wire b ≡ ok s (skip (max_str_size + 1) b)))
      ⊎ ((e : FromWireError) × (try_fixed_len_string_from_wire b ≡ err e b))
string_cases b r h =
    let field = take (max_str_size + 1) (chunk b) in
    let text = take (min max_str_size (unwrap_or (position_null field) max_str_size)) (chunk b) in
    elim (Bool-cases (is_utf8 text)) [
      | inl valid ↦ inl (text, string_result b r h ∙ rw valid)
      | inr bad ↦ inr (invalid_string_encoding, string_result b r h ∙ rw bad)
    ]

abbrev pub IsEncodable : AuthSuccessWithConfigV4 → Type 0
IsEncodable a =
    IsField a.local_ip
    × IsField a.peer_ip
    × IsField a.dns_ip
    × IsField a.mtu
    × (length a.session ≡ 8)

pub try_from_wire : Decoder AuthSuccessWithConfigV4
try_from_wire = do
  require_len wire_size
  local_ip ← try_fixed_len_string_from_wire
  peer_ip ← try_fixed_len_string_from_wire
  dns_ip ← try_fixed_len_string_from_wire
  mtu ← try_fixed_len_string_from_wire
  session ← copy 8
  return (record {
    local_ip = local_ip;
    peer_ip = peer_ip;
    dns_ip = dns_ip;
    mtu = mtu;
    session = session;
  })

pub append_to_wire : AuthSuccessWithConfigV4 → List ℕ → List ℕ
append_to_wire a buf =
    let with_local = append_fixed_len_string_to_wire a.local_ip buf in
    let with_peer = append_fixed_len_string_to_wire a.peer_ip with_local in
    let with_dns = append_fixed_len_string_to_wire a.dns_ip with_peer in
    append_fixed_len_string_to_wire a.mtu with_dns ++ a.session

append_string :
    (s buf : List ℕ)
    → length s ≤ max_str_size
    → append_fixed_len_string_to_wire s buf ≡ buf ++ padded s
unfolding append_fixed_len_string_to_wire
append_string s buf h =
    let one : max_str_size - length s + 1 ≡ suc (max_str_size - length s) = omega arith in rw one

layout :
    (a : AuthSuccessWithConfigV4) (buf rest : List ℕ)
    → IsEncodable a
    → append_to_wire a buf ++ rest
      ≡ buf
        ++ (padded a.local_ip
            ++ (padded a.peer_ip ++ (padded a.dns_ip ++ (padded a.mtu ++ (a.session ++ rest)))))
unfolding append_to_wire
layout a buf rest (l, p, d, m, _) =
    rw
      (
        append_string a.mtu _ m.0,
        append_string a.dns_ip _ d.0,
        append_string a.peer_ip _ p.0,
        append_string a.local_ip buf l.0,
      )
      (simp append_assoc)

pub append_to_wire_lem :
    (a : AuthSuccessWithConfigV4) (buf : List ℕ)
    → IsEncodable a
    → append_to_wire a buf ≡ buf ++ append_to_wire a []
append_to_wire_lem a buf h =
    sym (append-nil _) ∙ layout a buf [] h ∙ ap (◌++◌ buf) (sym (layout a [] [] h) ∙ append-nil _)

padded-Shows :
    (s : List ℕ) (b : BorrowedBytesMut) (ys : List ℕ)
    → IsField s
    → Shows b (padded s ++ ys)
    → Shows (skip (max_str_size + 1) b) ys
padded-Shows s b ys f shown =
    skip-Shows (max_str_size + 1) b (padded s) ys (length-padded s f.0) shown

pub decodes :
    (a : AuthSuccessWithConfigV4) (b : BorrowedBytesMut) (rest : List ℕ)
    → IsEncodable a
    → Shows b (append_to_wire a [] ++ rest)
    → Decodes (try_from_wire b) a rest
unfolding try_from_wire
decodes a b rest (l, p, d, m, whole) s =
    let shown = rw (layout a [] rest (l, p, d, m, whole)) at s in
    let s1 = padded-Shows a.local_ip b _ l shown in
    let s2 = padded-Shows a.peer_ip _ _ p s1 in
    let s3 = padded-Shows a.dns_ip _ _ d s2 in
    let s4 = padded-Shows a.mtu _ _ m s3 in
    let fields =
      padded a.local_ip
      ++ (padded a.peer_ip ++ (padded a.dns_ip ++ (padded a.mtu ++ (a.session ++ rest)))) in
    let long : wire_size ≤ length fields = omega (
      arith,
      length-append (padded a.local_ip) _,
      length-append (padded a.peer_ip) _,
      length-append (padded a.dns_ip) _,
      length-append (padded a.mtu) _,
      length-append a.session rest,
      length-padded a.local_ip l.0,
      length-padded a.peer_ip p.0,
      length-padded a.dns_ip d.0,
      length-padded a.mtu m.0,
    ) in
    Decodes-require _ wire_size fields shown long (
      Decodes-call _ _ _ _ (string_lem a.local_ip b _ l shown) (
        Decodes-call _ _ _ _ (string_lem a.peer_ip _ _ p s1) (
          Decodes-call _ _ _ _ (string_lem a.dns_ip _ _ d s2) (
            Decodes-call _ _ _ _ (string_lem a.mtu _ _ m s3)
              (Decodes-copy _ 8 a.session rest s4 whole λ s5. Decodes-return s5)))))

pub try_from_wire-IsSafe :
    (bytes : List ℕ) (start : ℕ) (b : BorrowedBytesMut)
    → Reads bytes start b
    → IsSafe bytes start (try_from_wire b)
unfolding try_from_wire
try_from_wire-IsSafe bytes start b r = IsSafe-require r _ wire_size λ h.
    IsSafe-call r _ _ 24 (string_cases b r (omega arith)) λ local_ip r1.
      IsSafe-call r1 _ _ 24 (string_cases _ r1 (omega (arith, len-skip))) λ peer_ip r2.
        IsSafe-call r2 _ _ 24 (string_cases _ r2 (omega (arith, len-skip))) λ dns_ip r3.
          IsSafe-call r3 _ _ 24 (string_cases _ r3 (omega (arith, len-skip)))
            λ mtu r4. IsSafe-copy r4 _ 8 (omega (arith, len-skip)) λ session r5. safe_return r5
