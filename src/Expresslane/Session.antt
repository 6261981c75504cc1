-- ===== src/Expresslane/Session.antt =====
-- lightway-expresslane/src/session.rs. Every method takes `&self`; here it answers the new session. The
-- atomics are numbers of 64 bits, a `BytesMut` the list of its bytes.
use lightway.Base.{
  ℕ, ◌+◌, ◌%◌, ◌^◌, Bool, true, false, not, ◌&&◌, List, ◌++◌, Option, none, some, ltb, leb,
  if◌then◌else◌, length, take, drop,
}
use lightway.Replay.{ReplayWindow, default, commit}
use lightway.Versions.{ExpresslaneVersion, from_u8, to_u8}
use lightway.Wire.BigEndian.{BigEndian}
use lightway.Expresslane.Aead.{
  ExpresslaneKey, ExpresslaneAead, ExpresslaneResult, ok, err, invalid, is_invalid, no_key,
  insufficient_data,
}

-- `Flags`: the top bit of a u16, most significant first.
unfoldable pub with_encoded : Bool → ℕ
with_encoded is_encoded = if is_encoded then 2 ^ 15 else 0

unfoldable pub encoded : ℕ → Bool
encoded flags = leb (2 ^ 15) flags

pub record Keyed (A : Type 0) : Type 0 where
  pub key : ExpresslaneKey
  pub aead : A

pub record ExpresslaneSession (A : Type 0) : Type 0 where
  pub version : ℕ
  pub wire_counter : ℕ
  pub packets_received : ℕ
  pub replay : ReplayWindow
  pub current_self : Option (Keyed A)
  pub next_self : Option (Keyed A)
  pub current_peer : Option (Keyed A)
  pub prev_peer : Option (Keyed A)
  pub has_self : Bool
  pub has_peer : Bool

abbrev pub wire_overhead : ℕ
wire_overhead = 40

abbrev pub max_plaintext : ℕ
max_plaintext = 65535

-- The fixed part of a frame, and the key slots that a packet is opened with.
pub record FrameHeader : Type 0 where
  pub counter : ℕ
  pub iv : List ℕ
  pub auth_tag : List ℕ
  pub data_len : ℕ
  pub flags : ℕ

module _ {A : Type 0} where
  unfoldable pub new : ExpresslaneVersion → ExpresslaneSession A
  new version = record {
    version = to_u8 version;
    wire_counter = 0;
    packets_received = 0;
    replay = default;
    current_self = none;
    next_self = none;
    current_peer = none;
    prev_peer = none;
    has_self = false;
    has_peer = false;
  }

  unfoldable pub version : ExpresslaneSession A → ExpresslaneVersion
  version s = from_u8 s.version

  unfoldable pub set_version :
      ExpresslaneSession A → ExpresslaneVersion → ExpresslaneSession A × Bool
  set_version s v =
      if ltb 0 s.wire_counter then (s, false) else (record s { version = to_u8 v }, true)

  -- `promote_self_key`, by what `next_self.take()` holds.
  unfoldable pub promote : ExpresslaneSession A → Option (Keyed A) → ExpresslaneSession A
  promote s none = s
  promote s (some next) = record s {
    next_self = none;
    has_self = not (is_invalid next.key);
    current_self = some next;
  }

  unfoldable pub promote_self_key : ExpresslaneSession A → ExpresslaneSession A
  unfolding promote
  promote_self_key s = promote s s.next_self

  unfoldable pub key_or_invalid : Option (Keyed A) → ExpresslaneKey
  key_or_invalid none = invalid
  key_or_invalid (some k) = k.key

  unfoldable pub self_key : ExpresslaneSession A → ExpresslaneKey
  self_key s = key_or_invalid s.current_self

  unfoldable pub peer_key : ExpresslaneSession A → ExpresslaneKey
  peer_key s = key_or_invalid s.current_peer

  unfoldable pub has_valid_keys : ExpresslaneSession A → Bool
  has_valid_keys s = s.has_self && s.has_peer

  unfoldable pub reserve_counter : ExpresslaneSession A → ExpresslaneSession A × ℕ
  reserve_counter s =
      let counter = (s.wire_counter + 1) % 2 ^ 64 in (record s { wire_counter = counter }, counter)

  -- The second half of receiving: the window takes the counter, and the packet counts.
  unfoldable pub accept : ExpresslaneSession A → ℕ → ExpresslaneSession A × Bool
  accept s counter =
      let (window, accepted) = commit s.replay counter in
      if accepted
      then (
        record s { replay = window; packets_received = (s.packets_received + 1) % 2 ^ 64 },
        true,
      )
      else (record s { replay = window }, false)

module _ {A : Type 0} ⦃crypto : ExpresslaneAead A⦄ where
  unfoldable pub stage :
      ExpresslaneSession A
      → ExpresslaneKey
      → ExpresslaneResult A
      → ExpresslaneSession A × ExpresslaneResult (Unit {0})
  stage s key (err e) = (s, err e)
  stage s key (ok aead) = (record s { next_self = some (record { key = key; aead = aead }) }, ok tt)

  unfoldable pub update_next_self_key :
      ExpresslaneSession A → ExpresslaneKey → ExpresslaneSession A × ExpresslaneResult (Unit {0})
  unfolding stage
  update_next_self_key s key = stage s key (crypto.new key)

  unfoldable pub install :
      ExpresslaneSession A
      → ExpresslaneKey
      → ExpresslaneResult A
      → ExpresslaneSession A × ExpresslaneResult (Unit {0})
  install s key (err e) = (s, err e)
  install s key (ok aead) = (
    record s {
      has_peer = not (is_invalid key);
      prev_peer = s.current_peer;
      current_peer = some (record { key = key; aead = aead });
    },
    ok tt,
  )

  unfoldable pub update_peer_key :
      ExpresslaneSession A → ExpresslaneKey → ExpresslaneSession A × ExpresslaneResult (Unit {0})
  unfolding install
  update_peer_key s key = install s key (crypto.new key)

  -- The current key seals, unless there is none or only the sentinel.
  unfoldable pub seal_with :
      Option (Keyed A) → List ℕ → List ℕ → List ℕ → ExpresslaneResult (List ℕ × List ℕ)
  seal_with none iv plaintext aad = err no_key
  seal_with (some current) iv plaintext aad =
      if is_invalid current.key then err no_key else crypto.seal current.aead iv plaintext aad

  -- The retry under the key before the last rotation, after error `e`.
  unfoldable pub open_prev :
      Option (Keyed A)
      → FrameHeader
      → List ℕ
      → List ℕ
      → ExpresslaneResult (List ℕ)
      → ExpresslaneResult (List ℕ)
  open_prev prev h ciphertext aad (ok plaintext) = ok plaintext
  open_prev none h ciphertext aad (err e) = err e
  open_prev (some prev) h ciphertext aad (err e) =
      if is_invalid prev.key
      then err e
      else crypto.open_aead prev.aead h.iv ciphertext aad h.auth_tag

  unfoldable pub open_with :
      Option (Keyed A)
      → Option (Keyed A)
      → FrameHeader
      → List ℕ
      → List ℕ
      → ExpresslaneResult (List ℕ)
  unfolding open_prev
  open_with none prev h ciphertext aad = err no_key
  open_with (some current) prev h ciphertext aad =
      if is_invalid current.key
      then err no_key
      else open_prev prev h ciphertext aad
          (crypto.open_aead current.aead h.iv ciphertext aad h.auth_tag)

module _ ⦃be : BigEndian⦄ where
  unfoldable pub build_aad : ExpresslaneVersion → List ℕ → ℕ → ℕ → List ℕ
  build_aad v session_id counter flags =
      let bound = session_id ++ be.be 8 counter in
      if leb 2 (to_u8 v) then bound ++ be.be 2 flags else bound

  -- The frame that is put behind the buffer.
  unfoldable pub frame : ℕ → List ℕ → List ℕ → ℕ → List ℕ → List ℕ
  frame counter iv auth_tag flags ciphertext =
      be.be 8 counter
      ++ (iv
          ++ (auth_tag ++ (be.be 2 (length ciphertext % 2 ^ 16) ++ (be.be 2 flags ++ ciphertext))))

  unfoldable pub read_header : List ℕ → FrameHeader
  read_header buf = record {
    counter = be.of_be (take 8 buf);
    iv = take 12 (drop 8 buf);
    auth_tag = take 16 (drop 20 buf);
    data_len = be.of_be (take 2 (drop 36 buf));
    flags = be.of_be (take 2 (drop 38 buf));
  }

  -- The checks of the lengths.
  unfoldable pub checked_header : List ℕ → ExpresslaneResult FrameHeader
  checked_header buf =
      let h = read_header buf in
      if ltb (length buf) wire_overhead
      then err insufficient_data
      else if ltb (length buf) (wire_overhead + h.data_len)
      then err insufficient_data
      else ok h

  unfoldable pub ciphertext_of : List ℕ → FrameHeader → List ℕ
  ciphertext_of buf h = take h.data_len (drop wire_overhead buf)
