-- ===== src/Expresslane/Runs.antt =====
-- The session at concrete inputs.
use lightway.Base.{ℕ, ◌≤◌, ◌≡◌, refl, true, false, not, ◌&&◌, List, [], ◌∷◌, ◌++◌, replicate, arith}
use lightway.Versions.{version2}
use lightway.Wire.Bytes.{big_endian, read_onto}
use lightway.Replay.{
  default, would_reject, is_set, commit, set_slot, advance, clear_slots, clear_slot,
}
use lightway.Expresslane.Aead.{
  ok, err, auth_failed, insufficient_data, replayed, same_bytes, is_invalid,
}
use lightway.Expresslane.Cipher.{test_cipher, tag_of, open_if, first_key, second_key}
use lightway.Expresslane.Session.{
  new, accept, checked_header, read_header, ciphertext_of, self_key, peer_key, has_valid_keys,
  reserve_counter, update_peer_key, update_next_self_key, promote_self_key, promote, stage, install,
  open_with, open_prev, encoded,
}
use lightway.Expresslane.Packets.{
  receive, deliver, authenticate, append_to_wire, try_from_wire, encrypt_into, decrypt_into,
}
use lightway.Expresslane.Histories.{
  Call, run, step, call_update_next_self_key, call_update_peer_key, call_promote_self_key,
}
use lightway.Expresslane.Keys.{run-has_valid_keys}
use lightway.Expresslane.Replays.{try_from_wire-err, try_from_wire_once}
use lightway.Expresslane.RoundTrip.{try_from_wire-append_to_wire_sealed, try_from_wire_rotated}
use lightway.Expresslane.Delivery.{next_counter}
use lightway.Expresslane.Twins.{encrypt_into-append_to_wire, framed}
use lightway.Expresslane.DecryptInto.{decrypt_into-try_from_wire, copied}

abbrev session_id : List ℕ
session_id = replicate 8 9

abbrev iv : List ℕ
iv = replicate 12 3

abbrev hello : List ℕ
hello = 104 ∷ 105 ∷ []

abbrev keyed_calls : List Call
keyed_calls =
    call_update_next_self_key first_key
    ∷ call_promote_self_key
    ∷ call_update_peer_key first_key
    ∷ []

run-has_valid_keys_example :
    has_valid_keys (run (new {A = ℕ} version2) keyed_calls)
    ≡ not (is_invalid (self_key (run (new {A = ℕ} version2) keyed_calls)))
      && not (is_invalid (peer_key (run (new {A = ℕ} version2) keyed_calls)))
run-has_valid_keys_example = run-has_valid_keys ℕ version2 keyed_calls

keyed_valid : has_valid_keys (run (new {A = ℕ} version2) keyed_calls) ≡ true
unfolding has_valid_keys run step new update_next_self_key update_peer_key promote_self_key promote
    stage install is_invalid same_bytes
keyed_valid = refl

-- A frame that `first_key` seals first.
abbrev hello_frame : List ℕ
hello_frame =
    (0 ∷ 0 ∷ 0 ∷ 0 ∷ 0 ∷ 0 ∷ 0 ∷ 1 ∷ []) ++ iv ++ replicate 16 1 ++ (0 ∷ 2 ∷ 0 ∷ 0 ∷ []) ++ hello

too_short : (try_from_wire (new {A = ℕ} version2) hello session_id).2 ≡ err insufficient_data
unfolding try_from_wire receive checked_header read_header
too_short = refl

try_from_wire-err_example :
    try_from_wire (new {A = ℕ} version2) hello session_id
    ≡ (new {A = ℕ} version2, hello, err insufficient_data)
try_from_wire-err_example =
    try_from_wire-err (new {A = ℕ} version2) hello session_id insufficient_data too_short

hello_checked : checked_header hello_frame ≡ ok (read_header hello_frame)
unfolding checked_header read_header read_onto
hello_checked = refl

hello_delivered :
    (try_from_wire (run (new {A = ℕ} version2) keyed_calls) hello_frame session_id).2
    ≡ ok (hello, false)
unfolding try_from_wire receive checked_header read_header read_onto deliver authenticate
    would_reject is_set ciphertext_of open_with open_prev is_invalid same_bytes accept commit
    set_slot advance clear_slots clear_slot default encoded run step new update_next_self_key
    update_peer_key promote_self_key promote stage install
hello_delivered = refl

try_from_wire_once_example :
    try_from_wire
      (run
        (try_from_wire (run (new {A = ℕ} version2) keyed_calls) hello_frame session_id).0
        keyed_calls)
      hello_frame
      session_id
    ≡ (
      run
          (try_from_wire (run (new {A = ℕ} version2) keyed_calls) hello_frame session_id).0
          keyed_calls,
      hello_frame,
      err replayed,
    )
try_from_wire_once_example =
    try_from_wire_once ℕ version2 keyed_calls keyed_calls hello_frame hello_frame session_id
      session_id (read_header hello_frame) (read_header hello_frame) (hello, false) hello_delivered
      hello_checked hello_checked refl

first_real : is_invalid first_key ≡ false
unfolding is_invalid same_bytes
first_real = refl

second_real : is_invalid second_key ≡ false
unfolding is_invalid same_bytes
second_real = refl

one_fresh : would_reject (new {A = ℕ} version2).replay (next_counter (new {A = ℕ} version2)) ≡ false
unfolding would_reject new default
one_fresh = refl

try_from_wire-append_to_wire_sealed_example :
    try_from_wire
      (update_peer_key (new {A = ℕ} version2) first_key).0
      ((append_to_wire
          (promote_self_key (update_next_self_key (new {A = ℕ} version2) first_key).0)
          []
          session_id
          hello
          iv
          true).1
        ++ (7 ∷ []))
      session_id
    ≡ (
      (accept
          (update_peer_key (new {A = ℕ} version2) first_key).0
          (next_counter (new {A = ℕ} version2))).0,
      7 ∷ [],
      ok (hello, true),
    )
try_from_wire-append_to_wire_sealed_example =
    try_from_wire-append_to_wire_sealed (new {A = ℕ} version2) (new {A = ℕ} version2) first_key 1
      session_id hello iv hello (tag_of 1) (7 ∷ []) true refl first_real refl (omega arith) refl
      one_fresh refl

other_tag : open_if (same_bytes (tag_of 1) (tag_of 2)) hello ≡ err auth_failed
unfolding same_bytes
other_tag = refl

try_from_wire_rotated_example :
    try_from_wire
      (update_peer_key (update_peer_key (new {A = ℕ} version2) first_key).0 second_key).0
      ((append_to_wire
          (promote_self_key (update_next_self_key (new {A = ℕ} version2) first_key).0)
          []
          session_id
          hello
          iv
          true).1
        ++ [])
      session_id
    ≡ (
      (accept
          (update_peer_key (update_peer_key (new {A = ℕ} version2) first_key).0 second_key).0
          (next_counter (new {A = ℕ} version2))).0,
      [],
      ok (hello, true),
    )
try_from_wire_rotated_example =
    try_from_wire_rotated (new {A = ℕ} version2) (new {A = ℕ} version2) first_key second_key 1 2
      session_id hello iv hello (tag_of 1) [] true auth_failed refl refl first_real second_real refl
      (omega arith) refl one_fresh refl other_tag

encrypt_into-append_to_wire_example :
    encrypt_into
      (reserve_counter (new {A = ℕ} version2)).0
      (reserve_counter (new {A = ℕ} version2)).1
      session_id
      hello
      iv
      true
      (replicate 50 5)
    ≡ framed
        (replicate 50 5)
        (append_to_wire (new {A = ℕ} version2) [] session_id hello iv true).1
        (append_to_wire (new {A = ℕ} version2) [] session_id hello iv true).2
encrypt_into-append_to_wire_example =
    encrypt_into-append_to_wire (new {A = ℕ} version2) session_id hello iv (replicate 50 5) true
      refl (omega arith)

hello_len : (read_header hello_frame).data_len ≤ 3
unfolding read_header read_onto
hello_len = omega arith

decrypt_into-try_from_wire_example :
    decrypt_into (new {A = ℕ} version2) session_id hello_frame (replicate 3 0) ≡ (
      (try_from_wire (new {A = ℕ} version2) hello_frame session_id).0,
      copied (replicate 3 0) (try_from_wire (new {A = ℕ} version2) hello_frame session_id).2,
    )
decrypt_into-try_from_wire_example =
    decrypt_into-try_from_wire (new {A = ℕ} version2) hello_frame session_id (replicate 3 0)
      hello_len
