-- ===== src/Connection/Fragmenting.antt =====
-- lightway-core/src/connection.rs: a packet that is too large for the path, sent in fragments. The loop
-- runs on fuel, and the length of the packet is enough where `mps`, the size of a fragment, is positive.
-- The frames are those handed to `send_frame_or_queue` where none of its calls fails.
use lightway.Base.{
  ℕ, zero, suc, ◌+◌, ◌-◌, ◌%◌, ◌^◌, ◌≤◌, ◌<◌, ◌≡◌, refl, ap, sym, ◌∙◌, inl, inr, min, Bool, false,
  not, List, [], ◌∷◌, ◌++◌, none, map, replicate, length, length-take, length-drop, drop-drop, take,
  drop, All, ltb, leb, ◌==◌, if◌then◌else◌, arith, Bool-cases,
}
use mathlib.Core.List.{Permᴰ}
use lightway.Wire.DataFrag.{DataFrag, end_offset}
use lightway.Wire.Frame.{Frame, data_frag, encoded_data_frag}
use lightway.Fragments.{is_empty, complete, incomplete, LruCache}
use lightway.Fragments.Insertion.{within}
use lightway.Fragments.AnyOrder.{covers, Off, Apart, IsPartOf, deliver_parts}
use lightway.Fragments.Map.{deliver}
use lightway.Connection.Types.{ConnectionError, invalid_inside_packet}

pub data Sent : Type 0 where
  sent : List Frame → Sent
  refused : ConnectionError → Sent

-- `Wrapping<u16>`.
unfoldable pub next_fragment_id : ℕ → ℕ
next_fragment_id fragment_counter = (fragment_counter + 1) % 2 ^ 16

-- `while !data.is_empty()`.
unfoldable pub split : ℕ → ℕ → ℕ → ℕ → List ℕ → List DataFrag
split zero id mps offset bytes = []
split (suc fuel) id mps offset bytes =
    let size = min mps (length bytes) in
    let remaining = drop size bytes in
    let rest = split fuel id mps (offset + mps) remaining in
    if is_empty bytes
    then []
    else record {
      id = id;
      offset = offset;
      more_fragments = not (is_empty remaining);
      payload = take size bytes;
    }
      ∷ rest

pub as_frame : Bool → DataFrag → Frame
as_frame is_encoded frag = if is_encoded then encoded_data_frag frag else data_frag frag

-- The new fragment counter, and what is sent.
pub send_fragmented_outside_data : ℕ → List ℕ → ℕ → Bool → ℕ × Sent
send_fragmented_outside_data fragment_counter bytes mps is_encoded =
    let id = next_fragment_id fragment_counter in
    if ltb 65535 (length bytes)
    then (fragment_counter, refused invalid_inside_packet)
    else (id, sent (map (as_frame is_encoded) (split (length bytes) id mps 0 bytes)))

is_empty-length : (xs : List ℕ) → is_empty xs ≡ (length xs == 0)
unfolding is_empty
is_empty-length [] = refl
is_empty-length (x ∷ xs) = ground arith

drop_all : (m : ℕ) (xs : List ℕ) → length xs ≤ m → drop m xs ≡ []
drop_all zero [] h = refl
drop_all (suc m) [] h = refl
drop_all zero (x ∷ xs) h = absurd (omega arith)
drop_all (suc m) (x ∷ xs) h = drop_all m xs (omega arith)

-- What the fragments from `low` on are.
record PartsFrom (id : ℕ) (packet : List ℕ) (low : ℕ) (frags : List DataFrag) : Type 0 where
  parts : All (IsPartOf id packet) frags
  apart : Apart frags
  behind : All (λ (f : DataFrag). low ≤ f.offset) frags
  cover : (x : ℕ) → covers frags x ≡ within low (length packet) x

-- A fragment before others.
Off-frag :
    (frag : DataFrag) (low : ℕ) (frags : List DataFrag)
    → end_offset frag ≤ low
    → All (λ (f : DataFrag). low ≤ f.offset) frags
    → All (Off frag) frags
Off-frag frag low [] h b = tt
Off-frag frag low (g ∷ frags) h (b, bs) = (inl (omega arith), Off-frag frag low frags h bs)

behind_low :
    (low high : ℕ) (frags : List DataFrag)
    → low ≤ high
    → All (λ (f : DataFrag). high ≤ f.offset) frags
    → All (λ (f : DataFrag). low ≤ f.offset) frags
behind_low low high [] h b = tt
behind_low low high (g ∷ frags) h (b, bs) = (omega arith, behind_low low high frags h bs)

-- Where the next fragment starts, whether or not it is cut short.
drop_next :
    (mps offset : ℕ) (packet : List ℕ)
    → drop (min mps (length (drop offset packet))) (drop offset packet) ≡ drop (offset + mps) packet
drop_next mps offset packet =
    let left = length-drop offset packet in
    elim (Bool-cases (leb mps (length (drop offset packet)))) [
      | inl whole ↦
          let full : min mps (length (drop offset packet)) ≡ mps = ground arith in
          rw full (drop-drop offset mps packet)
      | inr short ↦
          let all : min mps (length (drop offset packet)) ≡ length (drop offset packet) =
            ground arith in
          rw all (
            drop_all (length (drop offset packet)) (drop offset packet) (omega arith)
            ∙ sym (drop_all (offset + mps) packet (ground (arith, left))))
    ]

module _ (id mps : ℕ) (packet : List ℕ) (pos : 0 < mps) where
  -- The first fragment of what is left, and the others.
  split_more :
      (fuel offset : ℕ)
      → 0 < length packet - offset
      → PartsFrom id packet
          (offset + mps)
          (split fuel id mps (offset + mps) (drop (offset + mps) packet))
      → PartsFrom id packet offset (
          record {
            id = id;
            offset = offset;
            more_fragments =
                not (is_empty (drop (min mps (length (drop offset packet))) (drop offset packet)));
            payload = take (min mps (length (drop offset packet))) (drop offset packet);
          }
          ∷ split fuel id mps
              (offset + mps)
              (drop (min mps (length (drop offset packet))) (drop offset packet)))
  unfolding covers
  split_more fuel offset left_pos ih =
      let next = drop_next mps offset packet in
      let rest = split fuel id mps (offset + mps) (drop (offset + mps) packet) in
      let left = length-drop offset packet in
      let size = min mps (length (drop offset packet)) in
      let size_len : length (take size (drop offset packet)) ≡ size =
        omega (arith, length-take size (drop offset packet)) in
      let end = is_empty-length (drop (offset + mps) packet) in
      let end_len = length-drop (offset + mps) packet in
      let first : DataFrag = record {
        id = id;
        offset = offset;
        more_fragments = not (is_empty (drop (offset + mps) packet));
        payload = take size (drop offset packet);
      } in
      rw next (record {
        parts = (
          record {
            same_id = refl;
            part = record {
              some_bytes = omega (arith, size_len, left);
              inside = omega (arith, size_len, left);
              last = ground (arith, end, end_len, size_len, left);
            };
            payload = ap (λ n. take n (drop offset packet)) (sym size_len);
          },
          ih.parts,
        );
        apart = (
          Off-frag first (offset + mps) rest (omega (arith, size_len, left)) ih.behind,
          ih.apart,
        );
        behind = (omega arith, behind_low offset (offset + mps) rest (omega arith) ih.behind);
        cover = λ x. ground (arith, ih.cover x, size_len, left);
      })

  split-PartsFrom :
      (fuel offset : ℕ)
      → length packet ≤ offset + fuel
      → PartsFrom id packet offset (split fuel id mps offset (drop offset packet))
  unfolding split covers
  split-PartsFrom zero offset enough = record {
    parts = tt;
    apart = tt;
    behind = tt;
    cover = λ x. ground (arith, enough);
  }
  split-PartsFrom (suc fuel) offset enough =
      let left : length (drop offset packet) ≡ length packet - offset = length-drop offset packet in
      elim (Bool-cases (is_empty (drop offset packet))) [
        | inl done ↦ rw done (record {
          parts = tt;
          apart = tt;
          behind = tt;
          cover = λ x. ground (arith, left, is_empty-length (drop offset packet));
        })
        | inr more ↦
            let left_pos : 0 < length packet - offset =
              ground (arith, left, is_empty-length (drop offset packet)) in
            let ih = split-PartsFrom fuel (offset + mps) (omega arith) in
            rw more (split_more fuel offset left_pos ih)
      ]

module _ ⦃lru : LruCache⦄ where
  -- A packet that is not empty and of at most 65535 bytes is sent in fragments under the next id. Where
  -- the peer has nothing stored under that id, those fragments, and no others, in any order give the
  -- packet, with the last of them to arrive and not before.
  pub send-deliver :
      (c : lru.Cache) (counter mps : ℕ) (packet : List ℕ) (is_encoded : Bool)
      (arrived : List DataFrag)
      → lru.get c (next_fragment_id counter) ≡ none
      → 0 < mps
      → 0 < length packet
      → length packet ≤ 65535
      → Permᴰ (split (length packet) (next_fragment_id counter) mps 0 packet) arrived
      → (send_fragmented_outside_data counter packet mps is_encoded ≡ (
        next_fragment_id counter,
        sent (
            map
              (as_frame is_encoded)
              (split (length packet) (next_fragment_id counter) mps 0 packet)),
      ))
        × (map (λ r. r.1) (deliver c arrived)
            ≡ replicate (length arrived - 1) incomplete ++ (complete packet ∷ []))
  unfolding send_fragmented_outside_data
  send-deliver c counter mps packet is_encoded arrived fresh pos some fits shuffled =
      let id = next_fragment_id counter in
      let all = split-PartsFrom id mps packet pos (length packet) 0 (omega arith) in
      let small : ltb 65535 (length packet) ≡ false = ground (arith, fits) in
      (
        rw small refl,
        deliver_parts packet id c (split (length packet) id mps 0 packet) arrived fresh some
            shuffled all.parts all.apart all.cover,
      )
