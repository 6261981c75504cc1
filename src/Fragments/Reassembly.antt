-- ===== src/Fragments/Reassembly.antt =====
-- Stored fragments as slices of the packet that they come from.
use lightway.Base.{
  ℕ, zero, suc, ◌+◌, ◌≡◌, refl, sym, ap, ◌∙◌, inl, inr, true, false, ◌&&◌, ◌||◌, List, [], ◌∷◌,
  ◌++◌, length, take, drop, drop-drop, All, some, ltb, ◌==◌, arith, Bool-cases,
}
use mathlib.Core.List.{append_assoc, append-nil}
use native.Mathlib.Nat.{zero-add}
use lightway.Wire.DataFrag.{DataFrag, start_offset, end_offset}
use lightway.Fragments.{
  Outcome, ok, err, panic, ◌>>=◌, Fragment, new, end_of, is_complete_packet, merge, add_wire_frag,
  merge_next, insert_frag, is_empty, update, concat, try_complete,
}

-- Bytes `start` to `start + size` of the packet.
abbrev pub slice : List ℕ → ℕ → ℕ → List ℕ
slice packet start size = take size (drop start packet)

take-nil : (n : ℕ) → take {A = ℕ} n [] ≡ []
take-nil zero = refl
take-nil (suc n) = refl

take-all : (xs : List ℕ) → take (length xs) xs ≡ xs
take-all [] = refl
take-all (x ∷ xs) = ap (◌∷◌ x) (take-all xs)

some-inj : {a b : List ℕ} → some a ≡ some b → a ≡ b
some-inj e = ground arith

take-append-take : (a b : ℕ) (xs : List ℕ) → take a xs ++ take b (drop a xs) ≡ take (a + b) xs
take-append-take zero b xs = rw zero-add
take-append-take (suc a) b [] = take-nil b ∙ sym (take-nil (suc a + b))
take-append-take (suc a) b (x ∷ xs) =
    let shift : suc a + b ≡ suc (a + b) = omega arith in rw (shift, take-append-take a b xs)

slice-append :
    (packet : List ℕ) (start a b : ℕ)
    → slice packet start a ++ slice packet (start + a) b ≡ slice packet start (a + b)
slice-append packet start a b =
    rw (← drop-drop start a packet) (take-append-take a b (drop start packet))

-- Adjacent slices are one.
joined :
    (packet xs ys : List ℕ) (start mid a b : ℕ)
    → xs ≡ slice packet start a
    → ys ≡ slice packet mid b
    → start + a ≡ mid
    → xs ++ ys ≡ slice packet start (a + b)
joined packet xs ys start mid a b h k e = rw (h, k, ← e) (slice-append packet start a b)

concat-append : (cs ds : List (List ℕ)) → concat (cs ++ ds) ≡ concat cs ++ concat ds
unfolding concat
concat-append [] ds = refl
concat-append (c ∷ cs) ds = rw (concat-append cs ds) (sym (append_assoc c (concat cs) (concat ds)))

-- A fragment of the packet on the wire, and one that has been put together.
pub record IsFragOf (packet : List ℕ) (frag : DataFrag) : Type 0 where
  pub payload : frag.payload ≡ slice packet frag.offset (length frag.payload)
  pub last : frag.more_fragments ≡ false → frag.offset + length frag.payload ≡ length packet

pub record IsPieceOf (packet : List ℕ) (f : Fragment) : Type 0 where
  pub bytes : concat f.chunks ≡ slice packet f.start f.size
  pub last : f.is_last ≡ true → f.start + f.size ≡ length packet

abbrev pub Pieces : List ℕ → Outcome (List Fragment) → Type 0
Pieces packet (ok fs) = All (IsPieceOf packet) fs
Pieces packet (err e) = Unit
Pieces packet panic = ⊥

abbrev Piece : List ℕ → Outcome Fragment → Type 0
Piece packet (ok f) = IsPieceOf packet f
Piece packet (err e) = Unit
Piece packet panic = ⊥

new-IsPieceOf :
    (packet : List ℕ) (frag : DataFrag) → IsFragOf packet frag → IsPieceOf packet (new frag)
unfolding new concat
new-IsPieceOf packet frag h = record {
  bytes = append-nil frag.payload ∙ h.payload;
  last = λ e. h.last (ground arith);
}

module _ (packet : List ℕ) where
  merge-Piece :
      (f next : Fragment)
      → IsPieceOf packet f
      → IsPieceOf packet next
      → end_of f ≡ next.start
      → Piece packet (merge f next)
  unfolding merge
  merge-Piece f next p q e =
      let meets : (end_of f == next.start) ≡ true = ground arith in
      elim (Bool-cases f.is_last) [
        | inl l ↦ rw (meets, l) tt
        | inr l ↦
            rw (meets, l)
              (record {
                bytes =
                    concat-append f.chunks next.chunks
                    ∙ joined packet _ _ f.start next.start f.size next.size p.bytes q.bytes e;
                last = λ k. omega (arith, q.last k);
              })
      ]

  add_wire_frag-Piece :
      (f : Fragment) (frag : DataFrag)
      → IsPieceOf packet f
      → IsFragOf packet frag
      → (end_offset frag == f.start || end_of f == start_offset frag) ≡ true
      → Piece packet (add_wire_frag f frag)
  unfolding add_wire_frag concat
  add_wire_frag-Piece f frag p h e =
      let n = length frag.payload in
      elim (Bool-cases (f.start == end_offset frag)) [
        | inl before ↦ elim (Bool-cases frag.more_fragments) [
          | inr l ↦ rw (before, l) tt
          | inl l ↦
              rw (before, l)
                (record {
                  bytes =
                      joined packet _ _ frag.offset f.start n f.size h.payload p.bytes
                        (ground arith)
                      ∙ ap (slice packet frag.offset) (omega arith);
                  last = λ k. ground (arith, p.last k);
                })
        ]
        | inr elsewhere ↦
            let meets : (end_of f == start_offset frag) ≡ true = ground arith in
            elim (Bool-cases f.is_last) [
              | inl l ↦ rw (elsewhere, meets, l) tt
              | inr l ↦
                  rw (elsewhere, meets, l)
                    (record {
                      bytes =
                          concat-append f.chunks (frag.payload ∷ [])
                          ∙ joined packet _ _ f.start frag.offset f.size n p.bytes
                              (append-nil frag.payload ∙ h.payload) (ground arith);
                      last = λ k. ground (arith, h.last (ground arith));
                    })
            ]
      ]

  then-Pieces :
      (r : Outcome Fragment) (k : Fragment → Outcome (List Fragment))
      → Piece packet r
      → ((f : Fragment) → IsPieceOf packet f → Pieces packet (k f))
      → Pieces packet (r >>= k)
  unfolding ◌>>=◌
  then-Pieces (ok f) k p next = next f p
  then-Pieces (err e) k p next = tt
  then-Pieces panic k p next = p

  cons-Pieces :
      (r : Outcome (List Fragment)) (f : Fragment)
      → Pieces packet r
      → IsPieceOf packet f
      → Pieces packet (r >>= λ fs. ok (f ∷ fs))
  unfolding ◌>>=◌
  cons-Pieces (ok fs) f ps p = (p, ps)
  cons-Pieces (err e) f ps p = tt
  cons-Pieces panic f ps p = ps

  merge_next-Pieces :
      (f : Fragment) (fs : List Fragment)
      → IsPieceOf packet f
      → All (IsPieceOf packet) fs
      → Pieces packet (merge_next f fs)
  unfolding merge_next
  merge_next-Pieces f [] p ps = (p, tt)
  merge_next-Pieces f (next ∷ rest) p (q, qs) = elim (Bool-cases (end_of f == next.start)) [
    | inl meets ↦
        rw meets
          (then-Pieces (merge f next) _ (merge-Piece f next p q (ground arith)) λ m pm. (pm, qs))
    | inr gap ↦ rw gap (p, (q, qs))
  ]

  insert_frag-Pieces :
      (frag : DataFrag) (fs : List Fragment)
      → IsFragOf packet frag
      → All (IsPieceOf packet) fs
      → Pieces packet (insert_frag frag fs)
  unfolding insert_frag
  insert_frag-Pieces frag [] h ps = (new-IsPieceOf packet frag h, tt)
  insert_frag-Pieces frag (curr ∷ rest) h (p, ps) =
      let overlap = ltb curr.start (end_offset frag) && ltb (start_offset frag) (end_of curr) in
      let touch = end_offset frag == curr.start || end_of curr == start_offset frag in
      elim (Bool-cases overlap) [
        | inl o ↦ rw o tt
        | inr o ↦ elim (Bool-cases (ltb (end_offset frag) curr.start)) [
          | inl b ↦ rw (o, b) (new-IsPieceOf packet frag h, (p, ps))
          | inr b ↦ elim (Bool-cases touch) [
            | inl t ↦
                rw (o, b, t)
                  (then-Pieces (add_wire_frag curr frag) _ (add_wire_frag-Piece curr frag p h t)
                    λ f pf. merge_next-Pieces f rest pf ps)
            | inr t ↦
                rw (o, b, t)
                  (cons-Pieces (insert_frag frag rest) curr (insert_frag-Pieces frag rest h ps) p)
          ]
        ]
      ]

  pub update-Pieces :
      (frag : DataFrag) (fs : List Fragment)
      → IsFragOf packet frag
      → All (IsPieceOf packet) fs
      → Pieces packet (update frag fs)
  unfolding update
  update-Pieces frag fs h ps = elim (Bool-cases (is_empty frag.payload)) [
    | inl e ↦ rw e tt
    | inr e ↦ rw e (insert_frag-Pieces frag fs h ps)
  ]

  pub complete_lem :
      (fs : List Fragment) (bytes : List ℕ)
      → All (IsPieceOf packet) fs
      → try_complete fs ≡ some bytes
      → bytes ≡ packet
  unfolding try_complete is_complete_packet
  complete_lem [] bytes ps e = cc
  complete_lem (f ∷ (g ∷ fs)) bytes ps e = cc
  complete_lem (f ∷ []) bytes (p, _) e = elim (Bool-cases (f.start == 0 && f.is_last)) [
    | inr not_yet ↦ let e' = rw not_yet at e in cc
    | inl whole_packet ↦
        let inj : concat f.chunks ≡ bytes = some-inj (rw whole_packet at e) in
        let at_zero : f.start ≡ 0 = ground arith in
        let whole : f.size ≡ length packet = omega (arith, p.last (ground arith)) in
        sym inj ∙ p.bytes ∙ rw (at_zero, whole) (take-all packet)
  ]
