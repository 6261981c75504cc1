-- ===== src/Fragments/Map.antt =====
-- What the fragment map hands out when fragments of several packets come mixed.
use lightway.Base.{
  ℕ, ◌≡◌, refl, sym, ◌∙◌, subst, inl, inr, List, [], ◌∷◌, All, Option, none, some, ◌==◌, arith,
  Bool-cases,
}
use lightway.Wire.DataFrag.{DataFrag}
use lightway.Fragments.{
  Outcome, ok, err, panic, Fragment, try_complete, FragmentMapResult, complete, incomplete, failed,
  panicked, LruCache, or_new, hand_out, finish, add_fragment,
}
use lightway.Fragments.Reassembly.{IsFragOf, IsPieceOf, Pieces, update-Pieces, complete_lem}

-- A packet that is handed out is the packet that was sent under the fragment's id.
abbrev pub Faithful : (ℕ → List ℕ) → DataFrag → FragmentMapResult → Type 0
Faithful packets frag (complete bytes) = bytes ≡ packets frag.id
Faithful packets frag incomplete = Unit
Faithful packets frag (failed e) = Unit
Faithful packets frag panicked = ⊥

same_entry : {fs gs : List Fragment} → some fs ≡ some gs → fs ≡ gs
same_entry e = ground arith

none_not_some : {fs : List Fragment} → none ≡ some fs → ⊥
none_not_some e = cc

module _ ⦃lru : LruCache⦄ where
  -- Fragments added one after another, and what came of each.
  unfoldable pub deliver : lru.Cache → List DataFrag → List (DataFrag × FragmentMapResult)
  deliver c [] = []
  deliver c (frag ∷ frags) = let done = add_fragment c frag in (frag, done.0) ∷ deliver done.1 frags

  module _ (packets : ℕ → List ℕ) where
    abbrev Holds : lru.Cache → Type 0
    Holds c =
        (id : ℕ) (fs : List Fragment) → lru.get c id ≡ some fs → All (IsPieceOf (packets id)) fs

    stored :
        (c : lru.Cache) (id : ℕ) (fs : List Fragment)
        → Holds c
        → All (IsPieceOf (packets id)) fs
        → Holds (lru.store c id fs)
    stored c id fs h ps j gs e = elim (Bool-cases (id == j)) [
      | inl same ↦
          subst (λ k. lru.get (lru.store c id fs) k ≡ some gs → All (IsPieceOf (packets k)) gs)
            (ground arith)
            (λ k.
              subst (All (IsPieceOf (packets id)))
                (same_entry (sym (lru.get-store_self c id fs) ∙ k)) ps)
            e
      | inr other ↦ elim (lru.get-store_other c id j fs (ground arith)) [
        | inl kept ↦ h j gs (sym kept ∙ e)
        | inr gone ↦ absurd (none_not_some (sym gone ∙ e))
      ]
    ]

    popped : (c : lru.Cache) (id : ℕ) → Holds c → Holds (lru.pop c id)
    popped c id h j gs e = elim (Bool-cases (id == j)) [
      | inl same ↦ absurd (
          subst (λ k. lru.get (lru.pop c id) k ≡ some gs → ⊥) (ground arith)
            (λ k. none_not_some (sym (lru.get-pop_self c id) ∙ k)) e)
      | inr other ↦ h j gs (sym (lru.get-pop_other c id j (ground arith)) ∙ e)
    ]

    hand_out-Holds :
        (c : lru.Cache) (frag : DataFrag) (fs : List Fragment) (o : Option (List ℕ))
        → Holds c
        → All (IsPieceOf (packets frag.id)) fs
        → try_complete fs ≡ o
        → Faithful packets frag (hand_out o c frag.id).0 × Holds (hand_out o c frag.id).1
    unfolding hand_out
    hand_out-Holds c frag fs none h ps e = (tt, h)
    hand_out-Holds c frag fs (some bytes) h ps e =
        (complete_lem (packets frag.id) fs bytes ps e, popped c frag.id h)

    finish-Holds :
        (c : lru.Cache) (frag : DataFrag) (r : Outcome (List Fragment))
        → Holds c
        → Pieces (packets frag.id) r
        → Faithful packets frag (finish c frag.id r).0 × Holds (finish c frag.id r).1
    unfolding finish
    finish-Holds c frag (err e) h ps = (tt, popped c frag.id h)
    finish-Holds c frag panic h ps = absurd ps
    finish-Holds c frag (ok fs) h ps =
        hand_out-Holds _ frag fs (try_complete fs) (stored c frag.id fs h ps) ps refl

    or_new-Pieces :
        (o : Option (List Fragment)) (c : lru.Cache) (id : ℕ)
        → Holds c
        → lru.get c id ≡ o
        → All (IsPieceOf (packets id)) (or_new o)
    unfolding or_new
    or_new-Pieces none c id h e = tt
    or_new-Pieces (some fs) c id h e = h id fs e

    add_fragment-Holds :
        (c : lru.Cache) (frag : DataFrag)
        → Holds c
        → IsFragOf (packets frag.id) frag
        → Faithful packets frag (add_fragment c frag).0 × Holds (add_fragment c frag).1
    unfolding add_fragment
    add_fragment-Holds c frag h f =
        let fs = or_new (lru.get c frag.id) in
        let ps = or_new-Pieces (lru.get c frag.id) c frag.id h refl in
        finish-Holds _ frag _ (stored c frag.id fs h ps)
          (update-Pieces (packets frag.id) frag fs f ps)

    deliver-Holds :
        (c : lru.Cache) (frags : List DataFrag)
        → Holds c
        → All (λ f. IsFragOf (packets f.id) f) frags
        → All (λ r. Faithful packets r.0 r.1) (deliver c frags)
    unfolding deliver
    deliver-Holds c [] h fs = tt
    deliver-Holds c (frag ∷ frags) h (f, fs) =
        let (now, after) = add_fragment-Holds c frag h f in
        (now, deliver-Holds (add_fragment c frag).1 frags after fs)

    -- Where every fragment that is added to an empty map is a slice of the packet sent under its id, and
    -- is marked as the last only at the packet's end, every packet that the map hands out is the one that
    -- was sent: in whatever order the fragments come, repeated or overlapping, and whatever the cache
    -- has evicted. No assertion fails.
    pub deliver-Faithful :
        (c : lru.Cache) (frags : List DataFrag)
        → ((id : ℕ) → lru.get c id ≡ none)
        → All (λ f. IsFragOf (packets f.id) f) frags
        → All (λ r. Faithful packets r.0 r.1) (deliver c frags)
    deliver-Faithful c frags e fs =
        deliver-Holds c frags (λ id gs k. absurd (none_not_some (sym (e id) ∙ k))) fs
