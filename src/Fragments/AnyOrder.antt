-- ===== src/Fragments/AnyOrder.antt =====
-- lightway-core/src/connection/fragment_map.rs: all fragments of a packet, in whatever order.
use lightway.Base.{
  ℕ, suc, ◌-◌, ◌≤◌, ◌<◌, ◌≡◌, ◌⊎◌, refl, ap, ◌∙◌, subst, inl, inr, Bool, true, false, ◌&&◌, ◌||◌,
  List, [], ◌∷◌, ◌++◌, none, some, map, replicate, length, All, ◌==◌, arith,
}
use mathlib.Core.List.{Permᴰ}
use lightway.Wire.DataFrag.{DataFrag, end_offset}
use lightway.Fragments.{
  ok, Fragment, end_of, is_complete_packet, is_empty, update, concat, try_complete, complete,
  incomplete, LruCache, or_new, hand_out, finish, add_fragment,
}
use lightway.Fragments.Reassembly.{IsFragOf, IsPieceOf, Pieces, update-Pieces, complete_lem, slice}
use lightway.Fragments.Insertion.{
  within, in_frag, held, held_below, IsPart, IsTidy, Separated, insert_frag-Inserted,
}
use lightway.Fragments.Map.{deliver}

-- Whether byte `x` is in one of the fragments.
unfoldable pub covers : List DataFrag → ℕ → Bool
covers [] x = false
covers (frag ∷ frags) x = in_frag frag x || covers frags x

abbrev pub Off : DataFrag → DataFrag → Type 0
Off f g = (end_offset f ≤ g.offset) ⊎ (end_offset g ≤ f.offset)

abbrev pub Apart : List DataFrag → Type 0
Apart [] = Unit
Apart (f ∷ frags) = All (Off f) frags × Apart frags

-- A fragment of the packet under its id, with bytes, marked as the last just where the packet ends.
pub record IsPartOf (id : ℕ) (packet : List ℕ) (frag : DataFrag) : Type 0 where
  pub same_id : frag.id ≡ id
  pub part : IsPart (length packet) frag
  pub payload : frag.payload ≡ slice packet frag.offset (length frag.payload)

has_bytes : (xs : List ℕ) → 0 < length xs → is_empty xs ≡ false
unfolding is_empty
has_bytes [] h = absurd (omega arith)
has_bytes (x ∷ xs) h = refl

module _ (packet : List ℕ) where
  -- What is stored of the packet.
  record Stored (fs : List Fragment) : Type 0 where
    separated : Separated 0 fs
    tidy : All (IsTidy (length packet)) fs
    pieces : All (IsPieceOf packet) fs

  IsPartOf-IsFragOf : (id : ℕ) (frag : DataFrag) → IsPartOf id packet frag → IsFragOf packet frag
  IsPartOf-IsFragOf id frag p = record {
    payload = p.payload;
    last = λ e. ground (arith, p.part.last);
  }

  gap-incomplete :
      (fs : List Fragment) (x : ℕ)
      → All (IsTidy (length packet)) fs
      → x < length packet
      → held fs x ≡ false
      → try_complete fs ≡ none
  unfolding try_complete is_complete_packet held
  gap-incomplete [] x ts h gap = refl
  gap-incomplete (f ∷ []) x (t, _) h gap = ground (arith, t.last)
  gap-incomplete (f ∷ (g ∷ fs)) x ts h gap = refl

  full_complete :
      (fs : List Fragment)
      → Stored fs
      → 0 < length packet
      → ((x : ℕ) → x < length packet → held fs x ≡ true)
      → try_complete fs ≡ some packet
  unfolding held try_complete is_complete_packet
  full_complete [] s pos full = cc (full 0 pos)
  full_complete (f ∷ []) s pos full =
      let t = s.tidy.0 in
      let whole : (f.start == 0 && f.is_last) ≡ true =
        ground (arith, full 0, full (end_of f), t.last, t.inside) in
      let found : try_complete (f ∷ []) ≡ some (concat f.chunks) = rw whole refl in
      found ∙ ap some (complete_lem packet (f ∷ []) (concat f.chunks) s.pieces found)
  full_complete (f ∷ (g ∷ fs)) s pos full =
      let (l, (m, more)) = s.separated in
      let inside : end_of f < length packet =
        omega (arith, s.tidy.1.0.some_bytes, s.tidy.1.0.inside) in
      let gap : held (f ∷ (g ∷ fs)) (end_of f) ≡ false =
        ground (arith, held_below (suc (end_of g)) fs (end_of f) more) in
      cc (full (end_of f) inside, gap)

  module _ (id : ℕ) (frag : DataFrag) (p : IsPartOf id packet frag) where
    -- What an update leaves, where the fragment overlaps nothing that is stored.
    record Updated (fs : List Fragment) : Type 0 where
      after : List Fragment
      result : update frag fs ≡ ok after
      stored : Stored after
      holds : (x : ℕ) → held after x ≡ in_frag frag x || held fs x

    not_empty : is_empty frag.payload ≡ false
    not_empty = has_bytes frag.payload p.part.some_bytes

    update-Updated :
        (fs : List Fragment)
        → Stored fs
        → ((x : ℕ) → in_frag frag x ≡ true → held fs x ≡ false)
        → Updated fs
    unfolding update
    update-Updated fs s apart =
        let ins =
          insert_frag-Inserted (length packet) frag p.part 0 fs s.separated s.tidy (omega arith)
            apart in
        let found : update frag fs ≡ ok ins.after = rw not_empty ins.result in
        record {
          after = ins.after;
          result = found;
          stored = record {
            separated = ins.separated;
            tidy = ins.tidy;
            pieces =
                subst (Pieces packet) found
                  (update-Pieces packet frag fs (IsPartOf-IsFragOf id frag p) s.pieces);
          };
          holds = ins.holds;
        }

-- What does not depend on the order of the fragments.
module _ {κ} (P : DataFrag → Type κ) where
  All-Perm : {fs gs : List DataFrag} → Permᴰ fs gs → All P fs → All P gs
  All-Perm Permᴰ.nil h = h
  All-Perm (Permᴰ.cons e d) (h, hs) = (subst P e h, All-Perm d hs)
  All-Perm (Permᴰ.swap e e') (h, (h', hs)) = (subst P e' h', (subst P e h, hs))
  All-Perm (Permᴰ.trans d d') h = All-Perm d' (All-Perm d h)

Off-symm : (f g : DataFrag) → Off f g → Off g f
Off-symm f g (inl h) = inr h
Off-symm f g (inr h) = inl h

Apart-Perm : {fs gs : List DataFrag} → Permᴰ fs gs → Apart fs → Apart gs
Apart-Perm Permᴰ.nil h = h
Apart-Perm (Permᴰ.cons {a = a} {l₂ = l₂} e d) (h, hs) =
    (subst (λ f. All (Off f) l₂) e (All-Perm (Off a) d h), Apart-Perm d hs)
Apart-Perm (Permᴰ.swap {a = a} {b = b} {b' = b'} {l = l} e e') ((h, hs), (h', hs')) = (
  (
    subst (λ f. Off f b') e' (subst (λ g. Off b g) e (Off-symm a b h)),
    subst (λ f. All (Off f) l) e' h',
  ),
  (subst (λ f. All (Off f) l) e hs, hs'),
)
Apart-Perm (Permᴰ.trans d d') h = Apart-Perm d' (Apart-Perm d h)

covers-Perm : {fs gs : List DataFrag} → Permᴰ fs gs → (x : ℕ) → covers fs x ≡ covers gs x
unfolding covers
covers-Perm Permᴰ.nil x = refl
covers-Perm (Permᴰ.cons {a = a} {b = b} {l₂ = l₂} e d) x =
    ap (λ t. in_frag a x || t) (covers-Perm d x) ∙ ap (λ f. in_frag f x || covers l₂ x) e
covers-Perm (Permᴰ.swap {a = a} {b = b} {a' = a'} {b' = b'} {l = l} e e') x =
    ground (arith, (ap (λ f. in_frag f x) e), (ap (λ f. in_frag f x) e'))
covers-Perm (Permᴰ.trans d d') x = covers-Perm d x ∙ covers-Perm d' x

module _ ⦃lru : LruCache⦄ (packet : List ℕ) (id : ℕ) where
  add_fragment-ok :
      (c : lru.Cache) (frag : DataFrag) (fs after : List Fragment)
      → frag.id ≡ id
      → or_new (lru.get c id) ≡ fs
      → update frag fs ≡ ok after
      → add_fragment c frag
        ≡ hand_out (try_complete after) (lru.store (lru.store c id fs) id after) id
  unfolding add_fragment finish
  add_fragment-ok c frag fs after same found updated =
      ap (λ k. finish (lru.store c k (or_new (lru.get c k))) k (update frag (or_new (lru.get c k))))
        same
      ∙ ap (λ gs. finish (lru.store c id gs) id (update frag gs)) found
      ∙ ap (finish (lru.store c id fs) id) updated

  -- Nothing that is stored overlaps a fragment.
  abbrev Free : List Fragment → DataFrag → Type 0
  Free fs g = (x : ℕ) → in_frag g x ≡ true → held fs x ≡ false

  Free-after :
      (fs after : List Fragment) (frag : DataFrag) (frags : List DataFrag)
      → ((x : ℕ) → held after x ≡ in_frag frag x || held fs x)
      → All (Off frag) frags
      → All (Free fs) frags
      → All (Free after) frags
  Free-after fs after frag [] h off free = tt
  Free-after fs after frag (g ∷ frags) h (o, off) (f, free) =
      (λ x e. ground (arith, h x, o, f x e), Free-after fs after frag frags h off free)

  or_new-store :
      (c : lru.Cache) (fs after : List Fragment)
      → or_new (lru.get (lru.store (lru.store c id fs) id after) id) ≡ after
  unfolding or_new
  or_new-store c fs after = ap or_new (lru.get-store_self (lru.store c id fs) id after)

  deliver_parts_to :
      (c : lru.Cache) (fs : List Fragment) (frag : DataFrag) (frags : List DataFrag)
      → or_new (lru.get c id) ≡ fs
      → Stored packet fs
      → 0 < length packet
      → All (IsPartOf id packet) (frag ∷ frags)
      → Apart (frag ∷ frags)
      → All (Free fs) (frag ∷ frags)
      → ((x : ℕ) → x < length packet → held fs x || covers (frag ∷ frags) x ≡ true)
      → map (λ r. r.1) (deliver c (frag ∷ frags))
        ≡ replicate (length frags) incomplete ++ (complete packet ∷ [])
  unfolding deliver covers hand_out
  deliver_parts_to c fs frag [] found s pos (p, _) apart (f, _) cover =
      let up = update-Updated packet id frag p fs s f in
      let added = add_fragment-ok c frag fs up.after p.same_id found up.result in
      let whole : try_complete up.after ≡ some packet =
        full_complete packet up.after up.stored pos
          (λ x h. ground (arith, up.holds x, cover x h)) in
      rw (added, whole) refl
  deliver_parts_to c fs frag (g ∷ frags) found s pos (p, (q, ps)) (off, apart) (f, free) cover =
      let up = update-Updated packet id frag p fs s f in
      let added = add_fragment-ok c frag fs up.after p.same_id found up.result in
      let free' = Free-after fs up.after frag (g ∷ frags) up.holds off free in
      let inside : g.offset < length packet = omega (arith, q.part.some_bytes, q.part.inside) in
      let there : in_frag g g.offset ≡ true = ground (arith, q.part.some_bytes) in
      let not_yet : try_complete up.after ≡ none =
        gap-incomplete packet up.after g.offset up.stored.tidy inside (free'.0 g.offset there) in
      let rest =
        deliver_parts_to (lru.store (lru.store c id fs) id up.after) up.after g frags
          (or_new-store c fs up.after) up.stored pos (q, ps) apart free'
          (λ x h. ground (arith, up.holds x, cover x h)) in
      rw (added, not_yet) (ap (◌∷◌ incomplete) rest)

  nothing-Stored : Stored packet []
  nothing-Stored = record { separated = tt; tidy = tt; pieces = tt }

  Free-nothing : (frags : List DataFrag) → All (Free []) frags
  unfolding held
  Free-nothing [] = tt
  Free-nothing (g ∷ frags) = (λ x e. refl, Free-nothing frags)

  -- Fragments that part a packet among them, delivered in any order.
  pub deliver_parts :
      (c : lru.Cache) (frags arrived : List DataFrag)
      → lru.get c id ≡ none
      → 0 < length packet
      → Permᴰ frags arrived
      → All (IsPartOf id packet) frags
      → Apart frags
      → ((x : ℕ) → covers frags x ≡ within 0 (length packet) x)
      → map (λ r. r.1) (deliver c arrived)
        ≡ replicate (length arrived - 1) incomplete ++ (complete packet ∷ [])
  unfolding covers held or_new
  deliver_parts c frags [] fresh pos shuffled parts apart cover =
      let none_there : covers frags 0 ≡ false = covers-Perm shuffled 0 in
      let there : within 0 (length packet) 0 ≡ true = ground (arith, pos) in cc (cover 0)
  deliver_parts c frags (g ∷ gs) fresh pos shuffled parts apart cover =
      let count : suc (length gs) - 1 ≡ length gs = omega arith in
      rw count (
        deliver_parts_to c [] g gs (ap or_new fresh) nothing-Stored pos
          (All-Perm (IsPartOf id packet) shuffled parts) (Apart-Perm shuffled apart)
          (Free-nothing (g ∷ gs)) (λ x h. ground (arith, cover x, covers-Perm shuffled x)))
