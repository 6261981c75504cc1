-- ===== src/Fragments/Insertion.antt =====
-- lightway-core/src/connection/fragment_map.rs: inserting a fragment that overlaps nothing stored.
use lightway.Base.{
  ℕ, suc, ◌+◌, ◌≤◌, ◌<◌, ◌≡◌, refl, inl, inr, max, Bool, true, false, not, ◌&&◌, ◌||◌, List, [],
  ◌∷◌, ◌++◌, length, All, ltb, leb, ◌==◌, arith, Bool-cases,
}
use lightway.Wire.DataFrag.{DataFrag, start_offset, end_offset}
use lightway.Fragments.{
  Outcome, ok, ◌>>=◌, Fragment, new, end_of, merge, add_wire_frag, merge_next, insert_frag,
}

abbrev pub within : ℕ → ℕ → ℕ → Bool
within low high x = leb low x && ltb x high

-- Whether byte `x` is in the fragment, and in one of those stored.
abbrev pub in_frag : DataFrag → ℕ → Bool
in_frag frag x = within frag.offset (end_offset frag) x

unfoldable pub held : List Fragment → ℕ → Bool
held [] x = false
held (f ∷ fs) x = within f.start (end_of f) x || held fs x

-- A fragment of a packet of `n` bytes: not empty, and marked as the last just where the packet ends.
pub record IsPart (n : ℕ) (frag : DataFrag) : Type 0 where
  pub some_bytes : 0 < length frag.payload
  pub inside : end_offset frag ≤ n
  pub last : frag.more_fragments ≡ not (end_offset frag == n)

pub record IsTidy (n : ℕ) (f : Fragment) : Type 0 where
  pub some_bytes : 0 < f.size
  pub inside : end_of f ≤ n
  pub last : f.is_last ≡ (end_of f == n)

-- In order, with gaps between them, from `low` on.
abbrev pub Separated : ℕ → List Fragment → Type 0
Separated low [] = Unit
Separated low (f ∷ fs) = (low ≤ f.start) × Separated (suc (end_of f)) fs

weaken : (low high : ℕ) (fs : List Fragment) → low ≤ high → Separated high fs → Separated low fs
weaken low high [] h s = tt
weaken low high (f ∷ fs) h (l, s) = (omega arith, s)

-- What an insertion gives.
pub record Inserted (n low : ℕ) (frag : DataFrag) (fs : List Fragment) (r : Outcome (List Fragment))
    : Type 0 where
  pub after : List Fragment
  pub result : r ≡ ok after
  pub separated : Separated low after
  pub tidy : All (IsTidy n) after
  pub holds : (x : ℕ) → held after x ≡ in_frag frag x || held fs x

new-IsTidy : (n : ℕ) (frag : DataFrag) → IsPart n frag → IsTidy n (new frag)
unfolding new
new-IsTidy n frag p = record {
  some_bytes = p.some_bytes;
  inside = p.inside;
  last = ground (arith, p.last);
}

-- A fragment that has grown at its end: it joins the next where they meet.
merge_next-Inserted :
    (n low : ℕ) (frag : DataFrag) (f g : Fragment) (rest : List Fragment)
    → IsTidy n g
    → All (IsTidy n) rest
    → low ≤ g.start
    → Separated (end_of g) rest
    → ((x : ℕ) → within g.start (end_of g) x ≡ in_frag frag x || within f.start (end_of f) x)
    → Inserted n low frag (f ∷ rest) (merge_next g rest)
unfolding merge_next merge held ◌>>=◌
merge_next-Inserted n low frag f g [] t ts l s h = record {
  after = g ∷ [];
  result = refl;
  separated = (l, tt);
  tidy = (t, tt);
  holds = λ x. ground (arith, h x);
}
merge_next-Inserted n low frag f g (next ∷ rest) t (tn, ts) l (sn, s) h =
    elim (Bool-cases (end_of g == next.start)) [
      | inl meets ↦
          let more : g.is_last ≡ false = ground (arith, t.last, tn.some_bytes, tn.inside) in
          record {
            after =
                record g {
                  size = g.size + next.size;
                  is_last = next.is_last;
                  chunks = g.chunks ++ next.chunks;
                }
                ∷ rest;
            result = rw (meets, more) refl;
            separated = (
              l,
              weaken (suc (g.start + (g.size + next.size))) (suc (end_of next)) rest (ground arith)
                  s,
            );
            tidy = (
              record {
                some_bytes = omega (arith, t.some_bytes);
                inside = ground (arith, tn.inside);
                last = ground (arith, tn.last);
              },
              ts,
            );
            holds = λ x. ground (arith, h x);
          }
      | inr gap ↦ record {
        after = g ∷ (next ∷ rest);
        result = rw gap refl;
        separated = (l, (ground arith, s));
        tidy = (t, (tn, ts));
        holds = λ x. ground (arith, h x);
      }
    ]

-- Nothing is stored below what the fragments are separated from.
pub held_below :
    (low : ℕ) (fs : List Fragment) (x : ℕ) → Separated low fs → x < low → held fs x ≡ false
unfolding held
held_below low [] x s h = refl
held_below low (f ∷ fs) x (l, s) h = ground (arith, held_below (suc (end_of f)) fs x s)

module _ (n : ℕ) (frag : DataFrag) (part : IsPart n frag) where
  -- What lies behind the start of the fragment lies behind its end.
  beyond :
      (fs : List Fragment)
      → Separated (suc frag.offset) fs
      → All (IsTidy n) fs
      → ((x : ℕ) → in_frag frag x ≡ true → held fs x ≡ false)
      → Separated (end_offset frag) fs
  unfolding held
  beyond [] s ts apart = tt
  beyond (f ∷ fs) (l, s) (t, ts) apart = (ground (arith, apart f.start, t.some_bytes), s)

  -- A fragment that starts where a stored one ends, or ends where it starts.
  grow-Inserted :
      (low : ℕ) (curr : Fragment) (rest : List Fragment)
      → Separated low (curr ∷ rest)
      → All (IsTidy n) (curr ∷ rest)
      → low ≤ frag.offset
      → ((x : ℕ) → in_frag frag x ≡ true → held (curr ∷ rest) x ≡ false)
      → (end_offset frag == curr.start || end_of curr == start_offset frag) ≡ true
      → Inserted n low frag
          (curr ∷ rest)
          (add_wire_frag curr frag >>= λ grown. merge_next grown rest)
  unfolding add_wire_frag ◌>>=◌ held
  grow-Inserted low curr rest (l, s) (t, ts) m apart touch =
      elim (Bool-cases (curr.start == end_offset frag)) [
        | inl before ↦
            let more : frag.more_fragments ≡ true =
              ground (arith, part.last, t.some_bytes, t.inside) in
            let g : Fragment = record curr {
              start = frag.offset;
              size = curr.size + length frag.payload;
              chunks = frag.payload ∷ curr.chunks;
            } in
            simp (before, more)
              (merge_next-Inserted n low frag curr g rest
                (record {
                  some_bytes = omega (arith, t.some_bytes);
                  inside = ground (arith, t.inside);
                  last = ground (arith, t.last);
                })
                ts m (weaken (end_of g) (suc (end_of curr)) rest (ground arith) s)
                (λ x. ground (arith, part.some_bytes, t.some_bytes)))
        | inr other ↦
            let meets : (end_of curr == start_offset frag) ≡ true = ground arith in
            let open_end : curr.is_last ≡ false =
              ground (arith, t.last, part.some_bytes, part.inside) in
            let g : Fragment = record curr {
              size = curr.size + length frag.payload;
              chunks = curr.chunks ++ (frag.payload ∷ []);
              is_last = not frag.more_fragments;
            } in
            simp (other, meets, open_end)
              (merge_next-Inserted n low frag curr g rest
                (record {
                  some_bytes = omega (arith, t.some_bytes);
                  inside = ground (arith, part.inside);
                  last = ground (arith, part.last);
                })
                ts l
                (weaken (end_of g) (end_offset frag) rest (ground arith) (
                  beyond rest (weaken (suc frag.offset) (suc (end_of curr)) rest (ground arith) s)
                    ts (λ x h. ground (arith, apart x h))))
                (λ x. ground (arith, part.some_bytes, t.some_bytes)))
      ]

  -- An insertion behind the first of the fragments.
  deeper :
      (low : ℕ) (curr : Fragment) (rest : List Fragment) (r : Outcome (List Fragment))
      → low ≤ curr.start
      → IsTidy n curr
      → Inserted n (suc (end_of curr)) frag rest r
      → Inserted n low frag (curr ∷ rest) (r >>= λ fs. ok (curr ∷ fs))
  unfolding ◌>>=◌ held
  deeper low curr rest r l t deep = record {
    after = curr ∷ deep.after;
    result = rw deep.result refl;
    separated = (l, deep.separated);
    tidy = (t, deep.tidy);
    holds = λ x. ground (arith, deep.holds x);
  }

  pub insert_frag-Inserted :
      (low : ℕ) (fs : List Fragment)
      → Separated low fs
      → All (IsTidy n) fs
      → low ≤ frag.offset
      → ((x : ℕ) → in_frag frag x ≡ true → held fs x ≡ false)
      → Inserted n low frag fs (insert_frag frag fs)
  unfolding insert_frag held new ◌>>=◌
  insert_frag-Inserted low [] s ts m apart = record {
    after = new frag ∷ [];
    result = refl;
    separated = (m, tt);
    tidy = (new-IsTidy n frag part, tt);
    holds = λ x. refl;
  }
  insert_frag-Inserted low (curr ∷ rest) (l, s) (t, ts) m apart =
      let overlap : (ltb curr.start (end_offset frag) && ltb (start_offset frag) (end_of curr))
          ≡ false =
        ground (arith, apart (max curr.start frag.offset), part.some_bytes, t.some_bytes) in
      let touch = end_offset frag == curr.start || end_of curr == start_offset frag in
      elim (Bool-cases (ltb (end_offset frag) curr.start)) [
        | inl before ↦
            simp (overlap, before)
              (record {
                after = new frag ∷ (curr ∷ rest);
                result = refl;
                separated = (m, (ground arith, s));
                tidy = (new-IsTidy n frag part, (t, ts));
                holds = λ x. refl;
              })
        | inr later ↦ elim (Bool-cases touch) [
          | inl t' ↦
              simp (overlap, later, t') (grow-Inserted low curr rest (l, s) (t, ts) m apart t')
          | inr apart_from ↦
              let deep =
                insert_frag-Inserted (suc (end_of curr)) rest s ts (ground arith)
                  (λ x h. ground (arith, apart x h)) in
              simp (overlap, later, apart_from)
                (deeper low curr rest (insert_frag frag rest) l t deep)
        ]
      ]
