-- ===== src/Base/Weights.antt =====
-- Sums over the values of an association list.
use lightway.Base.{
  ℕ, ◌+◌, ◌≡◌, refl, ap, ◌∙◌, inl, inr, List, [], ◌∷◌, none, some, ◌==◌, true, arith, Bool-cases,
}
use lightway.Base.Maps.{find, remove_key, insert_key, find-remove_key}

module _ {T : Type 0} where
  -- Every key occurs once.
  abbrev pub UniqueKeys : List (ℕ × T) → Type 0
  UniqueKeys [] = Unit
  UniqueKeys (entry ∷ rest) = (find entry.0 rest ≡ none) × UniqueKeys rest

  remove_key-absent :
      (key : ℕ) (entries : List (ℕ × T))
      → find key entries ≡ none
      → remove_key key entries ≡ entries
  unfolding find remove_key
  remove_key-absent key [] e = refl
  remove_key-absent key (entry ∷ rest) e = elim (Bool-cases (entry.0 == key)) [
    | inl same ↦ ground arith
    | inr other ↦ rw other (ap (◌∷◌ entry) (remove_key-absent key rest (rw other at e)))
  ]

  remove_key-UniqueKeys :
      (key : ℕ) (entries : List (ℕ × T)) → UniqueKeys entries → UniqueKeys (remove_key key entries)
  unfolding remove_key
  remove_key-UniqueKeys key [] u = u
  remove_key-UniqueKeys key (entry ∷ rest) (absent, u) = elim (Bool-cases (entry.0 == key)) [
    | inl same ↦ rw same (remove_key-UniqueKeys key rest u)
    | inr other ↦ rw other (
      find-remove_key key entry.0 rest ∙ ground (arith, absent),
      remove_key-UniqueKeys key rest u,
    )
  ]

  pub insert_key-UniqueKeys :
      (key : ℕ) (value : T) (entries : List (ℕ × T))
      → UniqueKeys entries
      → UniqueKeys (insert_key key value entries)
  unfolding insert_key
  insert_key-UniqueKeys key value entries u = (
    let self : (key == key) ≡ true = ground arith in find-remove_key key key entries ∙ rw self refl,
    remove_key-UniqueKeys key entries u,
  )

  -- The weights of the values, added up.
  unfoldable pub sum : (T → ℕ) → List (ℕ × T) → ℕ
  sum weight [] = 0
  sum weight (entry ∷ rest) = weight entry.1 + sum weight rest

  pub sum-remove_key :
      (weight : T → ℕ) (key : ℕ) (value : T) (entries : List (ℕ × T))
      → UniqueKeys entries
      → find key entries ≡ some value
      → sum weight entries ≡ weight value + sum weight (remove_key key entries)
  unfolding sum find remove_key
  sum-remove_key weight key value [] u e = cc
  sum-remove_key weight key value (entry ∷ rest) (absent, u) e =
      elim (Bool-cases (entry.0 == key)) [
        | inl same ↦
            let is : key ≡ entry.0 = ground arith in
            let gone : find key rest ≡ none = ap (λ k. find k rest) is ∙ absent in
            let now : some entry.1 ≡ some value = rw same at e in
            let heavy : weight entry.1 ≡ weight value = cc in
            rw (same, remove_key-absent key rest gone) (ap (λ (w : ℕ). w + sum weight rest) heavy)
        | inr other ↦
            let ih = sum-remove_key weight key value rest u (rw other at e) in
            rw other (omega (arith, ih))
      ]
