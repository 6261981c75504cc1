-- ===== src/Base/Maps.antt =====
-- Association lists keyed by numbers, for hash maps whose order nothing reads.
use lightway.Base.{
  ℕ, ◌≡◌, refl, ◌∙◌, inl, inr, List, [], ◌∷◌, Option, none, some, ◌==◌, if◌then◌else◌, arith,
  Bool-cases,
}

module _ {T : Type 0} where
  -- `HashMap::get`, `remove` and `insert`.
  unfoldable pub find : ℕ → List (ℕ × T) → Option T
  find key [] = none
  find key (entry ∷ rest) = if entry.0 == key then some entry.1 else find key rest

  unfoldable pub remove_key : ℕ → List (ℕ × T) → List (ℕ × T)
  remove_key key [] = []
  remove_key key (entry ∷ rest) =
      let others = remove_key key rest in if entry.0 == key then others else entry ∷ others

  unfoldable pub insert_key : ℕ → T → List (ℕ × T) → List (ℕ × T)
  insert_key key value entries = (key, value) ∷ remove_key key entries

  pub find-remove_key :
      (key j : ℕ) (entries : List (ℕ × T))
      → find j (remove_key key entries) ≡ (if key == j then none else find j entries)
  unfolding find remove_key
  find-remove_key key j [] = ground arith
  find-remove_key key j (entry ∷ rest) = elim (Bool-cases (entry.0 == key)) [
    | inl same ↦ rw same (ground (arith, find-remove_key key j rest))
    | inr other ↦ rw other (ground (arith, find-remove_key key j rest))
  ]

  pub find-insert_key :
      (key j : ℕ) (value : T) (entries : List (ℕ × T))
      → find j (insert_key key value entries) ≡ (if key == j then some value else find j entries)
  unfolding find insert_key
  find-insert_key key j value entries = elim (Bool-cases (key == j)) [
    | inl same ↦ rw same refl
    | inr other ↦ rw other (find-remove_key key j entries ∙ rw other refl)
  ]
