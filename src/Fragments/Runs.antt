-- ===== src/Fragments/Runs.antt =====
-- Fragments of two packets delivered mixed.
use lightway.Base.{ℕ, ◌≡◌, refl, true, false, List, [], ◌∷◌, All, none, ◌==◌, if◌then◌else◌}
use lightway.Wire.DataFrag.{DataFrag}
use lightway.Fragments.{
  ok, update, insert_frag, is_empty, add_wire_frag, merge_next, ◌>>=◌, Fragment,
}
use lightway.Fragments.Reassembly.{IsFragOf}
use lightway.Fragments.Cache.{slots}
use lightway.Fragments.Map.{deliver, Faithful, deliver-Faithful}

abbrev packets : ℕ → List ℕ
packets id = if id == 1 then 10 ∷ 11 ∷ 12 ∷ [] else 20 ∷ 21 ∷ []

abbrev tail_of_1 : DataFrag
tail_of_1 = record { id = 1; offset = 2; more_fragments = false; payload = 12 ∷ [] }

abbrev all_of_2 : DataFrag
all_of_2 = record { id = 2; offset = 0; more_fragments = false; payload = 20 ∷ 21 ∷ [] }

abbrev head_of_1 : DataFrag
head_of_1 = record { id = 1; offset = 0; more_fragments = true; payload = 10 ∷ 11 ∷ [] }

abbrev mixed : List DataFrag
mixed = tail_of_1 ∷ all_of_2 ∷ head_of_1 ∷ []

mixed-IsFragOf : All (λ f. IsFragOf (packets f.id) f) mixed
mixed-IsFragOf = (
  record { payload = refl; last = λ e. refl },
  (record { payload = refl; last = λ e. refl }, (record { payload = refl; last = λ e. cc }, tt)),
)

abbrev stored_piece : ℕ → Fragment
stored_piece start = record { start = start; size = 1; is_last = false; chunks = (7 ∷ []) ∷ [] }

-- A fragment that begins where a stored one ends is not compared with the stored one after that: here
-- both hold byte 2 afterwards.
overlap_accepted :
    update
      (record { id = 1; offset = 1; more_fragments = true; payload = 7 ∷ 7 ∷ [] })
      (stored_piece 0 ∷ stored_piece 2 ∷ [])
    ≡ ok (
        record (stored_piece 0) { size = 3; chunks = (7 ∷ []) ∷ (7 ∷ 7 ∷ []) ∷ [] }
        ∷ stored_piece 2
        ∷ [])
unfolding update insert_frag is_empty add_wire_frag merge_next ◌>>=◌
overlap_accepted = refl

deliver-Faithful_example :
    All (λ r. Faithful packets r.0 r.1) (deliver ⦃lru = slots⦄ (λ id. none) mixed)
deliver-Faithful_example =
    deliver-Faithful ⦃lru = slots⦄ packets (λ id. none) mixed (λ id. refl) mixed-IsFragOf
