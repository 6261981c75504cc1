-- ===== src/Replay/Runs.antt =====
-- Runs of the replay window, and its theorems at concrete inputs.
use lightway.Base.{ℕ, ◌≡◌, refl, true, false, not, List, [], ◌∷◌}
use lightway.Replay.{
  default, would_reject, commit, is_set, set_slot, clear_slot, clear_slots, advance,
}
use lightway.Replay.History.{run, accepted, promised, admissible, run-promised, commit_once}

abbrev reordered : List ℕ
reordered = 100 ∷ 98 ∷ 99 ∷ 98 ∷ 0 ∷ []

reordered_answers : (run default reordered).1 ≡ true ∷ true ∷ true ∷ false ∷ false ∷ []
unfolding run default commit would_reject advance is_set set_slot clear_slots clear_slot
reordered_answers = refl

-- The slot that a counter of the previous lap used is free again after a large jump.
abbrev lapped : List ℕ
lapped = 1 ∷ 1000000 ∷ 1 ∷ 999999 ∷ 991809 ∷ 991808 ∷ []

lapped_answers : (run default lapped).1 ≡ true ∷ true ∷ false ∷ true ∷ true ∷ false ∷ []
unfolding run default commit would_reject advance is_set set_slot clear_slots clear_slot
lapped_answers = refl

run-promised_example :
    ((run default lapped).1 ≡ promised [] lapped)
    × (would_reject (run default lapped).0 991810 ≡ not (admissible (accepted [] lapped) 991810))
run-promised_example = run-promised lapped 991810

accepts_98 : (commit (run default (100 ∷ [])).0 98).1 ≡ true
unfolding run default commit would_reject advance is_set set_slot clear_slots clear_slot
accepts_98 = refl

commit_once_example :
    (commit (run (commit (run default (100 ∷ [])).0 98).0 (8000 ∷ 99 ∷ [])).0 98).1 ≡ false
commit_once_example = commit_once (100 ∷ []) (8000 ∷ 99 ∷ []) 98 accepts_98
