-- ===== src/Dplpmtud/Runs.antt =====
-- The path MTU manager and its theorems at concrete inputs.
use lightway.Base.{ℕ, refl, arith}
use lightway.Dplpmtud.{Dplpmtud, new, online, step, ponged}
use lightway.Dplpmtud.Invariant.{IsWellFormed, Keeps, step-Keeps}
use lightway.Dplpmtud.Rounds.{Converged, after}
use lightway.Dplpmtud.Convergence.{search_converges}

abbrev started : Dplpmtud
started = record (new 1250 1419) { plpmtu = 1300 }

started-IsWellFormed : IsWellFormed started
unfolding new
started-IsWellFormed =
    ((omega arith, omega arith, omega arith, omega arith, omega arith), (refl, refl))

-- A pong that no probe asked for.
step-Keeps_example : Keeps (step (ponged 7) started)
step-Keeps_example = step-Keeps (ponged 7) started started-IsWellFormed

search_converges_example : (n : ℕ) × Converged 1400 (after n 1400 (online (new 1250 1419)).1)
search_converges_example =
    search_converges 1250 1419 1400 (omega arith) (omega arith) (omega arith) (omega arith)
