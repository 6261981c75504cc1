-- ===== src/Keepalive/Runs.antt =====
-- The keepalive loop at concrete runs, and its theorems there.
use lightway.Base.{◌≡◌, ◌≢◌, refl, true, false, List, [], ◌∷◌, some}
use lightway.Keepalive.{
  online, network_change, suspend, tracer_delta_exceeded, outside_activity, waiting, Event,
  received, send_now, interval_elapsed, timeout_elapsed, initial, run, step, handle, is_idle,
  is_needed, is_ticking, send_keepalive, timedout,
}
use lightway.Keepalive.Laws.{
  IsArmedWell, run-IsArmedWell, suspended_quiet, timedout_unanswered, unanswered,
}

abbrev lost_link : List Event
lost_link = received online ∷ interval_elapsed ∷ interval_elapsed ∷ timeout_elapsed ∷ []

lost_link_result : (run true lost_link initial).result ≡ some timedout
unfolding run step handle is_idle is_needed is_ticking send_keepalive
lost_link_result = refl

lost_link_keepalives : (run true lost_link initial).keepalives ≡ 2
unfolding run step handle is_idle is_needed is_ticking send_keepalive
lost_link_keepalives = refl

timedout_unanswered_example : unanswered true lost_link initial false ≡ true
timedout_unanswered_example = timedout_unanswered true lost_link lost_link_result

run-IsArmedWell_example :
    IsArmedWell
      (run false
        (received network_change ∷ send_now ∷ received outside_activity ∷ [])
        initial).at_end
run-IsArmedWell_example =
    run-IsArmedWell false (received network_change ∷ send_now ∷ received outside_activity ∷ [])

suspended_quiet_example :
    ((run true
        (received suspend ∷ interval_elapsed ∷ received tracer_delta_exceeded ∷ send_now ∷ [])
        (record { state = waiting; timeout = false })).keepalives
      ≡ 0)
    × ((run true
          (received suspend ∷ interval_elapsed ∷ received tracer_delta_exceeded ∷ send_now ∷ [])
          (record { state = waiting; timeout = false })).result
        ≢ some timedout)
suspended_quiet_example =
    suspended_quiet true (record { state = waiting; timeout = false })
      (interval_elapsed ∷ received tracer_delta_exceeded ∷ send_now ∷ []) (tt, (refl, (tt, tt)))
