-- ===== src/Dplpmtud/Convergence.antt =====
-- The search on a path that carries the probes up to some size and loses the larger ones.
use lightway.Base.{
  ℕ, zero, suc, ◌+◌, ◌-◌, ◌^◌, ◌≤◌, ◌<◌, ◌≡◌, refl, ap, ◌∙◌, ◌⊎◌, inl, inr, true, false, none, some,
  leb, ◌==◌, arith, Bool-cases,
}
use lightway.Dplpmtud.{
  probe_big_step, PendingProbe, base, searching, StepSize, small, big, Dplpmtud, new, end_probe,
  base_probe_start, search_probe_start, search_start, base_probe_confirmed, online_in, online,
  confirmed_in, reply_to, pong_received,
}
use lightway.Dplpmtud.Invariant.{IsBounded, with_probe, send_probe_eq}
use lightway.Dplpmtud.Rounds.{
  respond_to, respond, after, Converged, Reaches, Reaches-later, Probing, probe_fresh, Round,
  succeeds, last_small, last_big, lost_twice,
}

room : Dplpmtud → ℕ
room d = d.max_plpmtu - d.plpmtu

shrinks :
    (pmtu : ℕ) (s : StepSize) (c k : ℕ) (d e : Dplpmtud)
    → Round pmtu s c d e
    → d.plpmtu < e.plpmtu
    → room d ≤ suc k
    → room e ≤ k
unfolding room
shrinks pmtu s c k d e r grown h = omega (arith, r.limit)

no_room :
    (pmtu : ℕ) (s : StepSize) (c : ℕ) (d e : Dplpmtud)
    → Round pmtu s c d e
    → d.plpmtu < e.plpmtu
    → room d ≤ 0
    → ⊥
unfolding room
no_room pmtu s c d e r grown h = let (_, _, b2, _, _) = r.probing.bounded in omega (arith, r.limit)

same_room :
    (pmtu : ℕ) (s : StepSize) (c k : ℕ) (d e : Dplpmtud)
    → Round pmtu s c d e
    → room d ≤ k
    → room e ≤ k
unfolding room
same_room pmtu s c k d e r h = omega (arith, r.limit, r.estimate)

le_or_lt : (a b : ℕ) → (a ≤ b) ⊎ (b < a)
le_or_lt a b = elim (Bool-cases (leb a b)) [
  | inl e ↦ inl (ground arith)
  | inr e ↦ inr (ground arith)
]

last_round :
    (pmtu : ℕ) (d : Dplpmtud) (p : Probing pmtu small 1 d) → pmtu < p.probe.size → Reaches pmtu d
unfolding after
last_round pmtu d p large =
    let (r, still) = lost_twice pmtu small d p large in
    (3, last_small pmtu small 3 (respond pmtu (respond pmtu d)) r.probing refl refl still)

reach_small : (k pmtu : ℕ) (d : Dplpmtud) → Probing pmtu small 1 d → room d ≤ k → Reaches pmtu d
unfolding after
reach_small zero pmtu d p h = elim (le_or_lt p.probe.size pmtu) [
  | inr large ↦ last_round pmtu d p large
  | inl fits ↦ elim (succeeds pmtu small 1 d p fits) [
    | inl done ↦ (1, done)
    | inr (r, grown) ↦ absurd (no_room pmtu small 1 d (respond pmtu d) r grown h)
  ]
]
reach_small (suc k) pmtu d p h = elim (le_or_lt p.probe.size pmtu) [
  | inr large ↦ last_round pmtu d p large
  | inl fits ↦ elim (succeeds pmtu small 1 d p fits) [
    | inl done ↦ (1, done)
    | inr (r, grown) ↦ Reaches-later pmtu d (
        reach_small k pmtu (respond pmtu d) r.probing
          (shrinks pmtu small 1 k d (respond pmtu d) r grown h))
  ]
]

small_steps :
    (k pmtu : ℕ) (d : Dplpmtud) (p : Probing pmtu big 1 d)
    → room d ≤ k
    → pmtu < p.probe.size
    → Reaches pmtu d
small_steps k pmtu d p h large =
    let e = respond pmtu (respond pmtu d) in
    let (r, still) = lost_twice pmtu big d p large in
    let r' = last_big pmtu big 3 e r.probing refl refl still in
    let less = same_room pmtu small 1 k e (respond pmtu e) r' (same_room pmtu big 3 k d e r h) in
    Reaches-later pmtu d (
      Reaches-later pmtu (respond pmtu d)
        (Reaches-later pmtu e (reach_small k pmtu (respond pmtu e) r'.probing less)))

reach_big : (k pmtu : ℕ) (d : Dplpmtud) → Probing pmtu big 1 d → room d ≤ k → Reaches pmtu d
unfolding after
reach_big zero pmtu d p h = elim (le_or_lt p.probe.size pmtu) [
  | inr large ↦ small_steps zero pmtu d p h large
  | inl fits ↦ elim (succeeds pmtu big 1 d p fits) [
    | inl done ↦ (1, done)
    | inr (r, grown) ↦ absurd (no_room pmtu big 1 d (respond pmtu d) r grown h)
  ]
]
reach_big (suc k) pmtu d p h = elim (le_or_lt p.probe.size pmtu) [
  | inr large ↦ small_steps (suc k) pmtu d p h large
  | inl fits ↦ elim (succeeds pmtu big 1 d p fits) [
    | inl done ↦ (1, done)
    | inr (r, grown) ↦ Reaches-later pmtu d (
        reach_big k pmtu (respond pmtu d) r.probing
          (shrinks pmtu big 1 k d (respond pmtu d) r grown h))
  ]
]

base_answered :
    (pmtu : ℕ) (d : Dplpmtud) (p : PendingProbe)
    → d.pending_probe ≡ some p
    → d.state ≡ base
    → 1 ≤ p.id
    → p.size ≤ pmtu
    → respond pmtu d ≡ (base_probe_confirmed p.size d).1
unfolding respond respond_to pong_received reply_to confirmed_in
base_answered pmtu d p out is pos h =
    let fits : leb p.size pmtu ≡ true = ground arith in
    let nonzero : (p.id == 0) ≡ false = ground (arith, pos) in
    let same : (p.id == p.id) ≡ true = ground arith in
    ap (λ o. respond_to o pmtu d) out
    ∙ rw (fits, nonzero)
        (ap (λ o. (reply_to o p.id d).1) out ∙ rw same (ap (λ t. (confirmed_in t p.size d).1) is))

reach_confirmed :
    (pmtu size : ℕ) (d : Dplpmtud)
    → IsBounded d
    → size ≤ pmtu
    → d.base_plpmtu ≤ size
    → size ≤ d.max_plpmtu
    → Reaches pmtu (base_probe_confirmed size d).1
unfolding base_probe_confirmed search_start end_probe
reach_confirmed pmtu size d (b0, b1, b2, b3, b4) h low high =
    let p =
      probe_fresh pmtu big
        (record d {
          pending_probe = none;
          probe_count = 0;
          timer = none;
          plpmtu = size;
          state = searching;
        })
        (b0, low, high, b3, b4) refl h in
    let e =
      (search_probe_start big (record d {
        pending_probe = none;
        probe_count = 0;
        timer = none;
        plpmtu = size;
        state = searching;
      })).1 in
    reach_big (room e) pmtu e p (omega arith)

-- On a path that carries every probe of at most `pmtu` bytes, and none that is larger, a manager that
-- goes online ends its search after finitely many answers and timeouts, with an estimate that the path
-- carries and that is within 8 bytes of `pmtu`, or is the limit. It takes a base size that the path
-- carries, 5 bytes or more and within the limit, and a limit at which adding a step does not overflow.
pub search_converges :
    (base_size limit pmtu : ℕ)
    → 5 ≤ base_size
    → base_size ≤ pmtu
    → base_size ≤ limit
    → limit + probe_big_step < 2 ^ 16
    → (n : ℕ) × Converged pmtu (after n pmtu (online (new base_size limit)).1)
unfolding online online_in base_probe_start new
search_converges base_size limit pmtu five carried low high =
    let d : Dplpmtud = record (new base_size limit) { state = base; probe_count = 0 } in
    let (id, n, pos, fits, next, eq) = send_probe_eq base_size d (omega arith) in
    let e = with_probe id n base_size d in
    rw eq (
      Reaches-later pmtu e (
        rw (base_answered pmtu e _ refl refl pos carried) (
          reach_confirmed pmtu base_size e (five, omega arith, low, high, next) carried
            (omega arith) low)))
