-- ===== src/Dplpmtud/Invariant.antt =====
-- What holds of the path MTU manager between events.
use lightway.Base.{
  ℕ, ◌+◌, ◌%◌, ◌^◌, min, ◌≤◌, ◌<◌, ◌≡◌, refl, sym, ◌∙◌, ◌⊎◌, inl, inr, ◌&&◌, Option, none, some,
  ltb, ◌==◌, arith, Bool-cases,
}
use lightway.Dplpmtud.{
  max_probes, probe_big_step, probe_time_timeout, pmtu_raise_timer_timeout,
  probe_payload_size_for_plpmtu, PendingProbe, Action, send_probe_action, no_action, State,
  disabled, base, error, searching, search_complete, StepSize, small, big, Dplpmtud, next_probe_id,
  take_id, end_probe, send_probe, base_probe_start, step_bytes, search_probe_start, search_start,
  base_probe_confirmed, enter_error, base_probe_timeout, enter_search_complete,
  search_probe_confirmed, is_big, search_timeout_of, search_probe_timeout, complete_timeout_of,
  search_complete_probe_timeout, online_in, online, offline, tick_in, tick, confirmed_in, reply_to,
  pong_received, Event, went_online, went_offline, ticked, ponged, step,
}

-- A probe of a size between `low` and `high` is out, with an id that is not the keepalives', and the
-- probe timer runs.
abbrev pub IsProbing : Dplpmtud → ℕ → ℕ → Type 0
IsProbing d low high =
    (p : PendingProbe) × (d.pending_probe ≡ some p)
    × (1 ≤ p.id)
    × (p.id < 2 ^ 16)
    × (low ≤ p.size)
    × (p.size ≤ high)
    × (1 ≤ d.probe_count)
    × (d.timer ≡ some probe_time_timeout)

-- The limits that are never written, and the estimate between them.
abbrev pub IsBounded : Dplpmtud → Type 0
IsBounded d =
    (5 ≤ d.base_plpmtu)
    × (d.base_plpmtu ≤ d.plpmtu)
    × (d.plpmtu ≤ d.max_plpmtu)
    × (d.max_plpmtu + probe_big_step < 2 ^ 16)
    × (d.next_id < 2 ^ 16)

abbrev pub IsPhase : State → Dplpmtud → Type 0
IsPhase disabled d = (d.pending_probe ≡ none) × (d.timer ≡ none)
IsPhase base d = IsProbing d d.base_plpmtu d.base_plpmtu × (d.probe_count ≤ max_probes)
IsPhase error d = IsProbing d d.base_plpmtu d.base_plpmtu
IsPhase searching d = IsProbing d d.plpmtu d.max_plpmtu × (d.probe_count ≤ max_probes)
IsPhase search_complete d =
    ((d.pending_probe ≡ none) × (d.probe_count ≡ 0) × (d.timer ≡ some pmtu_raise_timer_timeout))
    ⊎ (IsProbing d d.plpmtu d.plpmtu × (d.probe_count ≤ max_probes))

abbrev pub IsWellFormed : Dplpmtud → Type 0
IsWellFormed d = IsBounded d × IsPhase d.state d

abbrev pub with_probe : ℕ → ℕ → ℕ → Dplpmtud → Dplpmtud
with_probe id n size d = record d {
  next_id = n;
  probe_count = d.probe_count + 1;
  pending_probe = some (record { id = id; size = size });
  timer = some probe_time_timeout;
}

-- A probe is sent with an id of 1 or more, which is remembered with the size.
pub send_probe_eq :
    (size : ℕ) (d : Dplpmtud)
    → d.next_id < 2 ^ 16
    → (id : ℕ) × (n : ℕ) × (1 ≤ id)
      × (id < 2 ^ 16)
      × (n < 2 ^ 16)
      × (send_probe size d
          ≡ (send_probe_action id (probe_payload_size_for_plpmtu size), with_probe id n size d))
unfolding send_probe next_probe_id take_id
send_probe_eq size d h = elim (Bool-cases (d.next_id == 0)) [
  | inl e ↦ rw e (
    (d.next_id + 1) % 2 ^ 16,
    ((d.next_id + 1) % 2 ^ 16 + 1) % 2 ^ 16,
    ground arith,
    omega arith,
    omega arith,
    refl,
  )
  | inr e ↦ rw e (d.next_id, (d.next_id + 1) % 2 ^ 16, ground arith, h, omega arith, refl)
]

-- What an action and the new state promise: a probe has an id that is not the keepalives', and a
-- payload that fits the limits.
abbrev pub IsGood : Dplpmtud → Action → Type 0
IsGood d no_action = Unit
IsGood d (send_probe_action id payload) =
    (1 ≤ id) × (id < 2 ^ 16) × (d.base_plpmtu ≤ payload + 5) × (payload + 5 ≤ d.max_plpmtu)

abbrev pub Keeps : Action × Dplpmtud → Type 0
Keeps r = IsWellFormed r.1 × IsGood r.1 r.0

-- A probe sent in a state whose phase is then as it should be.
sends :
    (size : ℕ) (d : Dplpmtud)
    → IsBounded d
    → d.base_plpmtu ≤ size
    → size ≤ d.max_plpmtu
    → ((id n : ℕ) → 1 ≤ id → id < 2 ^ 16 → IsPhase d.state (with_probe id n size d))
    → Keeps (send_probe size d)
sends size d (b0, b1, b2, b3, b4) low high phase =
    let (id, n, pos, fits, next, eq) = send_probe_eq size d b4 in
    rw eq (((b0, b1, b2, b3, next), phase id n pos fits), (pos, fits, omega arith, omega arith))

base_probe_start-Keeps : (d : Dplpmtud) → IsBounded d → Keeps (base_probe_start d)
unfolding base_probe_start
base_probe_start-Keeps d (b0, b1, b2, b3, b4) =
    sends d.base_plpmtu (record d { state = base; probe_count = 0 }) (b0, b1, b2, b3, b4)
      (omega arith) (omega arith)
      λ id n pos fits. (
        (
          record { id = id; size = d.base_plpmtu },
          refl,
          pos,
          fits,
          omega arith,
          omega arith,
          omega arith,
          refl,
        ),
        omega arith,
      )

pub step_bytes-le : (s : StepSize) → step_bytes s ≤ 32
unfolding step_bytes
step_bytes-le small = omega arith
step_bytes-le big = omega arith

search_probe_start-Keeps :
    (s : StepSize) (d : Dplpmtud)
    → IsBounded d
    → d.state ≡ searching
    → Keeps (search_probe_start s d)
unfolding search_probe_start step_bytes
search_probe_start-Keeps s d (b0, b1, b2, b3, b4) is =
    let step_small = step_bytes-le s in
    let size = min ((d.plpmtu + step_bytes s) % 2 ^ 16) d.max_plpmtu in
    sends size (record d { probe_count = 0; step_size = s }) (b0, b1, b2, b3, b4) (omega arith)
      (omega arith)
      λ id n pos fits. rw is (
        (
          record { id = id; size = size },
          refl,
          pos,
          fits,
          omega arith,
          omega arith,
          omega arith,
          refl,
        ),
        omega arith,
      )

search_start-Keeps : (d : Dplpmtud) → IsBounded d → Keeps (search_start d)
unfolding search_start
search_start-Keeps d b = search_probe_start-Keeps big (record d { state = searching }) b refl

base_probe_confirmed-Keeps :
    (d : Dplpmtud) → IsBounded d → Keeps (base_probe_confirmed d.base_plpmtu d)
unfolding base_probe_confirmed end_probe
base_probe_confirmed-Keeps d (b0, b1, b2, b3, b4) =
    search_start-Keeps _ (b0, omega arith, omega arith, b3, b4)

enter_error-Keeps : (d : Dplpmtud) → IsBounded d → Keeps (enter_error d)
unfolding enter_error end_probe
enter_error-Keeps d (b0, b1, b2, b3, b4) =
    sends d.base_plpmtu _ (b0, b1, b2, b3, b4) (omega arith) (omega arith)
      λ id n pos fits. (
        record { id = id; size = d.base_plpmtu },
        refl,
        pos,
        fits,
        omega arith,
        omega arith,
        omega arith,
        refl,
      )

enter_search_complete-Keeps : (d : Dplpmtud) → IsBounded d → Keeps (enter_search_complete d)
unfolding enter_search_complete end_probe
enter_search_complete-Keeps d b = ((b, inl (refl, refl, refl)), tt)

none-some_absurd : {p : PendingProbe} → none ≡ some p → ⊥
none-some_absurd e = cc

size_of :
    {o : Option PendingProbe} {p q : PendingProbe} {n : ℕ}
    → o ≡ some p
    → o ≡ some q
    → n ≤ q.size
    → q.size ≤ n
    → p.size ≡ n
size_of e f low high = ground arith

-- The timer fires while a probe is out.
base_tick :
    (d : Dplpmtud) → IsBounded d → d.state ≡ base → IsPhase base d → Keeps (base_probe_timeout d)
unfolding base_probe_timeout
base_tick d (b0, b1, b2, b3, b4) is ph = elim (Bool-cases (ltb d.probe_count max_probes)) [
  | inl e ↦ rw e (
      sends d.base_plpmtu d (b0, b1, b2, b3, b4) (omega arith) (omega arith)
        λ id n pos fits. rw is (
          (
            record { id = id; size = d.base_plpmtu },
            refl,
            pos,
            fits,
            omega arith,
            omega arith,
            omega arith,
            refl,
          ),
          ground arith,
        ))
  | inr e ↦ rw e (enter_error-Keeps d (b0, b1, b2, b3, b4))
]

error_tick : (d : Dplpmtud) → IsBounded d → d.state ≡ error → Keeps (send_probe d.base_plpmtu d)
error_tick d (b0, b1, b2, b3, b4) is =
    sends d.base_plpmtu d (b0, b1, b2, b3, b4) (omega arith) (omega arith)
      λ id n pos fits. rw is (
        record { id = id; size = d.base_plpmtu },
        refl,
        pos,
        fits,
        omega arith,
        omega arith,
        omega arith,
        refl,
      )

searching_tick :
    (o : Option PendingProbe) (d : Dplpmtud)
    → IsBounded d
    → d.pending_probe ≡ o
    → d.state ≡ searching
    → IsPhase searching d
    → Keeps (search_timeout_of o d)
unfolding search_timeout_of
searching_tick none d b e is ph = enter_error-Keeps d b
searching_tick (some q) d (b0, b1, b2, b3, b4) e is ((p, out, _, _, low, high, _, _), few) =
    let same : q ≡ p = ground arith in
    let low' : d.plpmtu ≤ q.size = rw same low in
    let high' : q.size ≤ d.max_plpmtu = rw same high in
    elim (Bool-cases (ltb d.probe_count max_probes)) [
      | inl e ↦ rw e (
          sends q.size d (b0, b1, b2, b3, b4) (omega arith) high'
            λ id n pos fits. rw is (
              (record { id = id; size = q.size }, refl, pos, fits, low', high', omega arith, refl),
              ground arith,
            ))
      | inr e ↦ rw e (elim (Bool-cases (d.probe_count == max_probes && is_big d.step_size)) [
        | inl k ↦ rw k (search_probe_start-Keeps small d (b0, b1, b2, b3, b4) is)
        | inr k ↦ rw k (enter_search_complete-Keeps d (b0, b1, b2, b3, b4))
      ])
    ]

complete_tick :
    (o : Option PendingProbe) (d : Dplpmtud)
    → IsBounded d
    → d.pending_probe ≡ o
    → d.state ≡ search_complete
    → IsPhase search_complete d
    → Keeps (complete_timeout_of o d)
unfolding complete_timeout_of
complete_tick none d b e is (inr ((p, out, _, _, _, _, _, _), _)) =
    absurd (none-some_absurd (sym e ∙ out))
complete_tick none d (b0, b1, b2, b3, b4) e is (inl (none_out, zero_count, _)) =
    sends d.plpmtu d (b0, b1, b2, b3, b4) (omega arith) (omega arith)
      λ id n pos fits. rw is (
        inr (
          (
            record { id = id; size = d.plpmtu },
            refl,
            pos,
            fits,
            omega arith,
            omega arith,
            omega arith,
            refl,
          ),
          omega arith,
        ))
complete_tick (some q) d b e is (inl (none_out, _, _)) =
    absurd (none-some_absurd (sym none_out ∙ e))
complete_tick (some q) d (b0, b1, b2, b3, b4) e is (inr ((p, out, _, _, low, high, _, _), few)) =
    let same : q ≡ p = ground arith in
    let low' : d.plpmtu ≤ q.size = rw same low in
    let high' : q.size ≤ d.plpmtu = rw same high in
    elim (Bool-cases (ltb d.probe_count max_probes)) [
      | inl e ↦ rw e (
          sends q.size d (b0, b1, b2, b3, b4) (omega arith) (omega arith)
            λ id n pos fits. rw is (
              inr (
                (
                  record { id = id; size = q.size },
                  refl,
                  pos,
                  fits,
                  low',
                  high',
                  omega arith,
                  refl,
                ),
                ground arith,
              )))
      | inr e ↦ rw e (base_probe_start-Keeps d (b0, b1, b2, b3, b4))
    ]

tick_in-Keeps :
    (s : State) (d : Dplpmtud) → IsBounded d → d.state ≡ s → IsPhase s d → Keeps (tick_in s d)
unfolding tick_in search_probe_timeout search_complete_probe_timeout
tick_in-Keeps disabled d b is ph = ((b, rw is ph), tt)
tick_in-Keeps base d b is ph = base_tick d b is ph
tick_in-Keeps error d b is ph = error_tick d b is
tick_in-Keeps searching d b is ph = searching_tick d.pending_probe d b refl is ph
tick_in-Keeps search_complete d b is ph = complete_tick d.pending_probe d b refl is ph

search_confirmed :
    (size : ℕ) (d : Dplpmtud)
    → IsBounded d
    → d.state ≡ searching
    → d.plpmtu ≤ size
    → size ≤ d.max_plpmtu
    → Keeps (search_probe_confirmed size d)
unfolding search_probe_confirmed
search_confirmed size d (b0, b1, b2, b3, b4) is low high =
    elim (Bool-cases (ltb size d.max_plpmtu)) [
      | inl e ↦ rw e (
          search_probe_start-Keeps d.step_size (record d { plpmtu = size })
            (b0, omega arith, high, b3, b4) is)
      | inr e ↦
          rw e (
            enter_search_complete-Keeps (record d { plpmtu = size })
              (b0, omega arith, high, b3, b4))
    ]

confirmed_in-Keeps :
    (s : State) (p : PendingProbe) (d : Dplpmtud)
    → IsBounded d
    → d.state ≡ s
    → d.pending_probe ≡ some p
    → IsPhase s d
    → Keeps (confirmed_in s p.size d)
unfolding confirmed_in
confirmed_in-Keeps disabled p d b is e ph = ((b, rw is ph), tt)
confirmed_in-Keeps base p d b is e ((q, out, _, _, low, high, _, _), _) =
    let same : p.size ≡ d.base_plpmtu = size_of e out low high in
    rw same (base_probe_confirmed-Keeps d b)
confirmed_in-Keeps error p d b is e (q, out, _, _, low, high, _, _) =
    let same : p.size ≡ d.base_plpmtu = size_of e out low high in
    rw same (base_probe_confirmed-Keeps d b)
confirmed_in-Keeps searching p d b is e ((q, out, _, _, low, high, _, _), _) =
    let same : p ≡ q = ground arith in search_confirmed p.size d b is (rw same low) (rw same high)
confirmed_in-Keeps search_complete p d b is e ph = search_start-Keeps d b

reply_to-Keeps :
    (o : Option PendingProbe) (id : ℕ) (d : Dplpmtud)
    → d.pending_probe ≡ o
    → IsWellFormed d
    → Keeps (reply_to o id d)
unfolding reply_to
reply_to-Keeps none id d e w = (w, tt)
reply_to-Keeps (some p) id d e (b, ph) = elim (Bool-cases (id == p.id)) [
  | inl k ↦ rw k (confirmed_in-Keeps d.state p d b refl e ph)
  | inr k ↦ rw k ((b, ph), tt)
]

online_in-Keeps : (s : State) (d : Dplpmtud) → IsWellFormed d → Keeps (online_in s d)
unfolding online_in
online_in-Keeps disabled d (b, ph) = base_probe_start-Keeps d b
online_in-Keeps _ d w = (w, tt)

-- Every event keeps the manager well formed: its estimate between the two limits, and in each state
-- the pending probe, the probe count and the timer that the state calls for. A probe that it asks for
-- has an id of 16 bits that is not zero, and a size between the limits.
pub step-Keeps : (e : Event) (d : Dplpmtud) → IsWellFormed d → Keeps (step e d)
unfolding step online tick pong_received offline end_probe
step-Keeps went_online d w = online_in-Keeps d.state d w
step-Keeps went_offline d (b, ph) = ((b, (refl, refl)), tt)
step-Keeps ticked d (b, ph) = tick_in-Keeps d.state d b refl ph
step-Keeps (ponged id) d w = elim (Bool-cases (id == 0)) [
  | inl k ↦ rw k (w, tt)
  | inr k ↦ rw k (reply_to-Keeps d.pending_probe id d refl w)
]
