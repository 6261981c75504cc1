-- ===== src/Dplpmtud/Rounds.antt =====
-- The rounds of a search on a path that carries the probes up to some size and loses the larger ones.
use lightway.Base.{
  ℕ, zero, suc, ◌+◌, ◌%◌, ◌^◌, min, ◌≤◌, ◌<◌, ◌≡◌, refl, ap, ◌∙◌, subst, ◌⊎◌, inl, inr, true, false,
  ◌&&◌, Option, none, some, ltb, leb, ◌==◌, if◌then◌else◌, arith, Bool-cases,
}
use lightway.Dplpmtud.{
  max_probes, PendingProbe, searching, search_complete, StepSize, small, big, Dplpmtud, end_probe,
  send_probe, step_bytes, search_probe_start, enter_search_complete, search_probe_confirmed, is_big,
  search_timeout_of, search_probe_timeout, tick_in, tick, confirmed_in, reply_to, pong_received,
}
use lightway.Dplpmtud.Invariant.{IsBounded, send_probe_eq, step_bytes-le}

-- A probe that the path carries is answered; for one that it loses, the timer fires. Without a probe
-- there is nothing to wait for.
unfoldable pub respond_to : Option PendingProbe → ℕ → Dplpmtud → Dplpmtud
respond_to none pmtu d = d
respond_to (some p) pmtu d = if leb p.size pmtu then (pong_received p.id d).1 else (tick d).1

unfoldable pub respond : ℕ → Dplpmtud → Dplpmtud
unfolding respond_to
respond pmtu d = respond_to d.pending_probe pmtu d

unfoldable pub after : ℕ → ℕ → Dplpmtud → Dplpmtud
after zero pmtu d = d
after (suc n) pmtu d = after n pmtu (respond pmtu d)

-- The search is over, and its estimate is the largest that the path carries, less at most 7 bytes, or
-- the limit.
abbrev pub Converged : ℕ → Dplpmtud → Type 0
Converged pmtu d =
    (d.state ≡ search_complete)
    × (d.pending_probe ≡ none)
    × (d.plpmtu ≤ pmtu)
    × ((d.plpmtu ≡ d.max_plpmtu) ⊎ (pmtu < d.plpmtu + 8))

abbrev pub Reaches : ℕ → Dplpmtud → Type 0
Reaches pmtu d = (n : ℕ) × Converged pmtu (after n pmtu d)

pub Reaches-later : (pmtu : ℕ) (d : Dplpmtud) → Reaches pmtu (respond pmtu d) → Reaches pmtu d
unfolding after
Reaches-later pmtu d (n, c) = (suc n, c)

-- A probe one step above the estimate has been sent `count` times.
pub record Probing (pmtu : ℕ) (s : StepSize) (count : ℕ) (d : Dplpmtud) : Type 0 where
  pub bounded : IsBounded d
  pub is : d.state ≡ searching
  pub probe : PendingProbe
  pub out : d.pending_probe ≡ some probe
  pub pos : 1 ≤ probe.id
  pub size : probe.size ≡ min (d.plpmtu + step_bytes s) d.max_plpmtu
  pub counted : d.probe_count ≡ count
  pub stepping : d.step_size ≡ s
  pub carried : d.plpmtu ≤ pmtu

pub probe_again :
    (pmtu : ℕ) (s : StepSize) (size : ℕ) (d : Dplpmtud)
    → IsBounded d
    → d.state ≡ searching
    → size ≡ min (d.plpmtu + step_bytes s) d.max_plpmtu
    → d.step_size ≡ s
    → d.plpmtu ≤ pmtu
    → Probing pmtu s (d.probe_count + 1) (send_probe size d).1
probe_again pmtu s size d (b0, b1, b2, b3, b4) is z stepping carried =
    let (id, n, pos, fits, next, eq) = send_probe_eq size d b4 in
    rw eq (record {
      bounded = (b0, b1, b2, b3, next);
      is = is;
      probe = record { id = id; size = size };
      out = refl;
      pos = pos;
      size = z;
      counted = refl;
      stepping = stepping;
      carried = carried;
    })

step_bytes-pos : (s : StepSize) → 8 ≤ step_bytes s
unfolding step_bytes
step_bytes-pos small = omega arith
step_bytes-pos big = omega arith

pub probe_fresh :
    (pmtu : ℕ) (s : StepSize) (d : Dplpmtud)
    → IsBounded d
    → d.state ≡ searching
    → d.plpmtu ≤ pmtu
    → Probing pmtu s 1 (search_probe_start s d).1
unfolding search_probe_start
probe_fresh pmtu s d (b0, b1, b2, b3, b4) is carried =
    let low = step_bytes-le s in
    probe_again pmtu s _ (record d { probe_count = 0; step_size = s }) (b0, b1, b2, b3, b4) is
      (omega arith) refl carried

completes :
    (pmtu : ℕ) (d : Dplpmtud)
    → d.plpmtu ≤ pmtu
    → (d.plpmtu ≡ d.max_plpmtu) ⊎ (pmtu < d.plpmtu + 8)
    → Converged pmtu (enter_search_complete d).1
unfolding enter_search_complete end_probe
completes pmtu d carried tight = (refl, refl, carried, tight)

send_keeps_limits :
    (size : ℕ) (d : Dplpmtud)
    → d.next_id < 2 ^ 16
    → ((send_probe size d).1.plpmtu ≡ d.plpmtu) × ((send_probe size d).1.max_plpmtu ≡ d.max_plpmtu)
send_keeps_limits size d h =
    let (id, n, pos, fits, next, eq) = send_probe_eq size d h in rw eq (refl, refl)

-- What a round of the search leaves: a probe of step `s`, sent `count` times, above the same limit.
pub record Round (pmtu : ℕ) (s : StepSize) (count : ℕ) (d e : Dplpmtud) : Type 0 where
  pub probing : Probing pmtu s count e
  pub limit : e.max_plpmtu ≡ d.max_plpmtu
  pub estimate : d.plpmtu ≤ e.plpmtu

module _ (pmtu : ℕ) (s : StepSize) (count : ℕ) (d : Dplpmtud) (p : Probing pmtu s count d) where
  pong_ok : pong_received p.probe.id d ≡ search_probe_confirmed p.probe.size d
  unfolding pong_received reply_to confirmed_in
  pong_ok =
      let nonzero : (p.probe.id == 0) ≡ false = ground (arith, p.pos) in
      let same : (p.probe.id == p.probe.id) ≡ true = ground arith in
      rw nonzero (
        ap (λ o. reply_to o p.probe.id d) p.out
        ∙ rw same (ap (λ t. confirmed_in t p.probe.size d) p.is))

  tick_ok : tick d ≡ search_timeout_of (some p.probe) d
  unfolding tick tick_in search_probe_timeout
  tick_ok = ap (λ t. tick_in t d) p.is ∙ ap (λ o. search_timeout_of o d) p.out

  pub answered : p.probe.size ≤ pmtu → respond pmtu d ≡ (search_probe_confirmed p.probe.size d).1
  unfolding respond respond_to
  answered h =
      let fits : leb p.probe.size pmtu ≡ true = ground arith in
      ap (λ o. respond_to o pmtu d) p.out ∙ rw fits (ap (λ r. r.1) pong_ok)

  lost : pmtu < p.probe.size → respond pmtu d ≡ (search_timeout_of (some p.probe) d).1
  unfolding respond respond_to
  lost h =
      let large : leb p.probe.size pmtu ≡ false = ground arith in
      ap (λ o. respond_to o pmtu d) p.out ∙ rw large (ap (λ r. r.1) tick_ok)

  pub succeeds :
      p.probe.size ≤ pmtu
      → Converged pmtu (respond pmtu d)
        ⊎ (Round pmtu s 1 d (respond pmtu d) × (d.plpmtu < (respond pmtu d).plpmtu))
  unfolding search_probe_confirmed search_probe_start
  succeeds h =
      let (b0, b1, b2, b3, b4) = p.bounded in
      let size = p.probe.size in
      let z = p.size in
      let steps = step_bytes-pos s in
      let low = step_bytes-le s in
      let d1 : Dplpmtud = record d { plpmtu = size } in
      rw (answered h) (elim (Bool-cases (ltb size d.max_plpmtu)) [
        | inl below ↦ rw below (
            let grown : d.plpmtu < size = ground arith in
            let probing =
              probe_fresh pmtu d.step_size d1 (b0, omega arith, omega arith, b3, b4) p.is h in
            let (same, limit) =
              send_keeps_limits (min ((size + step_bytes d.step_size) % 2 ^ 16) d.max_plpmtu)
                (record d1 { probe_count = 0 }) b4 in
            inr (
              record {
                probing =
                    subst (λ t. Probing pmtu t 1 (search_probe_start d.step_size d1).1) p.stepping
                      probing;
                limit = limit;
                estimate = omega (arith, same);
              },
              omega (arith, same),
            ))
        | inr full ↦ rw full (inl (completes pmtu d1 h (inl (ground arith))))
      ])

  fails : pmtu < p.probe.size → count < 3 → Round pmtu s (count + 1) d (respond pmtu d)
  unfolding search_timeout_of
  fails h few =
      let (b0, b1, b2, b3, b4) = p.bounded in
      let again : ltb d.probe_count max_probes ≡ true = ground (arith, p.counted) in
      let (same, limit) = send_keeps_limits p.probe.size d b4 in
      let next = probe_again pmtu s p.probe.size d p.bounded p.is p.size p.stepping p.carried in
      rw (lost h, again)
        (record {
          probing =
              subst (λ c. Probing pmtu s (c + 1) (send_probe p.probe.size d).1) p.counted next;
          limit = limit;
          estimate = omega (arith, same);
        })

  pub last_small : s ≡ small → count ≡ 3 → pmtu < p.probe.size → Converged pmtu (respond pmtu d)
  unfolding search_timeout_of is_big step_bytes
  last_small is_small is_3 h =
      let over : ltb d.probe_count max_probes ≡ false = ground (arith, p.counted) in
      let stop : (d.probe_count == max_probes && is_big d.step_size) ≡ false =
        rw (p.stepping, is_small) (ground arith) in
      let z : p.probe.size ≡ min (d.plpmtu + 8) d.max_plpmtu =
        p.size ∙ ap (λ t. min (d.plpmtu + step_bytes t) d.max_plpmtu) is_small in
      rw (lost h, over, stop) (completes pmtu d p.carried (inr (omega arith)))

  pub last_big : s ≡ big → count ≡ 3 → pmtu < p.probe.size → Round pmtu small 1 d (respond pmtu d)
  unfolding search_timeout_of is_big search_probe_start
  last_big is_large is_3 h =
      let (b0, b1, b2, b3, b4) = p.bounded in
      let over : ltb d.probe_count max_probes ≡ false = ground (arith, p.counted) in
      let stop : (d.probe_count == max_probes && is_big d.step_size) ≡ true =
        rw (p.counted, is_3, p.stepping, is_large) refl in
      let (same, limit) =
        send_keeps_limits (min ((d.plpmtu + step_bytes small) % 2 ^ 16) d.max_plpmtu)
          (record d { probe_count = 0; step_size = small }) b4 in
      rw (lost h, over, stop)
        (record {
          probing = probe_fresh pmtu small d p.bounded p.is p.carried;
          limit = limit;
          estimate = omega (arith, same);
        })

-- A round leaves no smaller a probe.
Round-size :
    (pmtu : ℕ) (s : StepSize) (c c' : ℕ) (d e : Dplpmtud) (p : Probing pmtu s c d)
    (r : Round pmtu s c' d e)
    → p.probe.size ≤ r.probing.probe.size
Round-size pmtu s c c' d e p r =
    let z = p.size in
    let z' = r.probing.size in let m = r.limit in let x = r.estimate in omega arith

-- The probe is lost twice more.
pub lost_twice :
    (pmtu : ℕ) (s : StepSize) (d : Dplpmtud) (p : Probing pmtu s 1 d)
    → pmtu < p.probe.size
    → (r : Round pmtu s 3 d (respond pmtu (respond pmtu d))) × (pmtu < r.probing.probe.size)
lost_twice pmtu s d p h =
    let r1 = fails pmtu s 1 d p h (omega arith) in
    let z1 = Round-size pmtu s 1 2 d (respond pmtu d) p r1 in
    let r2 = fails pmtu s 2 (respond pmtu d) r1.probing (omega arith) (omega arith) in
    let z2 = Round-size pmtu s 2 3 (respond pmtu d) (respond pmtu (respond pmtu d)) r1.probing r2 in
    (
      record {
        probing = r2.probing;
        limit = r2.limit ∙ r1.limit;
        estimate = omega (arith, r1.estimate, r2.estimate);
      },
      omega arith,
    )
