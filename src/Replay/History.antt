-- ===== src/Replay/History.antt =====
-- The window against a history: the list of all counters accepted so far, latest first.
use lightway.Base.{
  ℕ, ◌+◌, ◌-◌, ◌%◌, ◌≤◌, ◌<◌, ◌≡◌, refl, ap, ◌∙◌, max, ◌≢◌, inl, inr, Bool, true, false, not, ◌&&◌,
  ◌||◌, List, [], ◌∷◌, ltb, ◌==◌, if◌then◌else◌, length, length-replicate, arith, Bool-cases,
}
use lightway.Replay.{
  ReplayWindow, window_size, num_blocks, default, would_reject, set_slot, advance, commit,
}
use lightway.Replay.Slots.{
  slot_bit, is_set-slot_bit, slot_bit-zeros, slot_bit-set_slot, length-set_slot, length-clear_slots,
  slot_bit-clear_slots_in, slot_bit-clear_slots_out,
}

unfoldable pub elem : ℕ → List ℕ → Bool
elem c [] = false
elem c (x ∷ xs) = (x == c) || elem c xs

pub highest : List ℕ → ℕ
highest [] = 0
highest (x ∷ xs) = max x (highest xs)

-- What the window promises: refuse zero, what lies a window's size or more below the highest
-- accepted counter, and what has been accepted before; accept everything else.
pub admissible : List ℕ → ℕ → Bool
admissible seen c = not (c == 0) && ltb (highest seen) (c + window_size) && not (elem c seen)

pub record Tracks (w : ReplayWindow) (seen : List ℕ) : Type 0 where
  pub size : length w.bitmap ≡ num_blocks
  pub top : w.high ≡ highest seen
  pub slots :
      (c : ℕ)
      → 0 < c
      → c ≤ w.high
      → w.high < c + window_size
      → (slot_bit w.bitmap (c % window_size) == 1) ≡ elem c seen

elem_above : (c : ℕ) (seen : List ℕ) → highest seen < c → elem c seen ≡ false
unfolding elem highest
elem_above c [] h = refl
elem_above c (x ∷ xs) h = ground (arith, elem_above c xs)

pub default-Tracks : Tracks default []
unfolding default highest elem
default-Tracks = record {
  size = length-replicate {A = ℕ} num_blocks 0;
  top = refl;
  slots = λ c p q r. absurd (omega arith);
}

-- The preview answers as the history does.
pub would_reject-admissible :
    (w : ReplayWindow) (seen : List ℕ) (c : ℕ)
    → Tracks w seen
    → would_reject w c ≡ not (admissible seen c)
unfolding would_reject admissible
would_reject-admissible w seen c t =
    ground (arith, is_set-slot_bit w c, t.slots c, t.top, elem_above c seen)

-- After the window has moved up, it still tells the accepted counters of its new span.
advance-slots :
    (w : ReplayWindow) (seen : List ℕ) (c d : ℕ)
    → Tracks w seen
    → w.high < c
    → 0 < d
    → d < c
    → c < d + window_size
    → (slot_bit (advance w c).bitmap (d % window_size) == 1) ≡ elem d seen
unfolding advance
advance-slots w seen c d t up pos below near =
    let from = max (w.high + 1) (c - (window_size - 1)) in
    ground (
      arith,
      t.top,
      t.slots d,
      elem_above d seen,
      slot_bit-zeros (d % window_size),
      slot_bit-clear_slots_in (c - from) from d w.bitmap t.size,
      slot_bit-clear_slots_out (c - from) from d w.bitmap t.size,
    )

length-advance :
    (w : ReplayWindow) (c : ℕ)
    → length w.bitmap ≡ num_blocks
    → length (advance w c).bitmap ≡ num_blocks
unfolding advance
length-advance w c len =
    let from = max (w.high + 1) (c - (window_size - 1)) in
    ground
      (arith, length-replicate {A = ℕ} num_blocks 0, length-clear_slots (c - from) from w.bitmap)

high-advance : (w : ReplayWindow) (c : ℕ) → (advance w c).high ≡ c
unfolding advance
high-advance w c = refl

-- Marking counter `c` in a window that tells the counters of its span, all but `c` itself.
mark-Tracks :
    (m : ReplayWindow) (seen : List ℕ) (c : ℕ)
    → length m.bitmap ≡ num_blocks
    → m.high ≡ max c (highest seen)
    → m.high < c + window_size
    → ((d : ℕ)
        → 0 < d
        → d ≤ m.high
        → m.high < d + window_size
        → d ≢ c
        → (slot_bit m.bitmap (d % window_size) == 1) ≡ elem d seen)
    → Tracks (record m { bitmap = set_slot m.bitmap c }) (c ∷ seen)
unfolding elem highest
mark-Tracks m seen c len top near rest = record {
  size = length-set_slot m.bitmap c ∙ len;
  top = top;
  slots =
      λ d pos low span. ground (arith, slot_bit-set_slot m.bitmap c (d % window_size) len, rest d);
}

-- A counter that is accepted joins the history.
pub commit_accepts :
    (w : ReplayWindow) (seen : List ℕ) (c : ℕ)
    → Tracks w seen
    → admissible seen c ≡ true
    → ((commit w c).1 ≡ true) × Tracks (commit w c).0 (c ∷ seen)
unfolding commit
commit_accepts w seen c t ok = elim (Bool-cases (ltb w.high c)) [
  | inl up ↦
      let high : (advance w c).high ≡ c = high-advance w c in
      rw (would_reject-admissible w seen c t, ok, up)
        (
          refl,
          mark-Tracks (advance w c) seen c (length-advance w c t.size) (ground (arith, t.top))
              (omega arith)
              (λ d pos below span apart.
                advance-slots w seen c d t (ground arith) pos (ground arith) (omega arith)),
        )
  | inr low ↦
      let near : highest seen < c + window_size = unfold admissible in ground arith in
      rw (would_reject-admissible w seen c t, ok, low)
        (
          refl,
          mark-Tracks w seen c t.size (ground (arith, t.top)) (omega (arith, t.top))
              (λ d pos below span apart. t.slots d pos below span),
        )
]

-- One that is refused changes nothing.
pub commit_refuses :
    (w : ReplayWindow) (seen : List ℕ) (c : ℕ)
    → Tracks w seen
    → admissible seen c ≡ false
    → commit w c ≡ (w, false)
unfolding commit
commit_refuses w seen c t refused = rw (would_reject-admissible w seen c t, refused)

-- A commit that is refused leaves any window alone.
pub commit-refused : (w : ReplayWindow) (c : ℕ) → (commit w c).1 ≡ false → (commit w c).0 ≡ w
unfolding commit
commit-refused w c h = elim (Bool-cases (would_reject w c)) [
  | inl rejected ↦ rw rejected refl
  | inr fresh ↦ cc (rw fresh at h)
]

-- The preview is right about the commit that follows it.
pub commit_fresh : (w : ReplayWindow) (c : ℕ) → would_reject w c ≡ false → (commit w c).1 ≡ true
unfolding commit
commit_fresh w c h = rw h refl

-- `commit` for counters in the order of their arrival.
unfoldable pub run : ReplayWindow → List ℕ → ReplayWindow × List Bool
run w [] = (w, [])
run w (c ∷ cs) =
    let (moved, answer) = commit w c in
    let (last, answers) = run moved cs in (last, answer ∷ answers)

-- The history that the promise makes of the same counters.
pub accepted : List ℕ → List ℕ → List ℕ
accepted seen [] = seen
accepted seen (c ∷ cs) = accepted (if admissible seen c then c ∷ seen else seen) cs

pub promised : List ℕ → List ℕ → List Bool
promised seen [] = []
promised seen (c ∷ cs) =
    admissible seen c ∷ promised (if admissible seen c then c ∷ seen else seen) cs

run-Tracks :
    (w : ReplayWindow) (seen cs : List ℕ)
    → Tracks w seen
    → ((run w cs).1 ≡ promised seen cs) × Tracks (run w cs).0 (accepted seen cs)
unfolding run accepted promised
run-Tracks w seen [] t = (refl, t)
run-Tracks w seen (c ∷ cs) t = elim (Bool-cases (admissible seen c)) [
  | inl ok ↦
      let (answer, tracks) = commit_accepts w seen c t ok in
      let (answers, last) = run-Tracks (commit w c).0 (c ∷ seen) cs tracks in
      rw (ok, answer) (ap (◌∷◌ true) answers, last)
  | inr refused ↦
      let (answers, last) = run-Tracks w seen cs t in
      rw (refused, commit_refuses w seen c t refused) (ap (◌∷◌ false) answers, last)
]

-- Whatever counters arrive at a new window, it answers each as the history of the accepted ones
-- promises, and afterwards the preview of any counter agrees with that history.
pub run-promised :
    (cs : List ℕ) (next : ℕ)
    → ((run default cs).1 ≡ promised [] cs)
      × (would_reject (run default cs).0 next ≡ not (admissible (accepted [] cs) next))
run-promised cs next =
    let (answers, tracks) = run-Tracks default [] cs default-Tracks in
    (answers, would_reject-admissible (run default cs).0 (accepted [] cs) next tracks)

elem-accepted : (c : ℕ) (seen cs : List ℕ) → elem c seen ≡ true → elem c (accepted seen cs) ≡ true
unfolding accepted elem
elem-accepted c seen [] h = h
elem-accepted c seen (x ∷ cs) h =
    elem-accepted c (if admissible seen x then x ∷ seen else seen) cs (ground arith)

pub elem-not_admissible : (seen : List ℕ) (c : ℕ) → elem c seen ≡ true → admissible seen c ≡ false
unfolding admissible
elem-not_admissible seen c h = ground arith

-- Once a run from a new window has accepted a counter, it refuses that counter, whatever arrives in
-- between.
pub commit_once :
    (before between : List ℕ) (c : ℕ)
    → (commit (run default before).0 c).1 ≡ true
    → (commit (run (commit (run default before).0 c).0 between).0 c).1 ≡ false
commit_once before between c ok =
    let tracks = (run-Tracks default [] before default-Tracks).1 in
    let seen = c ∷ accepted [] before in
    let head : elem c seen ≡ true = unfold elem in ground arith in
    let stale : admissible (accepted seen between) c ≡ false =
      elem-not_admissible _ c (elem-accepted c seen between head) in
    elim (Bool-cases (admissible (accepted [] before) c)) [
      | inl fresh ↦
          let moved = (commit_accepts (run default before).0 _ c tracks fresh).1 in
          ap (λ r. r.1) (commit_refuses _ _ c (run-Tracks _ _ between moved).1 stale)
      | inr refused ↦ cc (ok, commit_refuses _ _ c tracks refused)
    ]
