-- ===== src/Connection/KeyUpdate.antt =====
-- lightway-core/src/connection/key_update.rs: when the keys of the TLS session are to be updated. The
-- clock is an argument: `now`, in the unit of the interval.
use lightway.Base.{
  ℕ, ◌+◌, ◌-◌, ◌≤◌, ◌≡◌, refl, inl, inr, Bool, true, false, List, [], ◌∷◌, ltb, ◌==◌, if◌then◌else◌,
  arith, Bool-cases,
}

pub data KeyUpdate : Type 0 where
  disabled : KeyUpdate
  initializing : ℕ → KeyUpdate
  waiting : ℕ → ℕ → KeyUpdate
  pending : ℕ → KeyUpdate

pub new : ℕ → KeyUpdate
new interval = if interval == 0 then disabled else initializing interval

pub is_pending : KeyUpdate → Bool
is_pending (pending interval) = true
is_pending disabled = false
is_pending (initializing interval) = false
is_pending (waiting interval last) = false

pub went_online : KeyUpdate → ℕ → KeyUpdate
went_online disabled now = disabled
went_online (initializing interval) now = waiting interval now
went_online (waiting interval last) now = waiting interval last
went_online (pending interval) now = pending interval

-- `last.elapsed()` is zero for a clock that went back.
pub required : KeyUpdate → ℕ → KeyUpdate × Bool
required disabled now = (disabled, false)
required (initializing interval) now = (initializing interval, false)
required (pending interval) now = (pending interval, false)
required (waiting interval last) now =
    if ltb (now - last) interval then (waiting interval last, false) else (pending interval, true)

pub complete : KeyUpdate → ℕ → KeyUpdate × Bool
complete disabled now = (disabled, false)
complete (initializing interval) now = (initializing interval, false)
complete (waiting interval last) now = (waiting interval last, false)
complete (pending interval) now = (waiting interval now, true)

-- The calls of a connection, each at its time.
pub data Call : Type 0 where
  call_online call_required call_complete : ℕ → Call

abbrev pub at_time : Call → ℕ
at_time (call_online now) = now
at_time (call_required now) = now
at_time (call_complete now) = now

pub step : KeyUpdate → Call → KeyUpdate × Bool
unfolding went_online required complete
step u (call_online now) = (went_online u now, false)
step u (call_required now) = required u now
step u (call_complete now) = ((complete u now).0, false)

-- The times at which an update was called for, over a run.
pub updates : KeyUpdate → List Call → List ℕ
updates u [] = []
updates u (call ∷ calls) =
    let rest = updates (step u call).0 calls in
    if (step u call).1 then at_time call ∷ rest else rest

-- Calls in the order of time, none before `now`.
abbrev pub IsTimed : ℕ → List Call → Type 0
IsTimed now [] = Unit
IsTimed now (call ∷ calls) = (now ≤ at_time call) × IsTimed (at_time call) calls

-- Times that each lie an interval after the one before, the first not before `bound`.
abbrev pub Spaced : ℕ → ℕ → List ℕ → Type 0
Spaced interval bound [] = Unit
Spaced interval bound (t ∷ ts) = (bound ≤ t) × Spaced interval (t + interval) ts

weaken :
    (interval low high : ℕ) (ts : List ℕ)
    → low ≤ high
    → Spaced interval high ts
    → Spaced interval low ts
weaken interval low high [] h s = tt
weaken interval low high (t ∷ ts) h (first, rest) = (omega arith, rest)

updates-disabled : (calls : List Call) → updates disabled calls ≡ []
unfolding updates step went_online required complete
updates-disabled [] = refl
updates-disabled (call_online now ∷ calls) = updates-disabled calls
updates-disabled (call_required now ∷ calls) = updates-disabled calls
updates-disabled (call_complete now ∷ calls) = updates-disabled calls

mutual
  unfolding updates step went_online required complete

  initializing-Spaced :
      (interval now : ℕ) (calls : List Call)
      → IsTimed now calls
      → Spaced interval (now + interval) (updates (initializing interval) calls)
  initializing-Spaced interval now [] t = tt
  initializing-Spaced interval now (call_online later ∷ calls) (h, t) =
      weaken interval (now + interval) (later + interval) _ (omega arith)
        (waiting-Spaced interval later later calls (omega arith) t)
  initializing-Spaced interval now (call_required later ∷ calls) (h, t) =
      weaken interval (now + interval) (later + interval) _ (omega arith)
        (initializing-Spaced interval later calls t)
  initializing-Spaced interval now (call_complete later ∷ calls) (h, t) =
      weaken interval (now + interval) (later + interval) _ (omega arith)
        (initializing-Spaced interval later calls t)

  pending-Spaced :
      (interval now : ℕ) (calls : List Call)
      → IsTimed now calls
      → Spaced interval (now + interval) (updates (pending interval) calls)
  pending-Spaced interval now [] t = tt
  pending-Spaced interval now (call_online later ∷ calls) (h, t) =
      weaken interval (now + interval) (later + interval) _ (omega arith)
        (pending-Spaced interval later calls t)
  pending-Spaced interval now (call_required later ∷ calls) (h, t) =
      weaken interval (now + interval) (later + interval) _ (omega arith)
        (pending-Spaced interval later calls t)
  pending-Spaced interval now (call_complete later ∷ calls) (h, t) =
      weaken interval (now + interval) (later + interval) _ (omega arith)
        (waiting-Spaced interval later later calls (omega arith) t)

  waiting-Spaced :
      (interval last now : ℕ) (calls : List Call)
      → last ≤ now
      → IsTimed now calls
      → Spaced interval (last + interval) (updates (waiting interval last) calls)
  waiting-Spaced interval last now [] l t = tt
  waiting-Spaced interval last now (call_online later ∷ calls) l (h, t) =
      waiting-Spaced interval last later calls (omega arith) t
  waiting-Spaced interval last now (call_complete later ∷ calls) l (h, t) =
      waiting-Spaced interval last later calls (omega arith) t
  waiting-Spaced interval last now (call_required later ∷ calls) l (h, t) =
      elim (Bool-cases (ltb (later - last) interval)) [
        | inl early ↦ rw early (waiting-Spaced interval last later calls (omega arith) t)
        | inr due ↦ rw due (ground arith, pending-Spaced interval later calls t)
      ]

-- However a connection calls for key updates, in the order of time, each update comes at least the
-- interval after the one before it, and an interval of zero means none.
pub updates-Spaced :
    (interval now : ℕ) (calls : List Call)
    → IsTimed now calls
    → Spaced interval now (updates (new interval) calls) × (updates (new 0) calls ≡ [])
unfolding new
updates-Spaced interval now calls t = elim (Bool-cases (interval == 0)) [
  | inl zero ↦ rw (zero, updates-disabled calls) (tt, refl)
  | inr some ↦ rw some (
    weaken interval now (now + interval) _ (omega arith) (initializing-Spaced interval now calls t),
    updates-disabled calls,
  )
]
