-- ===== src/Keepalive/Laws.antt =====
-- When a timeout is armed, and what a timed out run has seen.
use lightway.Base.{
  ◌≡◌, ◌≢◌, refl, subst, ◌⊎◌, inl, inr, Bool, true, false, List, [], ◌∷◌, some, arith, All,
  Bool-cases, if◌then◌else◌,
}
use lightway.Keepalive.{
  Message, online, outside_activity, reply_received, network_change, tracer_delta_exceeded, suspend,
  suspended, pending, cancelled, timedout, Event, token_cancelled, received, send_now,
  interval_elapsed, timeout_elapsed, Keepalive, initial, continue, sent, returned, disabled,
  is_idle, is_pending_or_suspended, is_needed, is_ticking, handle, send_keepalive, step, run,
}

-- "`timeout` is `Some` only when state == `State::Pending`."
abbrev pub IsArmedWell : Keepalive → Type 0
IsArmedWell k = k.timeout ≡ true → k.state ≡ pending

handle-IsArmedWell :
    (continuous : Bool) (m : Message) (k : Keepalive)
    → IsArmedWell k
    → IsArmedWell (handle continuous m k)
unfolding handle is_idle is_pending_or_suspended
handle-IsArmedWell continuous online k h = ground arith
handle-IsArmedWell continuous tracer_delta_exceeded k h = ground arith
handle-IsArmedWell continuous outside_activity k h = ground arith
handle-IsArmedWell continuous _ k h = ground arith

send_keepalive-IsArmedWell : (k : Keepalive) → IsArmedWell (send_keepalive k)
unfolding send_keepalive
send_keepalive-IsArmedWell k h = refl

-- The cases of a step.
abbrev StepCases : Bool → Event → Keepalive → Type 0
StepCases continuous e k =
    ((m : Message) × (e ≡ received m) × (step continuous e k ≡ continue (handle continuous m k)))
    ⊎ ((step continuous e k ≡ sent (send_keepalive k))
        ⊎ ((step continuous e k ≡ disabled)
            ⊎ ((step continuous e k ≡ returned cancelled)
                ⊎ ((step continuous e k ≡ returned timedout) × (k.timeout ≡ true)))))

step_cases : (continuous : Bool) (e : Event) (k : Keepalive) → StepCases continuous e k
unfolding step
step_cases continuous token_cancelled k = inr (inr (inr (inl refl)))
step_cases continuous (received m) k = inl (m, refl, refl)
step_cases continuous send_now k = elim (Bool-cases (is_needed k.state)) [
  | inl e ↦ rw e (inr (inl refl))
  | inr e ↦ rw e (inr (inr (inl refl)))
]
step_cases continuous interval_elapsed k = elim (Bool-cases (is_ticking k.state)) [
  | inl e ↦ rw e (inr (inl refl))
  | inr e ↦ rw e (inr (inr (inl refl)))
]
step_cases continuous timeout_elapsed k = elim (Bool-cases k.timeout) [
  | inl e ↦ rw e (inr (inr (inr (inr (refl, refl)))))
  | inr e ↦ rw e (inr (inr (inl refl)))
]

run-keeps :
    (continuous : Bool) (es : List Event) (k : Keepalive)
    → IsArmedWell k
    → IsArmedWell (run continuous es k).at_end
unfolding run
run-keeps continuous [] k h = h
run-keeps continuous (e ∷ es) k h = elim (step_cases continuous e k) [
  | inl (m, _, eq) ↦
      rw (eq, run)
        (run-keeps continuous es (handle continuous m k) (handle-IsArmedWell continuous m k h))
  | inr (inl eq) ↦
      rw (eq, run) (run-keeps continuous es (send_keepalive k) (send_keepalive-IsArmedWell k))
  | inr (inr (inl eq)) ↦ rw (eq, run) (run-keeps continuous es k h)
  | inr (inr (inr (inl eq))) ↦ rw (eq, run) h
  | inr (inr (inr (inr (eq, _)))) ↦ rw (eq, run) h
]

-- Whatever has happened since the start, the timeout is armed only while a reply is pending.
pub run-IsArmedWell :
    (continuous : Bool) (es : List Event) → IsArmedWell (run continuous es initial).at_end
run-IsArmedWell continuous es = run-keeps continuous es initial (λ h. cc)

-- Messages that start keepalives again: the only ones that take the loop out of its suspension.
abbrev pub is_wake_up : Message → Bool
is_wake_up online = true
is_wake_up network_change = true
is_wake_up reply_received = true
is_wake_up _ = false

abbrev pub NoWakeUp : Event → Type 0
NoWakeUp (received m) = is_wake_up m ≡ false
NoWakeUp _ = Unit

abbrev asleep : Keepalive
asleep = record { state = suspended; timeout = false }

step-asleep :
    (continuous : Bool) (e : Event)
    → NoWakeUp e
    → (step continuous e asleep ≡ continue asleep)
      ⊎ ((step continuous e asleep ≡ disabled) ⊎ (step continuous e asleep ≡ returned cancelled))
unfolding step handle is_pending_or_suspended is_needed is_ticking
step-asleep continuous token_cancelled h = inr (inr refl)
step-asleep continuous (received online) h = cc
step-asleep continuous (received network_change) h = cc
step-asleep continuous (received reply_received) h = cc
step-asleep continuous (received outside_activity) h = inl refl
step-asleep continuous (received tracer_delta_exceeded) h = inl refl
step-asleep continuous (received suspend) h = inl refl
step-asleep continuous _ h = inr (inl refl)

run-asleep :
    (continuous : Bool) (es : List Event)
    → All NoWakeUp es
    → ((run continuous es asleep).keepalives ≡ 0)
      × ((run continuous es asleep).result ≢ some timedout)
unfolding run
run-asleep continuous [] h = (refl, λ e. cc)
run-asleep continuous (e ∷ es) (h, hs) = elim (step-asleep continuous e h) [
  | inl eq ↦ rw (eq, run) (run-asleep continuous es hs)
  | inr (inl eq) ↦ rw (eq, run) (run-asleep continuous es hs)
  | inr (inr eq) ↦ rw (eq, run) (refl, λ e. cc)
]

-- Once it is told to suspend, the loop sends no keepalive and does not time out, in whatever state it
-- was and whatever fires, until it is online again, the network changes or a reply comes.
pub suspended_quiet :
    (continuous : Bool) (k : Keepalive) (es : List Event)
    → All NoWakeUp es
    → ((run continuous (received suspend ∷ es) k).keepalives ≡ 0)
      × ((run continuous (received suspend ∷ es) k).result ≢ some timedout)
unfolding run step handle
suspended_quiet continuous k es h = run-asleep continuous es h

-- Messages that call off a timeout: all but these two.
abbrev pub clears_timeout : Message → Bool
clears_timeout online = false
clears_timeout tracer_delta_exceeded = false
clears_timeout _ = true

after_message : Event → Bool → Bool
after_message (received m) waits = if clears_timeout m then false else waits
after_message _ waits = waits

-- Whether a keepalive was sent, and no message has come since that calls its timeout off: read off the
-- steps alone, up to the first that returns. `waits` is how it stood before.
pub unanswered : Bool → List Event → Keepalive → Bool → Bool
unanswered continuous [] k waits = waits
unanswered continuous (e ∷ es) k waits = elim (step continuous e k) [
  | sent k' ↦ unanswered continuous es k' true
  | continue k' ↦ unanswered continuous es k' (after_message e waits)
  | returned r ↦ waits
  | disabled ↦ unanswered continuous es k waits
]

handle_timeout :
    (continuous : Bool) (m : Message) (k : Keepalive)
    → (handle continuous m k).timeout ≡ after_message (received m) k.timeout
unfolding handle after_message
handle_timeout continuous online k = ground arith
handle_timeout continuous tracer_delta_exceeded k = ground arith
handle_timeout continuous outside_activity k = refl
handle_timeout continuous _ k = refl

send_timeout : (k : Keepalive) → (send_keepalive k).timeout ≡ true
unfolding send_keepalive
send_timeout k = ground arith

run-unanswered :
    (continuous : Bool) (es : List Event) (k : Keepalive)
    → (run continuous es k).result ≡ some timedout
    → unanswered continuous es k k.timeout ≡ true
unfolding run unanswered
run-unanswered continuous [] k h = cc
run-unanswered continuous (e ∷ es) k h = elim (step_cases continuous e k) [
  | inl (m, is, eq) ↦
      rw (eq, unanswered, is, ← handle_timeout continuous m k)
        (run-unanswered continuous es (handle continuous m k) (rw (eq, run) at h))
  | inr (inl eq) ↦
      rw (eq, unanswered)
        (subst (λ t. unanswered continuous es (send_keepalive k) t ≡ true) (send_timeout k)
          (run-unanswered continuous es (send_keepalive k) (rw (eq, run) at h)))
  | inr (inr (inl eq)) ↦ rw (eq, unanswered) (run-unanswered continuous es k (rw (eq, run) at h))
  | inr (inr (inr (inl eq))) ↦ let h' = rw (eq, run) at h in cc
  | inr (inr (inr (inr (eq, armed)))) ↦ rw (eq, unanswered) armed
]

-- The loop times out only where a keepalive was sent and no message has come since that calls its
-- timeout off.
pub timedout_unanswered :
    (continuous : Bool) (es : List Event)
    → (run continuous es initial).result ≡ some timedout
    → unanswered continuous es initial false ≡ true
timedout_unanswered continuous es h = run-unanswered continuous es initial h
