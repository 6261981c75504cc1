-- ===== src/Keepalive.antt =====
-- lightway-client/src/keepalive.rs: the loop of `keepalive`, one step for each branch of its `select!`.
-- Futures and the channel are outside: a step is told which branch fires, and a branch that its guard
-- or its pattern disables does not.
pub mod Laws
mod Runs
use lightway.Base.{
  ℕ, suc, ◌≡◌, Bool, true, false, ◌&&◌, ◌||◌, not, List, [], ◌∷◌, Option, none, some, if◌then◌else◌,
}

pub data Message : Type 0 where
  online outside_activity reply_received network_change tracer_delta_exceeded suspend : Message

pub data State : Type 0 where
  suspended inactive needed waiting pending : State

pub data KeepaliveResult : Type 0 where
  cancelled timedout : KeepaliveResult

-- The branches of the `select!`.
pub data Event : Type 0 where
  token_cancelled : Event
  received : Message → Event
  send_now interval_elapsed timeout_elapsed : Event

-- The state, and whether `timeout` holds a future: `timeout.is_terminated()` is its negation.
pub record Keepalive : Type 0 where
  pub state : State
  pub timeout : Bool

abbrev pub initial : Keepalive
initial = record { state = inactive; timeout = false }

-- What one iteration does: carry on, with or without a keepalive sent; return; or the branch is not
-- enabled.
pub data Step : Type 0 where
  continue sent : Keepalive → Step
  returned : KeepaliveResult → Step
  disabled : Step

is_idle : State → Bool
is_idle inactive = true
is_idle suspended = true
is_idle _ = false

is_pending_or_suspended : State → Bool
is_pending_or_suspended pending = true
is_pending_or_suspended suspended = true
is_pending_or_suspended _ = false

is_needed : State → Bool
is_needed needed = true
is_needed _ = false

is_ticking : State → Bool
is_ticking pending = true
is_ticking waiting = true
is_ticking _ = false

-- The `match` on the message; the flag is `config.continuous()`.
pub handle : Bool → Message → Keepalive → Keepalive
handle continuous online k =
    if is_idle k.state && continuous then record k { state = waiting } else k
handle continuous outside_activity k = record k { timeout = false }
handle continuous reply_received k = record {
  state = if continuous then waiting else inactive;
  timeout = false;
}
handle continuous network_change k = record { state = needed; timeout = false }
handle continuous tracer_delta_exceeded k =
    if not (is_pending_or_suspended k.state) then record k { state = needed } else k
handle continuous suspend k = record { state = suspended; timeout = false }

-- Both branches that send: the state is pending, and a timeout is started unless one runs.
pub send_keepalive : Keepalive → Keepalive
send_keepalive k = record { state = pending; timeout = if not k.timeout then true else k.timeout }

pub step : Bool → Event → Keepalive → Step
step continuous token_cancelled k = returned cancelled
step continuous (received msg) k = continue (handle continuous msg k)
step continuous send_now k = if is_needed k.state then sent (send_keepalive k) else disabled
step continuous interval_elapsed k =
    if is_ticking k.state then sent (send_keepalive k) else disabled
step continuous timeout_elapsed k = if k.timeout then returned timedout else disabled

-- A run of the loop: the keepalives sent, and how it stands. A disabled branch does not fire.
pub record Run : Type 0 where
  pub keepalives : ℕ
  pub at_end : Keepalive
  pub result : Option KeepaliveResult

pub run : Bool → List Event → Keepalive → Run
run continuous [] k = record { keepalives = 0; at_end = k; result = none }
run continuous (e ∷ es) k = elim (step continuous e k) [
  | continue k' ↦ run continuous es k'
  | sent k' ↦ let rest = run continuous es k' in record rest { keepalives = suc rest.keepalives }
  | returned r ↦ record { keepalives = 0; at_end = k; result = some r }
  | disabled ↦ run continuous es k
]
