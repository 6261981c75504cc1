-- ===== src/Dplpmtud.antt =====
-- lightway-core/src/connection/dplpmtud.rs: path MTU discovery. A method on `&mut self` returns the
-- action and the new manager. The timer is the caller's: `timer` holds what it was last told, the
-- seconds of `start` or, after `stop`, nothing.
pub mod Invariant
pub mod Rounds
pub mod Convergence
mod Runs
use lightway.Base.{
  ℕ, ◌+◌, ◌-◌, ◌%◌, ◌^◌, min, ◌≡◌, Bool, true, false, ◌&&◌, Option, none, some, ltb, ◌==◌,
  if◌then◌else◌,
}
use lightway.Wire.Data
use lightway.Wire.DataFrag

abbrev pub max_probes : ℕ
max_probes = 3

abbrev pub probe_big_step : ℕ
probe_big_step = 32

abbrev pub probe_small_step : ℕ
probe_small_step = 8

abbrev pub probe_time_timeout : ℕ
probe_time_timeout = 5

abbrev pub pmtu_raise_timer_timeout : ℕ
pmtu_raise_timer_timeout = 600

-- One byte of frame kind and `Ping::WIRE_OVERHEAD`.
abbrev pub probe_payload_size_for_plpmtu : ℕ → ℕ
probe_payload_size_for_plpmtu plpmtu = plpmtu - (1 + 4)

pub record PendingProbe : Type 0 where
  pub id : ℕ
  pub size : ℕ

pub data Action : Type 0 where
  send_probe_action : ℕ → ℕ → Action
  no_action : Action

pub data State : Type 0 where
  disabled base error searching search_complete : State

pub data StepSize : Type 0 where
  small big : StepSize

pub record Dplpmtud : Type 0 where
  pub max_plpmtu : ℕ
  pub base_plpmtu : ℕ
  pub state : State
  pub timer : Option ℕ
  pub plpmtu : ℕ
  pub probe_count : ℕ
  pub next_id : ℕ
  pub step_size : StepSize
  pub pending_probe : Option PendingProbe

pub new : ℕ → ℕ → Dplpmtud
new base_plpmtu max_plpmtu = record {
  max_plpmtu = max_plpmtu;
  base_plpmtu = base_plpmtu;
  state = disabled;
  timer = none;
  plpmtu = base_plpmtu;
  probe_count = 0;
  next_id = 1;
  step_size = big;
  pending_probe = none;
}

abbrev pub current_plpmtu : Dplpmtud → Option ℕ
current_plpmtu d = elim d.state [
  | searching ↦ some d.plpmtu
  | search_complete ↦ some d.plpmtu
  | _ ↦ none
]

pub maximum_packet_sizes : Dplpmtud → Option (ℕ × ℕ)
maximum_packet_sizes d = elim (current_plpmtu d) [
  | none ↦ none
  | some plpmtu ↦
      some
        (Data.maximum_packet_size_for_plpmtu plpmtu, DataFrag.maximum_packet_size_for_plpmtu plpmtu)
]

-- The 20 bytes of an IPv4 header, 8 of UDP and at most 37 of DTLS.
pub effective_pmtu : Dplpmtud → Option ℕ
effective_pmtu d = elim (current_plpmtu d) [
  | none ↦ none
  | some plpmtu ↦ some (plpmtu + 20 + 8 + 37)
]

-- The id that is next, and the one after it.
take_id : Dplpmtud → ℕ × Dplpmtud
take_id d = (d.next_id, record d { next_id = (d.next_id + 1) % 2 ^ 16 })

-- Where the id is zero the source calls itself, and finds the id one.
pub next_probe_id : Dplpmtud → ℕ × Dplpmtud
unfolding take_id
next_probe_id d = let taken = take_id d in if taken.0 == 0 then take_id taken.1 else taken

pub end_probe : Dplpmtud → Dplpmtud
end_probe d = record d { pending_probe = none; probe_count = 0; timer = none }

pub send_probe : ℕ → Dplpmtud → Action × Dplpmtud
send_probe size d =
    let taken = next_probe_id d in
    let d1 : Dplpmtud = taken.1 in
    (
      send_probe_action taken.0 (probe_payload_size_for_plpmtu size),
      record d1 {
        probe_count = d1.probe_count + 1;
        pending_probe = some (record { id = taken.0; size = size });
        timer = some probe_time_timeout;
      },
    )

pub base_probe_start : Dplpmtud → Action × Dplpmtud
base_probe_start d = send_probe d.base_plpmtu (record d { state = base; probe_count = 0 })

pub step_bytes : StepSize → ℕ
step_bytes big = probe_big_step
step_bytes small = probe_small_step

-- `self.plpmtu + step` is an addition of u16.
pub search_probe_start : StepSize → Dplpmtud → Action × Dplpmtud
search_probe_start step_size d =
    let next_plpmtu = min ((d.plpmtu + step_bytes step_size) % 2 ^ 16) d.max_plpmtu in
    send_probe next_plpmtu (record d { probe_count = 0; step_size = step_size })

pub search_start : Dplpmtud → Action × Dplpmtud
search_start d = search_probe_start big (record d { state = searching })

pub base_probe_confirmed : ℕ → Dplpmtud → Action × Dplpmtud
base_probe_confirmed size d =
    let ended = end_probe d in search_start (record ended { plpmtu = size })

pub enter_error : Dplpmtud → Action × Dplpmtud
enter_error d = let ended = end_probe d in send_probe d.base_plpmtu (record ended { state = error })

pub base_probe_timeout : Dplpmtud → Action × Dplpmtud
base_probe_timeout d =
    if ltb d.probe_count max_probes then send_probe d.base_plpmtu d else enter_error d

pub enter_search_complete : Dplpmtud → Action × Dplpmtud
enter_search_complete d =
    let ended = end_probe d in
    (no_action, record ended { state = search_complete; timer = some pmtu_raise_timer_timeout })

pub search_probe_confirmed : ℕ → Dplpmtud → Action × Dplpmtud
search_probe_confirmed size d =
    let d1 : Dplpmtud = record d { plpmtu = size } in
    if ltb size d.max_plpmtu then search_probe_start d.step_size d1 else enter_search_complete d1

is_big : StepSize → Bool
is_big big = true
is_big small = false

-- The `match` on the pending probe.
pub search_timeout_of : Option PendingProbe → Dplpmtud → Action × Dplpmtud
unfolding is_big
search_timeout_of (some pending) d =
    if ltb d.probe_count max_probes
    then send_probe pending.size d
    else if d.probe_count == max_probes && is_big d.step_size
    then search_probe_start small d
    else enter_search_complete d
search_timeout_of none d = enter_error d

pub search_probe_timeout : Dplpmtud → Action × Dplpmtud
search_probe_timeout d = search_timeout_of d.pending_probe d

pub complete_timeout_of : Option PendingProbe → Dplpmtud → Action × Dplpmtud
complete_timeout_of (some pending) d =
    if ltb d.probe_count max_probes then send_probe pending.size d else base_probe_start d
complete_timeout_of none d = send_probe d.plpmtu d

pub search_complete_probe_timeout : Dplpmtud → Action × Dplpmtud
search_complete_probe_timeout d = complete_timeout_of d.pending_probe d

online_in : State → Dplpmtud → Action × Dplpmtud
online_in disabled d = base_probe_start d
online_in _ d = (no_action, d)

pub online : Dplpmtud → Action × Dplpmtud
unfolding online_in
online d = online_in d.state d

pub offline : Dplpmtud → Action × Dplpmtud
offline d = let ended = end_probe d in (no_action, record ended { state = disabled })

-- The timer has fired.
pub tick_in : State → Dplpmtud → Action × Dplpmtud
tick_in disabled d = (no_action, d)
tick_in base d = base_probe_timeout d
tick_in error d = send_probe d.base_plpmtu d
tick_in searching d = search_probe_timeout d
tick_in search_complete d = search_complete_probe_timeout d

pub tick : Dplpmtud → Action × Dplpmtud
tick d = tick_in d.state d

-- The reply to the pending probe, of this size.
pub confirmed_in : State → ℕ → Dplpmtud → Action × Dplpmtud
confirmed_in disabled size d = (no_action, d)
confirmed_in base size d = base_probe_confirmed size d
confirmed_in error size d = base_probe_confirmed size d
confirmed_in searching size d = search_probe_confirmed size d
confirmed_in search_complete size d = search_start d

-- Every state but `disabled` compares the id with the pending probe's in the same way.
pub reply_to : Option PendingProbe → ℕ → Dplpmtud → Action × Dplpmtud
reply_to none id d = (no_action, d)
reply_to (some expected) id d =
    if id == expected.id then confirmed_in d.state expected.size d else (no_action, d)

pub pong_received : ℕ → Dplpmtud → Action × Dplpmtud
pong_received id d = if id == 0 then (no_action, d) else reply_to d.pending_probe id d

pub data Event : Type 0 where
  went_online went_offline ticked : Event
  ponged : ℕ → Event

pub step : Event → Dplpmtud → Action × Dplpmtud
step went_online d = online d
step went_offline d = offline d
step ticked d = tick d
step (ponged id) d = pong_received id d
