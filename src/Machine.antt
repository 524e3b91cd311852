-- ===== src/Machine.antt =====
-- fsm/, the machine of the program: fsm.c, fsm_halt.c, fsm_run.c and fsm_cmpactions.c, and the events
-- that ntrt.c fires. What a transition does is the list of its actions, in order.
pub mod Lifecycle
mod Tests
use ntrt.Prelude.{ℕ, zero, suc, ◌+◌, Bool, List, [], ◌∷◌, ◌++◌, ◌==◌, ltb, if◌then◌else◌}

pub data Component : Type 0 where
  sniffer evaluator recorder accumulator groupcounter cmdexecutor : Component

-- What the transitions do: calls of a component's constructor, destructor, `start` and `stop` (the
-- sniffer's for each listener of the table), and calls of the other modules.
pub data Action : Type 0 where
  construct destroy start stop : Component → Action
  connect_components features_load groupcounter_prototypes_load con_load_from_file : Action
  rem_features rem_pcapls rem_mapped_vars rem_threads : Action
  no_transition unknown_state : Action

-- `fsm_states_t` and `fsm_events_t`.
abbrev pub state_run : ℕ
state_run = 0

abbrev pub state_halt : ℕ
state_halt = 1

abbrev pub event_start : ℕ
event_start = 64

abbrev pub event_stop : ℕ
event_stop = 68

abbrev pub event_setup : ℕ
event_setup = 72

abbrev pub event_shutdown : ℕ
event_shutdown = 76

-- `_cmps_ntrt_ctor`.
unfoldable pub cmps_ntrt_ctor : List Action
cmps_ntrt_ctor =
    construct sniffer
    ∷ construct evaluator
    ∷ construct recorder
    ∷ construct accumulator
    ∷ construct groupcounter
    ∷ construct cmdexecutor
    ∷ connect_components
    ∷ []

-- `_cmps_ntrt_dtor`.
unfoldable pub cmps_ntrt_dtor : List Action
cmps_ntrt_dtor =
    destroy sniffer
    ∷ destroy evaluator
    ∷ destroy recorder
    ∷ destroy accumulator
    ∷ destroy groupcounter
    ∷ destroy cmdexecutor
    ∷ []

-- `_sys_setup`.
unfoldable pub sys_setup : List Action
sys_setup = features_load ∷ groupcounter_prototypes_load ∷ con_load_from_file ∷ []

-- `_sys_start`.
unfoldable pub sys_start : List Action
sys_start =
    start accumulator
    ∷ start recorder
    ∷ start evaluator
    ∷ start groupcounter
    ∷ start cmdexecutor
    ∷ start sniffer
    ∷ []

-- `_sys_stop`.
unfoldable pub sys_stop : List Action
sys_stop =
    stop accumulator
    ∷ stop recorder
    ∷ stop evaluator
    ∷ stop cmdexecutor
    ∷ stop groupcounter
    ∷ stop sniffer
    ∷ []

-- `_sys_shutdown`.
unfoldable pub sys_shutdown : List Action
sys_shutdown = rem_features ∷ rem_pcapls ∷ rem_mapped_vars ∷ rem_threads ∷ []

-- `_fsm_halt_trans`: what it does, and the state that it returns.
unfoldable pub fsm_halt_trans : ℕ → ℕ → List Action × ℕ
unfolding cmps_ntrt_ctor cmps_ntrt_dtor sys_setup sys_start sys_shutdown
fsm_halt_trans current event =
    if event == event_setup
    then (cmps_ntrt_ctor ++ sys_setup, state_halt)
    else if event == event_start
    then (sys_start, state_run)
    else if event == event_shutdown
    then (sys_shutdown ++ cmps_ntrt_dtor, state_halt)
    else (no_transition ∷ [], current)

-- `_fsm_run_trans`.
unfoldable pub fsm_run_trans : ℕ → ℕ → List Action × ℕ
unfolding sys_stop
fsm_run_trans current event =
    if event == event_stop then (sys_stop, state_halt) else (no_transition ∷ [], current)

-- `_fsm_fire` on `this->current`.
unfoldable pub fsm_fire : ℕ → ℕ → List Action × ℕ
unfolding fsm_run_trans fsm_halt_trans
fsm_fire current event =
    if current == state_run
    then fsm_run_trans current event
    else if current == state_halt
    then fsm_halt_trans current event
    else (unknown_state ∷ [], current)

-- Events fired one after the other.
unfoldable pub fire_all : ℕ → List ℕ → List Action × ℕ
unfolding fsm_fire
fire_all current [] = ([], current)
fire_all current (e ∷ es) =
    let (actions, next) = fsm_fire current e in
    let (rest, final) = fire_all next es in (actions ++ rest, final)

-- `fsm_kill`.
unfoldable pub fsm_kill : ℕ → List Action × ℕ
unfolding fire_all
fsm_kill current = fire_all current (event_stop ∷ event_shutdown ∷ [])

-- The state after `_fsm_ntrt_init`.
unfoldable pub fsm_ntrt_init : ℕ
fsm_ntrt_init = state_halt

-- The loop of `program_main` with a time limit: the number of its rounds of a second, from `sec` on,
-- at most `n`.
unfoldable pub wait_loop : ℕ → ℕ → ℕ → ℕ
wait_loop zero limit sec = 0
wait_loop (suc n) limit sec =
    let rest : ℕ = wait_loop n limit (sec + 1) in if ltb limit (sec + 1) then 1 else suc rest
