-- ===== src/Machine/Tests.antt =====
-- The machine on the events of one run of the program.
use ntrt.Prelude.{ℕ, ◌≡◌, refl, inl, inr, true, false, some, List, [], ◌∷◌, ◌==◌, arith}
use ntrt.Machine.{
  sniffer, state_run, state_halt, event_start, event_stop, event_setup, fire_all, fsm_kill,
  fsm_ntrt_init, wait_loop,
}
use ntrt.Machine.Lifecycle.{IsState, follow, fire_all_lem, fsm_kill_lem, wait_loop_lem}

-- Set up, start twice, stop, start again.
abbrev events : List ℕ
events = event_setup ∷ event_start ∷ event_start ∷ event_stop ∷ event_start ∷ []

fire_all_example :
    (follow sniffer false (fire_all fsm_ntrt_init events).0
      ≡ some ((fire_all fsm_ntrt_init events).1 == state_run))
    × IsState (fire_all fsm_ntrt_init events).1
unfolding fsm_ntrt_init
fire_all_example = fire_all_lem sniffer events fsm_ntrt_init (inr refl)

fsm_kill_example :
    (follow sniffer true (fsm_kill state_run).0 ≡ some false)
    × ((fsm_kill state_run).1 ≡ state_halt)
fsm_kill_example = fsm_kill_lem sniffer state_run (inl refl)

wait_loop_example : wait_loop 10 4 0 ≡ 5
wait_loop_example = wait_loop_lem 10 4 (omega arith)
