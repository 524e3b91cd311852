-- ===== src/Machine/Lifecycle.antt =====
-- The machine starts and stops each component in turn.
use ntrt.Prelude.{
  ℕ, zero, suc, ◌+◌, ◌≤◌, ◌<◌, ◌≡◌, ◌∙◌, ◌⊎◌, refl, ap, Bool, true, false, Option, none, some, List,
  [], ◌∷◌, ◌++◌, ◌==◌, arith, if◌then◌else◌,
}
use ntrt.Machine.{
  Component, sniffer, evaluator, recorder, accumulator, groupcounter, cmdexecutor, Action,
  construct, destroy, start, stop, connect_components, features_load, groupcounter_prototypes_load,
  con_load_from_file, rem_features, rem_pcapls, rem_mapped_vars, rem_threads, no_transition,
  unknown_state, state_run, state_halt, fsm_fire, fire_all, fsm_halt_trans, fsm_run_trans,
  cmps_ntrt_ctor, cmps_ntrt_dtor, sys_setup, sys_start, sys_stop, sys_shutdown, fsm_kill, wait_loop,
  event_stop, event_shutdown,
}

pub is_component : Component → Component → Bool
is_component sniffer sniffer = true
is_component evaluator evaluator = true
is_component recorder recorder = true
is_component accumulator accumulator = true
is_component groupcounter groupcounter = true
is_component cmdexecutor cmdexecutor = true
is_component _ _ = false

-- Follows whether the component `c` is started: `none` once it is started twice or stopped twice in
-- a row, or the machine met a state that it does not know.
pub follow_one : Component → Bool → Action → Option Bool
follow_one c b (start d) = if is_component c d then (if b then none else some true) else some b
follow_one c b (stop d) = if is_component c d then (if b then some false else none) else some b
follow_one c b (construct d) = some b
follow_one c b (destroy d) = some b
follow_one c b connect_components = some b
follow_one c b features_load = some b
follow_one c b groupcounter_prototypes_load = some b
follow_one c b con_load_from_file = some b
follow_one c b rem_features = some b
follow_one c b rem_pcapls = some b
follow_one c b rem_mapped_vars = some b
follow_one c b rem_threads = some b
follow_one c b no_transition = some b
follow_one c b unknown_state = none

pub follow : Component → Bool → List Action → Option Bool
follow c b [] = some b
follow c b (a ∷ rest) = elim (follow_one c b a) [ none ↦ none | some b' ↦ follow c b' rest ]

-- Past one action.
past_one :
    (c : Component) (o : Option Bool) (b' : Bool) (xs ys : List Action)
    → ((b : Bool) → follow c b xs ≡ some b' → follow c b (xs ++ ys) ≡ follow c b' ys)
    → elim o [ none ↦ none | some b ↦ follow c b xs ] ≡ some b'
    → elim o [ none ↦ none | some b ↦ follow c b (xs ++ ys) ] ≡ follow c b' ys
past_one c none b' xs ys h e = absurd (cc)
past_one c (some b) b' xs ys h e = h b e

follow-append :
    (c : Component) (b b' : Bool) (xs ys : List Action)
    → follow c b xs ≡ some b'
    → follow c b (xs ++ ys) ≡ follow c b' ys
unfolding follow
follow-append c b b' [] ys e = ap (λ o. elim o [ none ↦ none | some x ↦ follow c x ys ]) e
follow-append c b b' (x ∷ xs) ys e =
    past_one c (follow_one c b x) b' xs ys (λ b'' e'. follow-append c b'' b' xs ys e') e

-- The states that the machine reaches.
abbrev pub IsState : ℕ → Type 0
IsState n = (n ≡ state_run) ⊎ (n ≡ state_halt)

-- One event follows the component from whether the machine runs to whether it runs, and leads to a
-- state that it knows.
fire_follows :
    (c : Component) (n event : ℕ)
    → IsState n
    → (follow c (n == state_run) (fsm_fire n event).0 ≡ some ((fsm_fire n event).1 == state_run))
      × IsState (fsm_fire n event).1
unfolding fsm_fire fsm_halt_trans fsm_run_trans cmps_ntrt_ctor cmps_ntrt_dtor sys_setup sys_start
    sys_stop sys_shutdown follow follow_one is_component
fire_follows sniffer n event s = ground arith
fire_follows evaluator n event s = ground arith
fire_follows recorder n event s = ground arith
fire_follows accumulator n event s = ground arith
fire_follows groupcounter n event s = ground arith
fire_follows cmdexecutor n event s = ground arith

-- Whatever events are fired at the machine, from a state that it knows, no component is ever started
-- while it is started nor stopped while it is not, the machine never meets a state that it does not
-- know, and at the end a component is started exactly if the machine runs.
pub fire_all_lem :
    (c : Component) (events : List ℕ) (n : ℕ)
    → IsState n
    → (follow c (n == state_run) (fire_all n events).0 ≡ some ((fire_all n events).1 == state_run))
      × IsState (fire_all n events).1
unfolding fire_all follow
fire_all_lem c [] n s = (refl, s)
fire_all_lem c (e ∷ events) n s =
    let (one, s') = fire_follows c n e s in
    let (rest, s'') = fire_all_lem c events (fsm_fire n e).1 s' in
    (
      follow-append c (n == state_run) ((fsm_fire n e).1 == state_run) (fsm_fire n e).0
            (fire_all (fsm_fire n e).1 events).0 one
          ∙ rest,
      s'',
    )

kill-halt : (n : ℕ) → IsState n → (fire_all n (event_stop ∷ event_shutdown ∷ [])).1 ≡ state_halt
unfolding fire_all fsm_fire fsm_halt_trans fsm_run_trans
kill-halt n s = ground arith

-- `fsm_kill` brings the machine from any state that it knows to the halted one, and leaves every
-- component stopped.
pub fsm_kill_lem :
    (c : Component) (n : ℕ)
    → IsState n
    → (follow c (n == state_run) (fsm_kill n).0 ≡ some false) × ((fsm_kill n).1 ≡ state_halt)
unfolding fsm_kill
fsm_kill_lem c n s =
    let (ends, _) = fire_all_lem c (event_stop ∷ event_shutdown ∷ []) n s in
    let halted = kill-halt n s in (ends ∙ ap (λ t. some (t == state_run)) halted, halted)

wait_loop_from :
    (n limit sec : ℕ) → sec ≤ limit → limit < n + sec → wait_loop n limit sec + sec ≡ limit + 1
unfolding wait_loop
wait_loop_from zero limit sec h l = absurd (omega arith)
wait_loop_from (suc n) limit sec h l = ground (arith, wait_loop_from n limit (sec + 1))

-- With a time limit, the main loop sleeps one second more than the limit, for any bound on its rounds
-- above the limit.
pub wait_loop_lem : (n limit : ℕ) → limit < n → wait_loop n limit 0 ≡ limit + 1
wait_loop_lem n limit l = omega (arith, wait_loop_from n limit 0 (omega arith) (omega arith))
