-- ===== src/Sliding/Tests.antt =====
-- The sliding windows on small inputs.
use ntrt.Prelude.{ℕ, ◌≡◌, refl, Option, none, some, false, List, [], ◌∷◌, arith}
use ntrt.Clock.{Mtime}
use ntrt.Sliding.Int32.{
  null, item_address, Memory, IntWindow, Call, add, refresh, call_all, summed_window,
  swint32sum_add_pipe, swint32sum_rem_pipe,
}
use ntrt.Sliding.Push.{Added, slidingwindow_add_data_lem}
use ntrt.Sliding.Fresh.{Watched, window_lem, adds_lem, summed_window-Summed}

abbrev at_second : ℕ → ℕ → Mtime
at_second n k = record { tv_sec = n; tv_usec = 0 }

-- The memory before the window is made.
abbrev no_memory : Memory (List ℕ)
no_memory = record {
  item = 0;
  swstorage = record { storage = []; index = 0; length = 0 };
  summer = record { sum = 0; pipe = none; pipe_data = [] };
  faulted = false;
}

-- The sums are reported, the newest first.
abbrev reports : Option (List ℕ → ℕ → List ℕ)
reports = some (λ out sum. sum ∷ out)

abbrev timed_calls : List Call
timed_calls =
    add (at_second 1) 5
    ∷ add (at_second 2) 7
    ∷ add (at_second 3) 11
    ∷ refresh (at_second 4)
    ∷ add (at_second 5) 4294967295
    ∷ []

window_lem_example :
    let (s, m) = summed_window 2 2000 reports [] no_memory in
    Watched (call_all timed_calls s m) 2 (5 ∷ 7 ∷ 11 ∷ 4294967295 ∷ [])
window_lem_example = window_lem 2 2000 reports [] no_memory timed_calls

abbrev add_calls : List Call
add_calls = add (at_second 1) 5 ∷ add (at_second 1) 7 ∷ add (at_second 1) 11 ∷ []

adds_lem_example :
    let (s, m) = summed_window 2 0 reports [] no_memory in
    (next : IntWindow (List ℕ)) × (memory : Memory (List ℕ)) × (call_all add_calls s m
      ≡ some (next, memory))
    × (memory.summer.sum ≡ 18)
    × (memory.faulted ≡ false)
adds_lem_example = adds_lem 2 reports [] no_memory add_calls (omega arith) tt

-- A window of two items that expire after two seconds.
abbrev start : IntWindow (List ℕ) × Memory (List ℕ)
start = summed_window 2 2000 reports [] no_memory

slidingwindow_add_data_lem_example :
    Added null (at_second 1) start.0 item_address (record start.1 { item = 5 }) []
slidingwindow_add_data_lem_example =
    slidingwindow_add_data_lem null (at_second 1) start.0 item_address (record start.1 { item = 5 })
      [] (summed_window-Summed 2 2000 reports [] no_memory).held

-- The sums that the summer reports: the third number pushes out the first, the refresh of a full
-- window the second, the time the third.
timed_run :
    elim (call_all timed_calls start.0 start.1) [ none ↦ [] | some (s, m) ↦ m.summer.pipe_data ]
    ≡ 4294967295 ∷ 0 ∷ 11 ∷ 18 ∷ 7 ∷ 12 ∷ 5 ∷ []
unfolding call_all summed_window swint32sum_add_pipe swint32sum_rem_pipe
timed_run = refl
