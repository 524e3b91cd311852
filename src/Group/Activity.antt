-- ===== src/Group/Activity.antt =====
-- A flow counter as a map from ports to the time of their last packet.
use ntrt.Prelude.{
  ℕ, ◌+◌, ◌%◌, ◌^◌, ◌≡◌, refl, Bool, Option, none, some, List, [], ◌∷◌, ◌++◌, ◌==◌, if◌then◌else◌,
  arith, length, length-append,
}
use ntrt.Prelude.Word.{add32}
use ntrt.Prelude.Int.{ℤ}
use ntrt.Clock.{Mtime, diffmtime_fromnow, ltb_int}
use ntrt.Slist.{slist_append_lem}
use ntrt.Group.{Flow, Groupcounter, Prototype, refresh_loop, flows_add_or_refresh, init_flowcounter}

-- The time of the last packet of a port, if its flow is counted.
abbrev pub activity : List Flow → ℕ → Option Mtime
activity [] port = none
activity (f ∷ fs) port = if f.portnum == port then some f.last_activity else activity fs port

-- No port has two entries.
abbrev pub Distinct : List Flow → Type 0
Distinct [] = Unit
Distinct (f ∷ fs) = (activity fs f.portnum ≡ none) × Distinct fs

-- Every port has at most one entry, and the count is that of the entries.
pub record IsValid (g : Groupcounter) : Type 0 where
  pub distinct : Distinct g.flows
  pub counted : g.flowcounts ≡ length g.flows % 2 ^ 32

abbrev pub is_young : ℤ → Mtime → Mtime → Bool
is_young timeout now t = ltb_int (diffmtime_fromnow now t) timeout

pub init_flowcounter-IsValid : (time : ℕ) (i : Prototype) → IsValid (init_flowcounter time i)
unfolding init_flowcounter
init_flowcounter-IsValid time i = record { distinct = tt; counted = refl }

-- What the loop does to the time of a port: it sets that of the one it looks for, if that is there.
Refreshes : Option (List Flow) → List Flow → ℕ → Mtime → ℕ → Type 0
Refreshes none fs port now other = activity fs port ≡ none
Refreshes (some gs) fs port now other =
    activity gs other ≡ (if port == other then some now else activity fs other)

refresh_step :
    (o : Option (List Flow)) (f : Flow) (fs : List Flow) (port : ℕ) (now : Mtime) (other : ℕ)
    → Refreshes o fs port now other
    → Refreshes
        (if f.portnum == port
          then some (record f { last_activity = now } ∷ fs)
          else elim o [ none ↦ none | some it' ↦ some (f ∷ it') ])
        (f ∷ fs)
        port
        now
        other
unfolding Refreshes
refresh_step none f fs port now other h = ground arith
refresh_step (some gs) f fs port now other h = ground arith

refresh_loop_lem :
    (fs : List Flow) (port : ℕ) (now : Mtime) (other : ℕ)
    → Refreshes (refresh_loop fs port now) fs port now other
unfolding refresh_loop Refreshes
refresh_loop_lem [] port now other = refl
refresh_loop_lem (f ∷ fs) port now other =
    refresh_step (refresh_loop fs port now) f fs port now other (refresh_loop_lem fs port now other)

-- The loop keeps the number of the entries, and one for each port.
Keeps : Option (List Flow) → List Flow → Type 0
Keeps none fs = Unit
Keeps (some gs) fs = (length gs ≡ length fs) × Distinct gs

keep_step :
    (o : Option (List Flow)) (f : Flow) (fs : List Flow) (port : ℕ) (now : Mtime)
    → Refreshes o fs port now f.portnum
    → Keeps o fs
    → activity fs f.portnum ≡ none
    → Distinct fs
    → Keeps
        (if f.portnum == port
          then some (record f { last_activity = now } ∷ fs)
          else elim o [ none ↦ none | some it' ↦ some (f ∷ it') ])
        (f ∷ fs)
unfolding Refreshes Keeps
keep_step none f fs port now r k a d = ground arith
keep_step (some gs) f fs port now r k a d = ground arith

refresh_loop-Keeps :
    (fs : List Flow) (port : ℕ) (now : Mtime) → Distinct fs → Keeps (refresh_loop fs port now) fs
unfolding refresh_loop Keeps
refresh_loop-Keeps [] port now d = tt
refresh_loop-Keeps (f ∷ fs) port now d =
    keep_step (refresh_loop fs port now) f fs port now (refresh_loop_lem fs port now f.portnum)
      (refresh_loop-Keeps fs port now d.1) d.0 d.1

add32_suc : (n : ℕ) → add32 (n % 2 ^ 32) 1 ≡ (n + 1) % 2 ^ 32
unfolding add32
add32_suc n = omega arith

activity-append :
    (fs : List Flow) (f : Flow) (other : ℕ)
    → activity fs f.portnum ≡ none
    → activity (fs ++ f ∷ []) other
      ≡ (if f.portnum == other then some f.last_activity else activity fs other)
activity-append [] f other e = ground arith
activity-append (g ∷ fs) f other e = ground (arith, activity-append fs f other)

Distinct-append :
    (fs : List Flow) (f : Flow)
    → Distinct fs
    → activity fs f.portnum ≡ none
    → Distinct (fs ++ f ∷ [])
Distinct-append [] f d e = (refl, tt)
Distinct-append (g ∷ fs) f d e =
    (ground (arith, activity-append fs f g.portnum), Distinct-append fs f d.1 (ground arith))

-- A packet of a port sets the time of that port, and of no other.
pub flows_add_or_refresh_lem :
    (g : Groupcounter) (now : Mtime) (port other : ℕ)
    → activity (flows_add_or_refresh now g port).flows other
      ≡ (if port == other then some now else activity g.flows other)
unfolding flows_add_or_refresh Refreshes
flows_add_or_refresh_lem g now port other = ground (
  arith,
  refresh_loop_lem g.flows port now other,
  slist_append_lem g.flows (record { portnum = port; last_activity = now }),
  activity-append g.flows (record { portnum = port; last_activity = now }) other,
)

pub flows_add_or_refresh-IsValid :
    (g : Groupcounter) (now : Mtime) (port : ℕ)
    → IsValid g
    → IsValid (flows_add_or_refresh now g port)
unfolding flows_add_or_refresh Refreshes Keeps
flows_add_or_refresh-IsValid g now port v =
    let flow : Flow = record { portnum = port; last_activity = now } in
    let keeps = refresh_loop-Keeps g.flows port now v.distinct in
    let fresh = refresh_loop_lem g.flows port now port in
    record {
      distinct =
          ground (arith, slist_append_lem g.flows flow, Distinct-append g.flows flow v.distinct);
      counted = ground (
        arith,
        slist_append_lem g.flows flow,
        length-append g.flows (flow ∷ []),
        add32_suc (length g.flows),
      );
    }
