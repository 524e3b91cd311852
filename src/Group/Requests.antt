-- ===== src/Group/Requests.antt =====
-- The entry points of cmp/cmp_groupcounter.c on the counters of one listener.
use ntrt.Prelude.{
  ℕ, ◌+◌, ◌%◌, ◌^◌, ◌≤◌, ◌<◌, ◌≡◌, ◌≢◌, refl, ◌∙◌, ◌&&◌, some, List, [], ◌∷◌, ◌==◌, if◌then◌else◌,
  arith, length, get_or, set, length-set, get_or-set_self, get_or-set_ne,
}
use ntrt.Prelude.Word.{ByteOrder}
use ntrt.Clock.{Mtime}
use ntrt.Record.{zero_record}
use ntrt.Sniff.{Sniff}
use ntrt.Sniff.Packet.{IsBytes}
use ntrt.Sniff.Memo
use ntrt.Group.{Groupcounter, add_sniff, flows_obsolate_and_get}
use ntrt.Group.Activity.{activity, IsValid}
use ntrt.Group.Timeout.{place, unless_old, flows_obsolate_and_get_lem}
use ntrt.Group.Sniffs.{concerns, port_of, add_sniff_lem}
use ntrt.Group.Component.{
  add_to_each, groupcounter_sniff_receiver, read_each, groupcounter_record_requester,
}

abbrev pub AllValid : List Groupcounter → Type 0
AllValid [] = Unit
AllValid (g ∷ gs) = IsValid g × AllValid gs

-- Each counter against what a packet, seen at reading `k` and on, makes of it.
abbrev pub Sniffed : (ℕ → ℕ) → (ℕ → Mtime) → ℕ → ℕ → List Groupcounter → List Groupcounter → Type 0
Sniffed m now other k [] [] = Unit
Sniffed m now other k [] (_ ∷ _) = ⊥
Sniffed m now other k (_ ∷ _) [] = ⊥
Sniffed m now other k (g ∷ gs) (g' ∷ gs') =
    (activity g'.flows other ≡ (
      if concerns g.interface m && port_of g.interface m == other
      then some (now k)
      else activity g.flows other))
    × IsValid g'
    × Sniffed m now other (k + 1) gs gs'

add_to_each_lem :
    (o : ByteOrder) (m : ℕ → ℕ) (bytes : IsBytes m) (now : ℕ → Mtime) (other k : ℕ)
    (gs : List Groupcounter) (s : Sniff)
    → Memo.IsValid o m s
    → AllValid gs
    → Sniffed m now other k gs (add_to_each o now k gs s).0
      × Memo.IsValid o m (add_to_each o now k gs s).1
unfolding add_to_each
add_to_each_lem o m bytes now other k [] s v a = (tt, v)
add_to_each_lem o m bytes now other k (g ∷ gs) s v (gv, a) =
    let (seen, valid, memo) = add_sniff_lem o m bytes (now k) g s v g.interface other gv in
    let (rest, memo') =
      add_to_each_lem o m bytes now other (k + 1) gs (add_sniff o g.interface (now k) g s).1 memo
        a in
    ((seen, valid, rest), memo')

-- A packet is counted by each counter of its listener that it concerns, at its own port and at no
-- other, and by no counter of another listener `j`. The counters stay valid.
pub groupcounter_sniff_receiver_lem :
    (o : ByteOrder) (m : ℕ → ℕ) (bytes : IsBytes m) (now : ℕ → Mtime)
    (holders : List (List Groupcounter)) (s : Sniff) (listener_id j other : ℕ)
    → Memo.IsValid o m s
    → listener_id < length holders
    → listener_id ≢ j
    → AllValid (get_or holders listener_id [])
    → Sniffed m now other 0
        (get_or holders listener_id [])
        (get_or (groupcounter_sniff_receiver o now holders (some s) listener_id).0 listener_id [])
      × (get_or (groupcounter_sniff_receiver o now holders (some s) listener_id).0 j []
          ≡ get_or holders j [])
unfolding groupcounter_sniff_receiver
groupcounter_sniff_receiver_lem o m bytes now holders s id j other v l ne a =
    let counters : List Groupcounter = (add_to_each o now 0 (get_or holders id []) s).0 in
    (
      rw (get_or-set_self holders id counters [] l)
          (add_to_each_lem o m bytes now other 0 (get_or holders id []) s v a).0,
      get_or-set_ne holders id j counters [] ne,
    )

-- Each counter, read from counter `i` on: its cell is the number of its flows that are left, which
-- are those whose last packet was young enough.
abbrev pub Reported :
    (ℕ → ℕ → Mtime) → ℕ → ℕ → List Groupcounter → List Groupcounter → List ℕ → Type 0
Reported now port i [] [] items = Unit
Reported now port i [] (_ ∷ _) items = ⊥
Reported now port i (_ ∷ _) [] items = ⊥
Reported now port i (g ∷ gs) (g' ∷ gs') items =
    (get_or items i 0 ≡ length g'.flows % 2 ^ 32)
    × IsValid g'
    × (activity g'.flows port
        ≡ unless_old g.timeout_treshold (now i) (place g.flows port) (activity g.flows port))
    × Reported now port (i + 1) gs gs' items

read_each_before :
    (now : ℕ → ℕ → Mtime) (gs : List Groupcounter) (i : ℕ) (items : List ℕ) (j : ℕ)
    → j < i
    → get_or (read_each now i gs items).0 j 0 ≡ get_or items j 0
unfolding read_each
read_each_before now [] i items j l = refl
read_each_before now (g ∷ gs) i items j l =
    read_each_before now gs (i + 1) (set items i (flows_obsolate_and_get (now i) g).0) j
      (omega arith)
    ∙ get_or-set_ne items i j (flows_obsolate_and_get (now i) g).0 0 (λ e. absurd (omega arith))

read_each_lem :
    (now : ℕ → ℕ → Mtime) (port : ℕ) (gs : List Groupcounter) (i : ℕ) (items : List ℕ)
    → AllValid gs
    → i + length gs ≤ length items
    → Reported now port i gs (read_each now i gs items).1 (read_each now i gs items).0
unfolding read_each
read_each_lem now port [] i items a l = tt
read_each_lem now port (g ∷ gs) i items (gv, a) l =
    let n : ℕ = (flows_obsolate_and_get (now i) g).0 in
    let r = flows_obsolate_and_get_lem (now i) g port gv in
    (
      read_each_before now gs (i + 1) (set items i n) i (omega arith)
          ∙ get_or-set_self items i n 0 (omega arith)
          ∙ r.count,
      r.valid,
      r.active,
      read_each_lem now port gs (i + 1) (set items i n) a (omega (arith, length-set items i n)),
    )

-- The record requested for a listener of at most 64 valid counters has, for each of them in order,
-- the number of the flows left, which are those young enough; it bears the listener's index.
pub groupcounter_record_requester_lem :
    (stamp : Mtime) (now : ℕ → ℕ → Mtime) (holders : List (List Groupcounter))
    (listener_id port : ℕ)
    → listener_id < length holders
    → AllValid (get_or holders listener_id [])
    → length (get_or holders listener_id []) ≤ 64
    → Reported now port 0
        (get_or holders listener_id [])
        (get_or (groupcounter_record_requester stamp now holders listener_id).1 listener_id [])
        (groupcounter_record_requester stamp now holders listener_id).0.items
      × ((groupcounter_record_requester stamp now holders listener_id).0.listener_id ≡ listener_id)
unfolding groupcounter_record_requester zero_record
groupcounter_record_requester_lem stamp now holders id port l a n =
    let gs : List Groupcounter = get_or holders id [] in
    (
      rw (get_or-set_self holders id (read_each now 0 gs zero_record.items).1 [] l)
          (read_each_lem now port gs 0 zero_record.items a (omega arith)),
      refl,
    )
