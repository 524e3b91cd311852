-- ===== src/Group/Component.antt =====
-- cmp/cmp_groupcounter.c: per listener, the counters of its prototypes. Locks are left out; each
-- entry point is one step.
use ntrt.Prelude.{ℕ, ◌+◌, Option, none, some, List, [], ◌∷◌, get_or, set}
use ntrt.Prelude.Word.{ByteOrder}
use ntrt.Clock.{Mtime}
use ntrt.Record.{Record, zero_record}
use ntrt.Slist.{slist_append}
use ntrt.Sniff.{Sniff}
use ntrt.Dmap.{Row}
use ntrt.Listener.{Listener}
use ntrt.Group.{Prototype, Groupcounter, init_flowcounter, add_sniff, flows_obsolate_and_get}

-- The loop of `_groupcounter_start` over the prototypes of one listener.
unfoldable pub make_counters : ℕ → List Prototype → List Groupcounter → List Groupcounter
unfolding slist_append init_flowcounter
make_counters time [] holder = holder
make_counters time (p ∷ it) holder =
    make_counters time it (slist_append holder (init_flowcounter time p))

-- `_groupcounter_start` over the rows that the listener table's iteration visits; `none` where it
-- reads a NULL listener.
unfoldable pub groupcounter_start :
    ℕ → List (ℕ × Row Listener) → List (List Groupcounter) → Option (List (List Groupcounter))
unfolding make_counters
groupcounter_start time [] holders = some holders
groupcounter_start time ((i, row) ∷ rows) holders = elim row.item [
  | none ↦ none
  | some l ↦
      groupcounter_start time rows
        (set holders i (make_counters time l.groupcounter_prototypes (get_or holders i [])))
]

-- `_groupcounter_stop`: the counters of each listener are destroyed.
unfoldable pub groupcounter_stop :
    List (ℕ × Row Listener) → List (List Groupcounter) → List (List Groupcounter)
groupcounter_stop [] holders = holders
groupcounter_stop ((i, row) ∷ rows) holders = groupcounter_stop rows (set holders i [])

module _ (o : ByteOrder) where
  -- The loop of `_groupcounter_sniff_receiver`; counter `k` takes reading `k` of the clock.
  unfoldable pub add_to_each :
      (ℕ → Mtime) → ℕ → List Groupcounter → Sniff → List Groupcounter × Sniff
  unfolding add_sniff
  add_to_each now k [] s = ([], s)
  add_to_each now k (g ∷ it) s =
      let (g', s') = add_sniff o g.interface (now k) g s in
      let (rest, s'') = add_to_each now (k + 1) it s' in (g' ∷ rest, s'')

  -- `_groupcounter_sniff_receiver`; `none` is the impulse, a NULL sniff.
  unfoldable pub groupcounter_sniff_receiver :
      (ℕ → Mtime)
      → List (List Groupcounter)
      → Option Sniff
      → ℕ
      → List (List Groupcounter) × Option Sniff
  unfolding add_to_each
  groupcounter_sniff_receiver now holders none listener_id = (holders, none)
  groupcounter_sniff_receiver now holders (some s) listener_id =
      let (counters, s') = add_to_each now 0 (get_or holders listener_id []) s in
      (set holders listener_id counters, some s')

-- The loop of `_groupcounter_record_requester` from item `i` on; counter `i` is read by the clock
-- `now i`.
unfoldable pub read_each :
    (ℕ → ℕ → Mtime) → ℕ → List Groupcounter → List ℕ → List ℕ × List Groupcounter
unfolding flows_obsolate_and_get
read_each now i [] items = (items, [])
read_each now i (g ∷ it) items =
    let (n, g') = flows_obsolate_and_get (now i) g in
    let (items', rest) = read_each now (i + 1) it (set items i n) in (items', g' ∷ rest)

-- `_groupcounter_record_requester`, whose record is stamped at `stamp`.
unfoldable pub groupcounter_record_requester :
    Mtime → (ℕ → ℕ → Mtime) → List (List Groupcounter) → ℕ → Record × List (List Groupcounter)
unfolding read_each
groupcounter_record_requester stamp now holders listener_id =
    let (items, counters) = read_each now 0 (get_or holders listener_id []) zero_record.items in
    (
      record { items = items; listener_id = listener_id; timestamp = stamp },
      set holders listener_id counters,
    )
