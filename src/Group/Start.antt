-- ===== src/Group/Start.antt =====
-- `_groupcounter_start` over the listener table.
use ntrt.Prelude.{
  ℕ, ◌≡◌, ◌∙◌, ◌+◌, sym, refl, ap, ◌≤◌, ◌<◌, arith, Option, none, some, List, [], ◌∷◌, ◌++◌, map,
  length, get_or, set,
}
use ntrt.Slist.{slist_append_lem, slist_append, append_nil, append_step}
use ntrt.Dmap.{Row, visit_all}
use ntrt.Dmap.Walk.{entries, visit_all_lem}
use ntrt.Dmap.Update.{AllItems, update, updated, update_lem}
use ntrt.Listener.{Listener}
use ntrt.Group.{Prototype, Groupcounter, init_flowcounter}
use ntrt.Group.Component.{make_counters, groupcounter_start}

zero_plus : (n : ℕ) → 0 + n ≡ n
zero_plus n = omega arith

make_counters_lem :
    (time : ℕ) (ps : List Prototype) (holder : List Groupcounter)
    → make_counters time ps holder ≡ holder ++ map (init_flowcounter time) ps
unfolding make_counters
make_counters_lem time [] holder = cc (append_nil holder)
make_counters_lem time (p ∷ ps) holder =
    make_counters_lem time ps (slist_append holder (init_flowcounter time p))
    ∙ ap (λ h. h ++ map (init_flowcounter time) ps)
        (slist_append_lem holder (init_flowcounter time p))
    ∙ append_step holder (init_flowcounter time p) (map (init_flowcounter time) ps)

module _ (time : ℕ) where
  -- The change that the start makes for one listener.
  abbrev started : ℕ → Listener → List Groupcounter → List Groupcounter
  started i l holder = make_counters time l.groupcounter_prototypes holder

  start_one :
      (item : Option Listener) (rows : List (ℕ × Row Listener)) (i : ℕ)
      (holders : List (List Groupcounter))
      → ((hs : List (List Groupcounter))
          → groupcounter_start time rows hs ≡ update started [] rows hs)
      → elim item [
        | none ↦ none
        | some l ↦ groupcounter_start time rows (set holders i (started i l (get_or holders i [])))
      ]
        ≡ elim item [
          | none ↦ none
          | some l ↦ update started [] rows (set holders i (started i l (get_or holders i [])))
        ]
  start_one none rows i holders h = refl
  start_one (some l) rows i holders h = h (set holders i (started i l (get_or holders i [])))

  start-update :
      (rows : List (ℕ × Row Listener)) (holders : List (List Groupcounter))
      → groupcounter_start time rows holders ≡ update started [] rows holders
  unfolding groupcounter_start update
  start-update [] holders = refl
  start-update ((i, row) ∷ rows) holders = start_one row.item rows i holders (start-update rows)

  -- What the start leaves for a listener, from the counters that were there.
  abbrev pub counters_of : Option (Row Listener) → List Groupcounter → List Groupcounter
  counters_of none holder = holder
  counters_of (some row) holder = elim row.item [
    | none ↦ holder
    | some l ↦ holder ++ map (init_flowcounter time) l.groupcounter_prototypes
  ]

  item_counters :
      (i : ℕ) (o : Option Listener) (holder : List Groupcounter)
      → elim o [ none ↦ holder | some l ↦ started i l holder ] ≡ elim o [
        | none ↦ holder
        | some l ↦ holder ++ map (init_flowcounter time) l.groupcounter_prototypes
      ]
  item_counters i none holder = refl
  item_counters i (some l) holder = make_counters_lem time l.groupcounter_prototypes holder

  updated_counters :
      (i : ℕ) (row : Option (Row Listener)) (holder : List Groupcounter)
      → updated started [] i row holder ≡ counters_of row holder
  updated_counters i none holder = refl
  updated_counters i (some row) holder = item_counters i row.item holder

  -- The start ends without a fault.
  pub record Started (rows : List (Option (Row Listener))) (holders : List (List Groupcounter))
      (i : ℕ) : Type 0 where
    pub final : List (List Groupcounter)
    pub runs : groupcounter_start time (visit_all rows) holders ≡ some final
    pub same_length : length final ≡ length holders
    pub counters : get_or final i [] ≡ counters_of (get_or rows i none) (get_or holders i [])

  -- On a table of listeners without a NULL item, no longer than the array of holders, the start ends,
  -- and gives the listener at index `i` of the table one fresh counter for each of its prototypes, in their
  -- order, behind the counters that it had.
  pub groupcounter_start_lem :
      (rows : List (Option (Row Listener))) (holders : List (List Groupcounter)) (i : ℕ)
      → AllItems rows
      → length rows ≤ length holders
      → i < length rows
      → Started rows holders i
  groupcounter_start_lem rows holders i h l l' =
      let u = update_lem started [] 0 rows holders h (omega arith) in
      record {
        final = u.final;
        runs =
            ap (λ v. groupcounter_start time v holders) (visit_all_lem rows)
            ∙ start-update (entries 0 rows) holders
            ∙ u.runs;
        same_length = u.same_length;
        counters =
            ap (λ j. get_or u.final j []) (sym (zero_plus i))
            ∙ u.cells i l'
            ∙ ap (λ j. updated started [] j (get_or rows i none) (get_or holders j []))
                (zero_plus i)
            ∙ updated_counters i (get_or rows i none) (get_or holders i []);
      }
