-- ===== src/Evaluator.antt =====
-- cmp/cmp_evaluator.c: a record of each packet, by the features of its listener, and the recycle
-- puffer of records, CMP_DEF_RECPUFFER of cmp/cmp_predefs.h. `none` is a fault.
pub mod Recycle
pub mod Process
pub mod Start
pub mod Sample
mod Tests
use ntrt.Prelude.{
  ℕ, zero, suc, ◌+◌, Bool, true, false, Option, none, some, List, [], ◌∷◌, get_or, get_elem?, set,
  if◌then◌else◌,
}
use ntrt.Prelude.Word.{ByteOrder}
use ntrt.Clock.{Mtime}
use ntrt.Record.{Record, zero_record}
use ntrt.Puffer
use ntrt.Puffer.{Puffer}
use ntrt.Slist.{slist_cpy}
use ntrt.Sniff.{Sniff}
use ntrt.Feature.Monad.{M}
use ntrt.Feature.Table.{evaluator}
use ntrt.Dmap.{Row}
use ntrt.Listener.{EvaluatorItem, Listener}

-- `cmp_evaluator_item_t`.
pub record CmpEvaluatorItem : Type 0 where
  pub evaluators : List EvaluatorItem
  pub feature_num : ℕ

-- `cmp_evaluator_t` and its recycle puffer. The containers, which the source shares with the
-- listener's list, live here.
pub record CmpEvaluator : Type 0 where
  pub evaluators : List CmpEvaluatorItem
  pub recycle : Puffer Record

-- `clean_record`.
unfoldable pub clean_record : Record → Record
unfolding zero_record
clean_record r = zero_record

-- `_cmp_recycle_process_receiver`: the record destroyed, if the puffer is full, and the puffer.
unfoldable pub recycle_receiver : Puffer Record → Record → Option Record × Puffer Record
unfolding clean_record
recycle_receiver p r =
    if Puffer.is_full p then (some r, p) else (none, Puffer.write p (clean_record r))

-- `_cmp_recycle_process_supplier`; `record_ctor` makes a zero record. `none` for NULL.
unfoldable pub recycle_supplier : Puffer Record → Option Record × Puffer Record
unfolding zero_record
recycle_supplier p = if Puffer.is_empty p then (some zero_record, p) else Puffer.read p

-- The loop of `_evaluator_start`: each listener's list is copied. `junk i` is what the copy's
-- uninitialised head points to.
unfoldable pub evaluator_start :
    (ℕ → List EvaluatorItem)
    → List (ℕ × Row Listener)
    → List CmpEvaluatorItem
    → Option (List CmpEvaluatorItem)
unfolding slist_cpy
evaluator_start junk [] evaluators = some evaluators
evaluator_start junk ((i, row) ∷ rows) evaluators = elim row.item [
  | none ↦ none
  | some l ↦ evaluator_start junk rows (
      set evaluators i
        (record { evaluators = slist_cpy (junk i) l.evaluators; feature_num = l.feature_num }))
]

module _ (o : ByteOrder) where
  -- The loop of `_evaluator_process` from item `i` on: the cells of the record, and the items.
  unfoldable pub evaluate_items : ℕ → List EvaluatorItem → List ℕ → M (List ℕ × List EvaluatorItem)
  unfolding evaluator
  evaluate_items i [] items s = some ((items, []), s)
  evaluate_items i (x ∷ it) items s = elim (evaluator o x.feature x.evaluator_container s) [
    | none ↦ none
    | some ((n, d), s') ↦ elim (evaluate_items (i + 1) it (set items i n) s') [
      | none ↦ none
      | some ((items', rest), s'') ↦
          some ((items', record x { evaluator_container = d } ∷ rest), s'')
    ]
  ]

  -- The part of `_evaluator_process` behind the record, which is given.
  unfoldable pub evaluate : Mtime → CmpEvaluatorItem → Record → M (Record × CmpEvaluatorItem)
  unfolding evaluate_items
  evaluate now e r s = elim (evaluate_items 0 e.evaluators r.items s) [
    | none ↦ none
    | some ((items, it), s') ↦ some (
      (
        record { items = items; listener_id = s'.listener_id; timestamp = now },
        record e { evaluators = it },
      ),
      s',
    )
  ]

  -- `_evaluator_process`: what it sends, NULL for an impulse, the component, and the sniff, whose memo
  -- the caller shares.
  unfoldable pub evaluator_process :
      Mtime → CmpEvaluator → Option Sniff → Option (Option Record × CmpEvaluator × Option Sniff)
  unfolding evaluate recycle_supplier
  evaluator_process now c none = some (none, c, none)
  evaluator_process now c (some s) =
      let (item, recycle) = recycle_supplier c.recycle in
      elim item [
        | none ↦ none
        | some r ↦ elim (get_elem? c.evaluators s.listener_id) [
          | none ↦ none
          | some e ↦ elim (evaluate now e r s) [
            | none ↦ none
            | some ((r', e'), s') ↦ some (
              some r',
              record { evaluators = set c.evaluators s.listener_id e'; recycle = recycle },
              some s',
            )
          ]
        ]
      ]
