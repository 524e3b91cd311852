-- ===== src/Evaluator/Process.antt =====
-- `_evaluator_process` on a packet: the record that it sends.
use ntrt.Prelude.{
  ℕ, zero, ◌+◌, ◌≤◌, ◌<◌, ◌≡◌, ◌∙◌, refl, ap, Option, none, some, List, [], ◌∷◌, arith, length,
  get_elem?, get_or, set, length-set, get_or-replicate_same, get_elem?-set, get_or-set_self,
  get_or-set_ne,
}
use ntrt.Prelude.Word.{ByteOrder}
use ntrt.Clock.{Mtime}
use ntrt.Record.{Record, zero_record, max_features_num}
use ntrt.Sniff.{Sniff}
use ntrt.Sniff.Packet.{IsBytes}
use ntrt.Sniff.Memo.{IsValid}
use ntrt.Feature.Monad.{Container}
use ntrt.Feature.Table.{evaluator}
use ntrt.Feature.Spec.{Counts, counted, meaning}
use ntrt.Feature.Counts.{evaluator_lem}
use ntrt.Feature.Keeps.{Belongs, evaluator_keeps}
use ntrt.Listener.{EvaluatorItem}
use ntrt.Evaluator.{
  CmpEvaluator, CmpEvaluatorItem, evaluate_items, evaluate, evaluator_process, recycle_supplier,
}
use ntrt.Evaluator.Recycle.{Stocked, recycle_supplier_lem}

module _ (o : ByteOrder) (m : ℕ → ℕ) (bytes : IsBytes m) where
  -- An evaluation ended with the count and the container of its meaning.
  record Ran (x : EvaluatorItem) (s : Sniff) : Type 0 where
    memo : Sniff
    same_listener : memo.listener_id ≡ s.listener_id
    runs :
        evaluator o x.feature x.evaluator_container s
        ≡ some (counted o (meaning x.feature) m x.evaluator_container, memo)
    valid : IsValid o m memo

  Ran-of :
      (x : EvaluatorItem) (s : Sniff) (r : Option ((ℕ × Container) × Sniff))
      → evaluator o x.feature x.evaluator_container s ≡ r
      → Counts o m r (counted o (meaning x.feature) m x.evaluator_container)
      → Belongs s.listener_id r
      → Ran x s
  Ran-of x s none e c b = absurd c
  Ran-of x s (some (a, s')) e (k, v) b = record {
    memo = s';
    same_listener = b;
    runs = e ∙ ap (λ t. some (t, s')) k;
    valid = v;
  }

  ran : (x : EvaluatorItem) (s : Sniff) → IsValid o m s → Ran x s
  ran x s v =
      Ran-of x s (evaluator o x.feature x.evaluator_container s) refl
        (evaluator_lem x.feature o m bytes s v x.evaluator_container)
        (evaluator_keeps o x.feature x.evaluator_container s)

  -- The cells from `i` on, and the items, against the meanings of their features.
  abbrev pub Evaluated : ℕ → List EvaluatorItem → List EvaluatorItem → List ℕ → Type 0
  Evaluated i [] [] items = get_or items i 0 ≡ zero
  Evaluated i [] (_ ∷ _) items = ⊥
  Evaluated i (_ ∷ _) [] items = ⊥
  Evaluated i (x ∷ xs) (y ∷ ys) items =
      ((get_or items i 0, y.evaluator_container)
        ≡ counted o (meaning x.feature) m x.evaluator_container)
      × (y.feature ≡ x.feature)
      × Evaluated (i + 1) xs ys items

  -- The loop ended: each cell from `i` on is what its feature means, those before are left alone.
  record Looped (i : ℕ) (xs : List EvaluatorItem) (items : List ℕ) (s : Sniff) : Type 0 where
    cells : List ℕ
    final : List EvaluatorItem
    memo : Sniff
    runs : evaluate_items o i xs items s ≡ some ((cells, final), memo)
    same_listener : memo.listener_id ≡ s.listener_id
    valid : IsValid o m memo
    same_length : length cells ≡ length items
    before : (j : ℕ) → j < i → get_or cells j 0 ≡ get_or items j 0
    evaluated : Evaluated i xs final cells

  loop_runs :
      (i : ℕ) (x : EvaluatorItem) (xs : List EvaluatorItem) (items : List ℕ) (s s' s'' : Sniff)
      (n : ℕ) (d : Container) (cells : List ℕ) (final : List EvaluatorItem)
      → evaluator o x.feature x.evaluator_container s ≡ some ((n, d), s')
      → evaluate_items o (i + 1) xs (set items i n) s' ≡ some ((cells, final), s'')
      → evaluate_items o i (x ∷ xs) items s
        ≡ some ((cells, record x { evaluator_container = d } ∷ final), s'')
  unfolding evaluate_items
  loop_runs i x xs items s s' s'' n d cells final e f = cc

  evaluate_items_lem :
      (i : ℕ) (xs : List EvaluatorItem) (items : List ℕ) (s : Sniff)
      → IsValid o m s
      → i + length xs ≤ length items
      → ((j : ℕ) → i ≤ j → get_or items j 0 ≡ zero)
      → Looped i xs items s
  unfolding evaluate_items
  evaluate_items_lem i [] items s v l z = record {
    cells = items;
    final = [];
    memo = s;
    runs = refl;
    same_listener = refl;
    valid = v;
    same_length = refl;
    before = λ j k. refl;
    evaluated = z i (omega arith);
  }
  evaluate_items_lem i (x ∷ xs) items s v l z =
      let r = ran x s v in
      let (n, d) = counted o (meaning x.feature) m x.evaluator_container in
      let rest =
        evaluate_items_lem (i + 1) xs (set items i n) r.memo r.valid
          (omega (arith, length-set items i n))
          (λ j k. get_or-set_ne items i j n 0 (λ e. absurd (omega arith)) ∙ z j (omega arith)) in
      record {
        cells = rest.cells;
        final = record x { evaluator_container = d } ∷ rest.final;
        memo = rest.memo;
        runs = loop_runs i x xs items s r.memo rest.memo n d rest.cells rest.final r.runs rest.runs;
        same_listener = rest.same_listener ∙ r.same_listener;
        valid = rest.valid;
        same_length = rest.same_length ∙ length-set items i n;
        before = λ j k.
            rest.before j (omega arith) ∙ get_or-set_ne items i j n 0 (λ e. absurd (omega arith));
        evaluated = (
          ap (λ t. (t, d))
              (rest.before i (omega arith) ∙ get_or-set_self items i n 0 (omega arith)),
          refl,
          rest.evaluated,
        );
      }

  zero_items : (j : ℕ) → get_or zero_record.items j 0 ≡ zero
  unfolding zero_record
  zero_items j = get_or-replicate_same max_features_num 0 j

  zero_length : length zero_record.items ≡ max_features_num
  unfolding zero_record
  zero_length = refl

  -- The evaluator sent a record of a packet for the item `e` of its listener.
  pub record Processed (now : Mtime) (c : CmpEvaluator) (s : Sniff) (e : CmpEvaluatorItem)
      : Type 0 where
    pub sent : Record
    pub memo : Sniff
    pub item : CmpEvaluatorItem
    pub count : ℕ
    pub next : CmpEvaluator
    pub runs : evaluator_process o now c (some s) ≡ some (some sent, next, some memo)
    pub evaluated : Evaluated 0 e.evaluators item.evaluators sent.items
    pub wide : length sent.items ≡ max_features_num
    pub listener : sent.listener_id ≡ s.listener_id
    pub stamp : sent.timestamp ≡ now
    pub memo_valid : IsValid o m memo
    pub stored : get_elem? next.evaluators s.listener_id ≡ some item
    pub supplied : next.recycle ≡ (recycle_supplier c.recycle).1
    pub stocked : Stocked next.recycle count

  process_runs :
      (now : Mtime) (c : CmpEvaluator) (s s' : Sniff) (e : CmpEvaluatorItem) (cells : List ℕ)
      (final : List EvaluatorItem)
      → (recycle_supplier c.recycle).0 ≡ some zero_record
      → get_elem? c.evaluators s.listener_id ≡ some e
      → evaluate_items o 0 e.evaluators zero_record.items s ≡ some ((cells, final), s')
      → evaluator_process o now c (some s)
        ≡ some (
          some (record { items = cells; listener_id = s'.listener_id; timestamp = now }),
          record {
            evaluators = set c.evaluators s.listener_id (record e { evaluators = final });
            recycle = (recycle_supplier c.recycle).1;
          },
          some s',
        )
  unfolding evaluator_process evaluate
  process_runs now c s s' e cells final f g h = cc

  -- On a packet for a listener of at most 64 features, whose evaluator item is `e`, with a puffer of
  -- zero records, the evaluator sends one record, stamped, with the listener's index: each cell is
  -- what the feature of its item means, the cell behind the last is 0, and the containers of the
  -- items are those that the meanings leave.
  pub evaluator_process_lem :
      (now : Mtime) (c : CmpEvaluator) (s : Sniff) (e : CmpEvaluatorItem) (n : ℕ)
      → IsValid o m s
      → Stocked c.recycle n
      → get_elem? c.evaluators s.listener_id ≡ some e
      → length e.evaluators ≤ max_features_num
      → Processed now c s e
  evaluator_process_lem now c s e n v h g l =
      let supply = recycle_supplier_lem c.recycle n h in
      let loop =
        evaluate_items_lem 0 e.evaluators zero_record.items s v (omega (arith, zero_length))
          (λ j _. zero_items j) in
      record {
        sent = record { items = loop.cells; listener_id = loop.memo.listener_id; timestamp = now };
        memo = loop.memo;
        memo_valid = loop.valid;
        item = record e { evaluators = loop.final };
        count = supply.count;
        next = record {
          evaluators = set c.evaluators s.listener_id (record e { evaluators = loop.final });
          recycle = (recycle_supplier c.recycle).1;
        };
        runs = process_runs now c s loop.memo e loop.cells loop.final supply.zeroed g loop.runs;
        evaluated = loop.evaluated;
        wide = loop.same_length ∙ zero_length;
        listener = loop.same_listener;
        stamp = refl;
        stored =
            get_elem?-set c.evaluators s.listener_id e (record e { evaluators = loop.final }) g;
        supplied = refl;
        stocked = supply.stocked;
      }
