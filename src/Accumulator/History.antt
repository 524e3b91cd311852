-- ===== src/Accumulator/History.antt =====
-- The life of one accumulator: any order of records received and of readings that drop old ones.
use ntrt.Prelude.{ℕ, ◌≡◌, ◌∙◌, refl, ap, sym, subst, none, some, List, [], ◌∷◌, ◌++◌}
use ntrt.Clock.{Mtime}
use ntrt.Record.{Record}
use ntrt.Slist.{append_nil}
use ntrt.Accumulator.{Accumulator, Step, push_record, obsolate_records}
use ntrt.Accumulator.Window.{Wide, Window}
use ntrt.Accumulator.Push.{push_record_lem}
use ntrt.Accumulator.Obsolate.{obsolate_records_lem}

-- What the rest of the program makes an accumulator do: receive a record, or drop what is old, for an
-- impulse or a request, on a run of clock readings.
pub data Activity : Type 0 where
  receive : Record → Activity
  drop_old : (ℕ → Mtime) → Activity

pub act : ℕ → Accumulator → Activity → Step
act time a (receive r) = push_record a r
act time a (drop_old now) = obsolate_records time now a

-- A sequence of activities: all that they send back, in order, and the accumulator at the end.
pub act_all : ℕ → Accumulator → List Activity → Step
act_all time a [] = some ([], a)
act_all time a (e ∷ es) = elim (act time a e) [
  | none ↦ none
  | some (sent, a') ↦ elim (act_all time a' es) [
    | none ↦ none
    | some (rest, a'') ↦ some (sent ++ rest, a'')
  ]
]

-- The records received.
abbrev pub received : List Activity → List Record
received [] = []
received (receive r ∷ es) = r ∷ received es
received (drop_old now ∷ es) = received es

append_assoc : (xs ys zs : List Record) → (xs ++ ys) ++ zs ≡ xs ++ (ys ++ zs)
append_assoc [] ys zs = refl
append_assoc (x ∷ xs) ys zs = ap (λ t. x ∷ t) (append_assoc xs ys zs)

-- A run ended: nothing is lost and nothing is sent twice, and the sums are those of the records kept
-- and of all records.
pub record Lived (run : Step) (q pushed : List Record) (es : List Activity) : Type 0 where
  pub sent : List Record
  pub next : Accumulator
  pub kept : List Record
  pub runs : run ≡ some (sent, next)
  pub conserved : sent ++ kept ≡ q ++ received es
  pub window : Window next kept (pushed ++ received es)

act_all-runs :
    (time : ℕ) (a b c : Accumulator) (e : Activity) (es : List Activity) (sent rest : List Record)
    → act time a e ≡ some (sent, b)
    → act_all time b es ≡ some (rest, c)
    → act_all time a (e ∷ es) ≡ some (sent ++ rest, c)
unfolding act_all
act_all-runs time a b c e es sent rest h k = cc

-- One activity and the rest of a run.
chain :
    (time : ℕ) (a b : Accumulator) (e : Activity) (es : List Activity)
    (sent kept q new pushed : List Record)
    → act time a e ≡ some (sent, b)
    → sent ++ kept ≡ q ++ new
    → received (e ∷ es) ≡ new ++ received es
    → Lived (act_all time b es) kept (pushed ++ new) es
    → Lived (act_all time a (e ∷ es)) q pushed (e ∷ es)
chain time a b e es sent kept q new pushed h k r i = record {
  sent = sent ++ i.sent;
  next = i.next;
  kept = i.kept;
  runs = act_all-runs time a b i.next e es sent i.sent h i.runs;
  conserved =
      append_assoc sent i.sent i.kept
      ∙ ap (λ t. sent ++ t) i.conserved
      ∙ sym (append_assoc sent kept (received es))
      ∙ ap (λ t. t ++ received es) k
      ∙ append_assoc q new (received es)
      ∙ ap (λ t. q ++ t) (sym r);
  window =
      subst (λ t. Window i.next i.kept t)
        (append_assoc pushed new (received es) ∙ ap (λ t. pushed ++ t) (sym r)) i.window;
}

-- From an accumulator that holds the records `q`, any sequence of activities, whose records have an
-- item for each feature, runs without a fault. The records sent back and those kept are those held
-- and received, each once and in their order; the result is the sum of the kept ones, item by item
-- modulo 2^32, and the total is that of all.
pub act_all_lem :
    (time : ℕ) (es : List Activity) (a : Accumulator) (q pushed : List Record)
    → Window a q pushed
    → Wide a.length (received es)
    → Lived (act_all time a es) q pushed es
unfolding act_all act
act_all_lem time [] a q pushed w v = record {
  sent = [];
  next = a;
  kept = q;
  runs = refl;
  conserved = sym (append_nil q);
  window = subst (λ t. Window a q t) (sym (append_nil pushed)) w;
}
act_all_lem time (receive r ∷ es) a q pushed w (v, vs) =
    let p = push_record_lem a r q pushed w v in
    chain time a p.next (receive r) es p.sent p.kept q (r ∷ []) pushed p.runs p.conserved refl (
      act_all_lem time es p.next p.kept (pushed ++ r ∷ []) p.window
        (subst (λ n. Wide n (received es)) (sym p.same_length) vs))
act_all_lem time (drop_old now ∷ es) a q pushed w v =
    let d = obsolate_records_lem time now a q pushed w in
    chain time a d.next (drop_old now) es d.sent d.kept q [] pushed d.runs
      (d.conserved ∙ sym (append_nil q)) refl
      (act_all_lem time es d.next d.kept (pushed ++ [])
        (subst (λ t. Window d.next d.kept t) (sym (append_nil pushed)) d.window)
        (subst (λ n. Wide n (received es)) (sym d.same_length) v))
