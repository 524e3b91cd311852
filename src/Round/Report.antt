-- ===== src/Round/Report.antt =====
-- The row that a round prints for a listener, in terms of the records and the flows that are alive.
use ntrt.Prelude.{
  ℕ, ◌+◌, ◌%◌, ◌^◌, ◌≤◌, ◌<◌, ◌≡◌, refl, sym, ap, ◌∙◌, subst, true, false, some, List, [], ◌∷◌,
  ◌++◌, arith, length, ltb, Bool-cases, inl, inr, get_or, set, length-set, get_or-set_self,
}
use ntrt.Clock.{Mtime}
use ntrt.Record.{Record, zero_record, max_features_num}
use ntrt.Listener.{Listener}
use ntrt.Accumulator.{Accumulator, obsolate_records}
use ntrt.Accumulator.Sums.{item, sum_at}
use ntrt.Accumulator.Window.{Window}
use ntrt.Accumulator.Obsolate.{AllOld, FirstNew, Obsolated, obsolate_records_lem}
use ntrt.Accumulator.Component.{zero_accumulator, features_requester}
use ntrt.Accumulator.Sound.{holding, set-AllSound, get_elem?-get_or}
use ntrt.Accumulator.Requests.{at, request_runs}
use ntrt.Evaluator.{CmpEvaluatorItem}
use ntrt.Group.{Groupcounter}
use ntrt.Group.Component.{read_each, groupcounter_record_requester}
use ntrt.Group.Requests.{AllValid, Reported, groupcounter_record_requester_lem}
use ntrt.Pipeline.{System, recycle_all}
use ntrt.Pipeline.Capture.{recycle_all_lem}
use ntrt.Pipeline.Traffic.{Running}
use ntrt.Recorder.{Answers}
use ntrt.Round.{Readings, request}

Reported-AllValid :
    (now : ℕ → ℕ → Mtime) (port i : ℕ) (gs hs : List Groupcounter) (items : List ℕ)
    → Reported now port i gs hs items
    → AllValid hs
Reported-AllValid now port i [] [] items h = tt
Reported-AllValid now port i [] (g ∷ hs) items h = absurd h
Reported-AllValid now port i (g ∷ gs) [] items h = absurd h
Reported-AllValid now port i (g ∷ gs) (g' ∷ hs) items (n, v, a, h) =
    (v, Reported-AllValid now port (i + 1) gs hs items h)

length-read_each :
    (now : ℕ → ℕ → Mtime) (i : ℕ) (gs : List Groupcounter) (items : List ℕ)
    → length (read_each now i gs items).0 ≡ length items
unfolding read_each
length-read_each now i [] items = refl
length-read_each now i (g ∷ gs) items =
    length-read_each now (i + 1) gs (set items i _) ∙ length-set items i _

-- The record of the group counts is as wide as any, and no listener's counters are lost.
length-requester :
    (stamp : Mtime) (now : ℕ → ℕ → Mtime) (holders : List (List Groupcounter)) (id : ℕ)
    → (length (groupcounter_record_requester stamp now holders id).0.items ≡ max_features_num)
      × (length (groupcounter_record_requester stamp now holders id).1 ≡ length holders)
unfolding groupcounter_record_requester zero_record
length-requester stamp now holders id =
    (length-read_each now 0 (get_or holders id []) zero_record.items, length-set holders id _)

zero_wide : length zero_record.items ≡ max_features_num
unfolding zero_record
zero_wide = refl

-- What the components answer for a listener, and the system behind it.
pub record Answered (t : Readings) (y : System) (id : ℕ) (l : Listener) (e : CmpEvaluatorItem)
    (q pushed : List Record) : Type 0 where
  pub answers : Answers
  pub next : System
  pub sent : List Record
  pub kept : List Record
  pub runs : request t y id l ≡ some (answers, next)
  pub conserved : sent ++ kept ≡ q
  pub old : AllOld y.accumulator.accumulation_time t.window 0 sent
  pub new : FirstNew y.accumulator.accumulation_time t.window (0 + length sent) kept
  pub wide : (at y.accumulator id).length ≤ length answers.features.items
  pub wide_counts : length answers.groupcounters.items ≡ max_features_num
  pub sums :
      (i : ℕ) → i < (at y.accumulator id).length → item i answers.features ≡ sum_at i kept % 2 ^ 32
  pub totals :
      (i : ℕ)
      → i < (at y.accumulator id).length
      → item i answers.aggregations ≡ sum_at i pushed % 2 ^ 32
  pub counts :
      (port : ℕ)
      → 0 < l.groupcounter_num
      → Reported t.flows port 0
          (get_or y.holders id [])
          (get_or next.holders id [])
          answers.groupcounters.items
  pub running : Running next id e pushed

module _ (t : Readings) (y : System) (id : ℕ) where
  -- The system after an expiry that left the accumulator `b` and sent back the records `sent`.
  expired : Accumulator → List Record → List (List Groupcounter) → System
  expired b sent holders = record {
    evaluator = record y.evaluator { recycle = recycle_all y.evaluator.recycle sent };
    accumulator = record y.accumulator { accumulators = set y.accumulator.accumulators id b };
    holders = holders;
  }

  asked :
      (b : Accumulator) (sent : List Record)
      → features_requester t.window y.accumulator id
        ≡ some (record {
          result = b.result;
          total = b.total;
          sent = sent;
          next = record y.accumulator { accumulators = set y.accumulator.accumulators id b };
        })
      → (l : Listener) → ltb 0 l.groupcounter_num ≡ true
      → request t y id l
        ≡ some (
          record {
            features = b.result;
            aggregations = b.total;
            groupcounters = (groupcounter_record_requester t.stamp t.flows y.holders id).0;
          },
          expired b sent (groupcounter_record_requester t.stamp t.flows y.holders id).1,
        )
  unfolding request expired
  asked b sent f l g = cc

  unasked :
      (b : Accumulator) (sent : List Record)
      → features_requester t.window y.accumulator id
        ≡ some (record {
          result = b.result;
          total = b.total;
          sent = sent;
          next = record y.accumulator { accumulators = set y.accumulator.accumulators id b };
        })
      → (l : Listener) → ltb 0 l.groupcounter_num ≡ false
      → request t y id l
        ≡ some (
          record { features = b.result; aggregations = b.total; groupcounters = zero_record },
          expired b sent y.holders,
        )
  unfolding request expired
  unasked b sent f l g = cc

  expired-Running :
      (e : CmpEvaluatorItem) (pushed kept sent : List Record) (b : Accumulator)
      (holders : List (List Groupcounter))
      → Running y id e pushed
      → Window b kept pushed
      → b.length ≡ (at y.accumulator id).length
      → id < length holders
      → AllValid (get_or holders id [])
      → Running (expired b sent holders) id e pushed
  unfolding expired
  expired-Running e pushed kept sent b holders h w n k v =
      let back = recycle_all_lem sent y.evaluator.recycle h.count h.stocked in
      let here = get_or-set_self y.accumulator.accumulators id b zero_accumulator h.started in
      record {
        count = back.count;
        q = kept;
        stocked = back.stocked;
        stored = h.stored;
        few = h.few;
        started = omega (arith, length-set y.accumulator.accumulators id b, h.started);
        sound =
            set-AllSound y.accumulator.accumulators id b h.sound (holding kept pushed w) h.started;
        window = subst (λ c. Window c kept pushed) (sym here) w;
        wide = omega (arith, ap (λ c. c.length) here, n, h.wide);
        held = k;
        valid = v;
      }

  -- The parts that are the same with and without a group counter.
  answered :
      (l : Listener) (e : CmpEvaluatorItem) (pushed : List Record) (h : Running y id e pushed)
      (d : Obsolated
        (obsolate_records y.accumulator.accumulation_time t.window (at y.accumulator id))
        y.accumulator.accumulation_time
        t.window
        0
        (at y.accumulator id)
        h.q
        pushed)
      (counts : Record) (holders : List (List Groupcounter))
      → request t y id l
        ≡ some (
          record { features = d.next.result; aggregations = d.next.total; groupcounters = counts },
          expired d.next d.sent holders,
        )
      → length counts.items ≡ max_features_num
      → ((port : ℕ)
          → 0 < l.groupcounter_num
          → Reported t.flows port 0 (get_or y.holders id []) (get_or holders id []) counts.items)
      → id < length holders
      → AllValid (get_or holders id [])
      → Answered t y id l e h.q pushed
  unfolding expired
  answered l e pushed h d counts holders runs wide_counts reported k v = record {
    answers = record {
      features = d.next.result;
      aggregations = d.next.total;
      groupcounters = counts;
    };
    next = expired d.next d.sent holders;
    sent = d.sent;
    kept = d.kept;
    runs = runs;
    conserved = d.conserved;
    old = d.old;
    new = d.new;
    wide = omega (arith, d.window.result_wide, d.same_length);
    wide_counts = wide_counts;
    sums = λ i z. d.window.result_sum i (omega (arith, d.same_length));
    totals = λ i z. d.window.total_sum i (omega (arith, d.same_length));
    counts = reported;
    running = expired-Running e pushed d.kept d.sent d.next holders h d.window d.same_length k v;
  }

  -- A request for a running listener is answered without a fault: with the sums of the records that
  -- are young enough and of all records, modulo 2^32, and with the numbers of the flows that are
  -- left, if the listener has a group counter. The listener is running as before.
  pub request_lem :
      (l : Listener) (e : CmpEvaluatorItem) (pushed : List Record) (h : Running y id e pushed)
      → length (get_or y.holders id []) ≤ max_features_num
      → Answered t y id l e h.q pushed
  request_lem l e pushed h c =
      let d =
        obsolate_records_lem y.accumulator.accumulation_time t.window (at y.accumulator id) h.q
          pushed h.window in
      let f =
        request_runs t.window y.accumulator id (at y.accumulator id) d.next d.sent
          (get_elem?-get_or y.accumulator.accumulators id h.started) d.runs in
      let (wide_counts, same_holders) = length-requester t.stamp t.flows y.holders id in
      let (counts, holders) = groupcounter_record_requester t.stamp t.flows y.holders id in
      let reported : (port : ℕ)
          → Reported t.flows port 0 (get_or y.holders id []) (get_or holders id []) counts.items =
        λ port.
          (groupcounter_record_requester_lem t.stamp t.flows y.holders id port h.held h.valid
            c).0 in
      elim (Bool-cases (ltb 0 l.groupcounter_num)) [
        | inl s ↦
            answered l e pushed h d counts holders (asked d.next d.sent f l s) wide_counts
              (λ port z. reported port) (omega (arith, same_holders, h.held))
              (Reported-AllValid t.flows 0 0 (get_or y.holders id []) (get_or holders id [])
                counts.items (reported 0))
        | inr s ↦
            answered l e pushed h d zero_record y.holders (unasked d.next d.sent f l s) zero_wide
              (λ port z. absurd (ground (arith, s))) h.held h.valid
      ]
