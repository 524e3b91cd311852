-- ===== src/Pipeline/Totals.antt =====
-- The sums of a listener after any number of rounds of its thread.
use ntrt.Prelude.{
  ℕ, ◌%◌, ◌^◌, ◌<◌, ◌≡◌, refl, sym, ◌∙◌, subst, Option, none, some, List, [], ◌∷◌, ◌++◌,
}
use ntrt.Prelude.Word.{ByteOrder}
use ntrt.Record.{Record}
use ntrt.Sniff.Packet.{IsBytes}
use ntrt.Slist.{append_nil, append_step}
use ntrt.Accumulator.Sums.{item, sum_at}
use ntrt.Accumulator.Requests.{at}
use ntrt.Evaluator.{CmpEvaluatorItem}
use ntrt.Evaluator.Process.{Evaluated}
use ntrt.Pipeline.{System, Readings, capture, capture_all}
use ntrt.Pipeline.Impulse.{impulse_lem}
use ntrt.Pipeline.Traffic.{Running, capture_lem}

-- What pcap_next gives in a run, a packet or none, with the readings of the clock.
abbrev pub Packets : Type 0
Packets = List (Readings × Option ((m : ℕ → ℕ) × IsBytes m))

abbrev pub inputs : Packets → List (Readings × Option (ℕ → ℕ))
inputs [] = []
inputs ((t, none) ∷ ms) = (t, none) ∷ inputs ms
inputs ((t, some (m, bytes)) ∷ ms) = (t, some m) ∷ inputs ms

module _ (o : ByteOrder) (id groups : ℕ) where
  -- Each record has the meanings of the listener's features for its packet, the containers going
  -- from each packet to the next.
  abbrev pub Traffic : Packets → CmpEvaluatorItem → CmpEvaluatorItem → List Record → Type 0
  Traffic [] e e' [] = e' ≡ e
  Traffic [] e e' (_ ∷ _) = ⊥
  Traffic ((t, none) ∷ ms) e e' rs = Traffic ms e e' rs
  Traffic ((t, some (m, bytes)) ∷ ms) e e' [] = ⊥
  Traffic ((t, some (m, bytes)) ∷ ms) e e' (r ∷ rs) =
      (r.timestamp ≡ t.stamp)
      × ((mid : CmpEvaluatorItem) × Evaluated o m bytes 0 e.evaluators mid.evaluators r.items
          × Traffic ms mid e' rs)

  pub record Totals (ms : Packets) (y : System) (e : CmpEvaluatorItem) (pushed : List Record)
      : Type 0 where
    pub next : System
    pub item' : CmpEvaluatorItem
    pub new : List Record
    pub runs : capture_all o y id groups (inputs ms) ≡ some next
    pub traffic : Traffic ms e item' new
    pub running : Running next id item' (pushed ++ new)
    pub total :
        (i : ℕ)
        → i < (at next.accumulator id).length
        → item i (at next.accumulator id).total ≡ sum_at i (pushed ++ new) % 2 ^ 32

  all_step :
      (t : Readings) (y y' : System) (p : Option (ℕ → ℕ)) (rest : List (Readings × Option (ℕ → ℕ)))
      → capture o t y id groups p ≡ some y'
      → capture_all o y id groups ((t, p) ∷ rest) ≡ capture_all o y' id groups rest
  unfolding capture_all
  all_step t y y' p rest e = cc

  -- Any packets of a listener that is running, with impulses between them, are captured without a
  -- fault, each packet with a record of what the listener's features mean for it. The sums of all
  -- records are then those of the records before and of these, modulo 2^32, and the listener is
  -- running as before.
  pub capture_all_lem :
      (ms : Packets) (y : System) (e : CmpEvaluatorItem) (pushed : List Record)
      → Running y id e pushed
      → Totals ms y e pushed
  unfolding capture_all
  capture_all_lem [] y e pushed h =
      let r : Running y id e (pushed ++ []) = subst (Running y id e) (sym (append_nil pushed)) h in
      record {
        next = y;
        item' = e;
        new = [];
        runs = refl;
        traffic = refl;
        running = r;
        total = r.window.total_sum;
      }
  capture_all_lem ((t, none) ∷ ms) y e pushed h =
      let p = impulse_lem o id groups t y e pushed h in
      let rest = capture_all_lem ms p.next e pushed p.running in
      record {
        next = rest.next;
        item' = rest.item';
        new = rest.new;
        runs = all_step t y p.next none (inputs ms) p.runs ∙ rest.runs;
        traffic = rest.traffic;
        running = rest.running;
        total = rest.total;
      }
  capture_all_lem ((t, some (m, bytes)) ∷ ms) y e pushed h =
      let p = capture_lem o id groups m bytes t y e pushed h in
      let rest = capture_all_lem ms p.next p.item (pushed ++ p.new ∷ []) p.running in
      let r : Running rest.next id rest.item' (pushed ++ p.new ∷ rest.new) =
        subst (Running rest.next id rest.item') (append_step pushed p.new rest.new) rest.running in
      record {
        next = rest.next;
        item' = rest.item';
        new = p.new ∷ rest.new;
        runs = all_step t y p.next (some m) (inputs ms) p.runs ∙ rest.runs;
        traffic = (p.stamped, (p.item, p.evaluated, rest.traffic));
        running = r;
        total = r.window.total_sum;
      }
