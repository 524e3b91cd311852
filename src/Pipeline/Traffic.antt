-- ===== src/Pipeline/Traffic.antt =====
-- The loop of the sniffer's thread over the packets that it captures.
use ntrt.Prelude.{
  ℕ, suc, ◌+◌, ◌≤◌, ◌<◌, ◌≡◌, refl, ap, subst, Option, some, List, [], ◌∷◌, ◌++◌, arith, length,
  ltb, Bool-cases, inl, inr, true, false, get_elem?, get_or, length-set,
}
use ntrt.Prelude.Word.{ByteOrder}
use ntrt.Record.{Record, max_features_num}
use ntrt.Sniff.{Sniff, setup_sniff}
use ntrt.Sniff.Packet.{IsBytes}
use ntrt.Sniff.Memo.{setup_sniff-IsValid}
use ntrt.Listener.{EvaluatorItem}
use ntrt.Accumulator.Window.{Window}
use ntrt.Accumulator.Sound.{AllSound}
use ntrt.Accumulator.Requests.{at}
use ntrt.Evaluator.{CmpEvaluatorItem}
use ntrt.Evaluator.Recycle.{Stocked}
use ntrt.Evaluator.Process.{Evaluated}
use ntrt.Group.{Groupcounter}
use ntrt.Group.Component.{groupcounter_sniff_receiver}
use ntrt.Group.Requests.{AllValid, Sniffed, groupcounter_sniff_receiver_lem}
use ntrt.Pipeline.{System, Readings, send, capture}
use ntrt.Pipeline.Capture.{Captured, send_lem}

-- The components are ready for a packet of the listener `id`, whose evaluator item is `e`, and whose
-- accumulator has received the records `pushed`.
pub record Running (y : System) (id : ℕ) (e : CmpEvaluatorItem) (pushed : List Record)
    : Type 0 where
  pub count : ℕ
  pub q : List Record
  pub stocked : Stocked y.evaluator.recycle count
  pub stored : get_elem? y.evaluator.evaluators id ≡ some e
  pub few : length e.evaluators ≤ max_features_num
  pub started : id < length y.accumulator.accumulators
  pub sound : AllSound y.accumulator.accumulators
  pub window : Window (at y.accumulator id) q pushed
  pub wide : (at y.accumulator id).length ≤ max_features_num
  pub held : id < length y.holders
  pub valid : AllValid (get_or y.holders id [])

length-Evaluated :
    (o : ByteOrder) (m : ℕ → ℕ) (bytes : IsBytes m) (i : ℕ) (xs ys : List EvaluatorItem)
    (items : List ℕ)
    → Evaluated o m bytes i xs ys items
    → length ys ≡ length xs
length-Evaluated o m bytes i [] [] items h = refl
length-Evaluated o m bytes i [] (y ∷ ys) items h = absurd h
length-Evaluated o m bytes i (x ∷ xs) [] items h = absurd h
length-Evaluated o m bytes i (x ∷ xs) (y ∷ ys) items (c, f, h) =
    ap suc (length-Evaluated o m bytes (i + 1) xs ys items h)

Sniffed-AllValid :
    (m : ℕ → ℕ) (now : ℕ → _) (other k : ℕ) (gs hs : List Groupcounter)
    → Sniffed m now other k gs hs
    → AllValid hs
Sniffed-AllValid m now other k [] [] h = tt
Sniffed-AllValid m now other k [] (g ∷ hs) h = absurd h
Sniffed-AllValid m now other k (g ∷ gs) [] h = absurd h
Sniffed-AllValid m now other k (g ∷ gs) (g' ∷ hs) (a, v, h) =
    (v, Sniffed-AllValid m now other (k + 1) gs hs h)

module _ (o : ByteOrder) (id groups : ℕ) where
  -- The system after one packet, whose record is `new`.
  pub record Passed (m : ℕ → ℕ) (bytes : IsBytes m) (t : Readings) (y : System)
      (e : CmpEvaluatorItem) (pushed : List Record) : Type 0 where
    pub next : System
    pub new : Record
    pub item : CmpEvaluatorItem
    pub runs : capture o t y id groups (some m) ≡ some next
    pub running : Running next id item (pushed ++ new ∷ [])
    pub evaluated : Evaluated o m bytes 0 e.evaluators item.evaluators new.items
    pub stamped : new.timestamp ≡ t.stamp
    pub flows :
        (other : ℕ)
        → 0 < groups
        → Sniffed m t.flows other 0 (get_or y.holders id []) (get_or next.holders id [])

  pass_counted :
      (t : Readings) (y y' : System) (m : ℕ → ℕ) (s : Option Sniff)
      → send o t.stamp t.windows y (some (setup_sniff m id)) ≡ some (y', s)
      → ltb 0 groups ≡ true
      → capture o t y id groups (some m)
        ≡ some (record y' { holders = (groupcounter_sniff_receiver o t.flows y'.holders s id).0 })
  unfolding capture
  pass_counted t y y' m s e g = cc

  pass_uncounted :
      (t : Readings) (y y' : System) (m : ℕ → ℕ) (s : Option Sniff)
      → send o t.stamp t.windows y (some (setup_sniff m id)) ≡ some (y', s)
      → ltb 0 groups ≡ false
      → capture o t y id groups (some m) ≡ some y'
  unfolding capture
  pass_uncounted t y y' m s e g = cc

  length-receiver :
      (now : ℕ → _) (holders : List (List Groupcounter)) (s : Sniff)
      → length (groupcounter_sniff_receiver o now holders (some s) id).0 ≡ length holders
  unfolding groupcounter_sniff_receiver
  length-receiver now holders s = length-set holders id _

  still_running :
      (m : ℕ → ℕ) (bytes : IsBytes m) (t : Readings) (y : System) (e : CmpEvaluatorItem)
      (pushed : List Record) (h : Running y id e pushed)
      (c : Captured o m bytes t.stamp t.windows y (setup_sniff m id) e h.q pushed)
      (holders : List (List Groupcounter))
      → id < length holders
      → AllValid (get_or holders id [])
      → Running (record c.next { holders = holders }) id c.item (pushed ++ c.new ∷ [])
  unfolding setup_sniff
  still_running m bytes t y e pushed h c holders l v = record {
    count = c.count;
    q = c.kept;
    stocked = c.stocked;
    stored = c.stored;
    few = omega (
      arith,
      length-Evaluated o m bytes 0 e.evaluators c.item.evaluators c.new.items c.evaluated,
      h.few,
    );
    started = omega (arith, c.same_size, h.started);
    sound = c.sound h.sound;
    window = c.window;
    wide = omega (arith, c.same_width, h.wide);
    held = l;
    valid = v;
  }

  -- A packet of a listener that is running is captured without a fault. Its record, whose cells are
  -- what the listener's features mean for the packet, joins the sums; each group counter of the
  -- listener that it concerns has the time of its port; and the listener is running as before.
  pub capture_lem :
      (m : ℕ → ℕ) (bytes : IsBytes m) (t : Readings) (y : System) (e : CmpEvaluatorItem)
      (pushed : List Record)
      → Running y id e pushed
      → Passed m bytes t y e pushed
  unfolding setup_sniff
  capture_lem m bytes t y e pushed h =
      let c =
        send_lem o m bytes t.stamp t.windows y (setup_sniff m id) e h.count h.q pushed
          (setup_sniff-IsValid o m id) h.stocked h.stored h.few h.started h.window h.wide in
      let l : id < length c.next.holders = rw c.same_holders h.held in
      let v : AllValid (get_or c.next.holders id []) = rw c.same_holders h.valid in
      let seen : (other : ℕ)
          → Sniffed m t.flows other 0 (get_or y.holders id []) (
              get_or (groupcounter_sniff_receiver o t.flows c.next.holders (some c.memo) id).0 id
                []) =
        λ other.
          subst
            (λ hs. Sniffed m t.flows other 0 (get_or hs id []) (
              get_or (groupcounter_sniff_receiver o t.flows c.next.holders (some c.memo) id).0 id
                []))
            c.same_holders
            (groupcounter_sniff_receiver_lem o m bytes t.flows c.next.holders c.memo id (suc id)
              other c.memo_valid l (λ z. absurd (omega arith)) v).0 in
      elim (Bool-cases (ltb 0 groups)) [
        | inl g ↦ record {
          next = record c.next {
            holders = (groupcounter_sniff_receiver o t.flows c.next.holders (some c.memo) id).0;
          };
          new = c.new;
          item = c.item;
          runs = pass_counted t y c.next m (some c.memo) c.runs g;
          running =
              still_running m bytes t y e pushed h c
                (groupcounter_sniff_receiver o t.flows c.next.holders (some c.memo) id).0
                (omega (arith, length-receiver t.flows c.next.holders c.memo, l))
                (Sniffed-AllValid m t.flows 0 0 (get_or y.holders id [])
                  (get_or (groupcounter_sniff_receiver o t.flows c.next.holders (some c.memo) id).0
                    id [])
                  (seen 0));
          evaluated = c.evaluated;
          stamped = c.stamped;
          flows = λ other k. seen other;
        }
        | inr g ↦ record {
          next = c.next;
          new = c.new;
          item = c.item;
          runs = pass_uncounted t y c.next m (some c.memo) c.runs g;
          running = still_running m bytes t y e pushed h c c.next.holders l v;
          evaluated = c.evaluated;
          stamped = c.stamped;
          flows = λ other k. absurd (ground (arith, g));
        }
      ]
