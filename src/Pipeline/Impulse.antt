-- ===== src/Pipeline/Impulse.antt =====
-- The round of the sniffer's thread for which pcap_next has no packet.
use ntrt.Prelude.{ℕ, ◌+◌, ◌≡◌, none, some, List, arith}
use ntrt.Prelude.Word.{ByteOrder}
use ntrt.Record.{Record}
use ntrt.Accumulator.Sound.{obsolate_all-AllObsolates}
use ntrt.Accumulator.Component.{CmpAccumulator, record_receiver}
use ntrt.Accumulator.Impulse.{Expired, obsolate_all-Expired, impulse_runs}
use ntrt.Accumulator.Requests.{at}
use ntrt.Evaluator.{CmpEvaluatorItem, evaluator_process}
use ntrt.Pipeline.{System, Readings, recycle_all, send, capture}
use ntrt.Pipeline.Capture.{recycle_all_lem}
use ntrt.Pipeline.Traffic.{Running}

module _ (o : ByteOrder) (id groups : ℕ) where
  -- The system after an impulse, and what it dropped of the listener.
  pub record Pulsed (t : Readings) (y : System) (e : CmpEvaluatorItem) (q pushed : List Record)
      : Type 0 where
    pub next : System
    pub runs : capture o t y id groups none ≡ some next
    pub expired :
        Expired y.accumulator.accumulation_time
          (t.windows (0 + id))
          next.accumulator.accumulators
          id
          (at y.accumulator id).length
          q
          pushed
    pub running : Running next id e pushed

  pulse_runs :
      (t : Readings) (y : System) (sent : List Record) (a : CmpAccumulator)
      → record_receiver t.windows y.accumulator none ≡ some (sent, a)
      → capture o t y id groups none
        ≡ some (record y {
          evaluator = record y.evaluator { recycle = recycle_all y.evaluator.recycle sent };
          accumulator = a;
        })
  unfolding capture send evaluator_process
  pulse_runs t y sent a e = cc

  -- An impulse expires the old records of every listener without a fault, and gives them to the
  -- recycle puffer; a listener that is running is running as before.
  pub impulse_lem :
      (t : Readings) (y : System) (e : CmpEvaluatorItem) (pushed : List Record)
      (h : Running y id e pushed)
      → Pulsed t y e h.q pushed
  impulse_lem t y e pushed h =
      let d =
        obsolate_all-AllObsolates y.accumulator.accumulation_time t.windows 0
          y.accumulator.accumulators h.sound in
      let x =
        obsolate_all-Expired y.accumulator.accumulation_time t.windows y.accumulator.accumulators id
          h.q pushed d h.started h.window in
      let back = recycle_all_lem d.sent y.evaluator.recycle h.count h.stocked in
      record {
        next = record y {
          evaluator = record y.evaluator { recycle = recycle_all y.evaluator.recycle d.sent };
          accumulator = record y.accumulator { accumulators = d.final };
        };
        runs =
            pulse_runs t y d.sent (record y.accumulator { accumulators = d.final })
              (impulse_runs t.windows y.accumulator d);
        expired = x;
        running = record {
          count = back.count;
          q = x.kept;
          stocked = back.stocked;
          stored = h.stored;
          few = h.few;
          started = omega (arith, d.same_length, h.started);
          sound = d.sound;
          window = x.window;
          wide = omega (arith, x.same_width, h.wide);
          held = h.held;
          valid = h.valid;
        };
      }
