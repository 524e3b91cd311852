-- ===== src/Accumulator/Impulse.antt =====
-- What an impulse leaves of one of the accumulators.
use ntrt.Prelude.{ℕ, ◌+◌, ◌<◌, ◌≡◌, ◌∙◌, ap, sym, subst, none, some, List, ◌++◌, length, get_or}
use ntrt.Clock.{Mtime}
use ntrt.Record.{Record}
use ntrt.Accumulator.{Accumulator}
use ntrt.Accumulator.Window.{Window}
use ntrt.Accumulator.Obsolate.{AllOld, FirstNew, obsolate_records_lem}
use ntrt.Accumulator.Component.{CmpAccumulator, zero_accumulator, record_receiver}
use ntrt.Accumulator.Sound.{AllObsolates}

-- What the expiry of all accumulators leaves of the one at `k`, which holds the records `q`.
pub record Expired (time : ℕ) (now : ℕ → Mtime) (final : List Accumulator) (k width : ℕ)
    (q pushed : List Record) : Type 0 where
  pub sent : List Record
  pub kept : List Record
  pub conserved : sent ++ kept ≡ q
  pub old : AllOld time now 0 sent
  pub new : FirstNew time now (0 + length sent) kept
  pub same_width : (get_or final k zero_accumulator).length ≡ width
  pub window : Window (get_or final k zero_accumulator) kept pushed

pub obsolate_all-Expired :
    (time : ℕ) (now : ℕ → ℕ → Mtime) (xs : List Accumulator) (k : ℕ) (q pushed : List Record)
    (d : AllObsolates time now 0 xs)
    → k < length xs
    → Window (get_or xs k zero_accumulator) q pushed
    → Expired time (now (0 + k)) d.final k (get_or xs k zero_accumulator).length q pushed
obsolate_all-Expired time now xs k q pushed d l w =
    let o = obsolate_records_lem time (now (0 + k)) (get_or xs k zero_accumulator) q pushed w in
    let (s, e) = d.each_runs k l in
    let same : o.next ≡ get_or d.final k zero_accumulator =
      ap (λ r. elim r [ none ↦ o.next | some (_, b) ↦ b ]) (sym o.runs ∙ e) in
    record {
      sent = o.sent;
      kept = o.kept;
      conserved = o.conserved;
      old = o.old;
      new = o.new;
      same_width = ap (λ b. b.length) (sym same) ∙ o.same_length;
      window = subst (λ b. Window b o.kept pushed) same o.window;
    }

pub impulse_runs :
    (now : ℕ → ℕ → Mtime) (c : CmpAccumulator)
    (d : AllObsolates c.accumulation_time now 0 c.accumulators)
    → record_receiver now c none ≡ some (d.sent, record c { accumulators = d.final })
unfolding record_receiver
impulse_runs now c d = cc (d.runs)
