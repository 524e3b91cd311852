-- ===== src/Accumulator/Sample.antt =====
-- A started accumulator that holds one record, for the tests.
use ntrt.Prelude.{ℕ, zero, suc, ◌%◌, ◌^◌, ◌<◌, ◌≡◌, refl, some, [], ◌∷◌, arith, get_or}
use ntrt.Clock.{Mtime}
use ntrt.Record.{Record}
use ntrt.Puffer
use ntrt.Puffer.Holds
use ntrt.Puffer.Holds.{Holds}
use ntrt.Listener.{Listener, pcap_listener_ctor}
use ntrt.Accumulator.{Accumulator}
use ntrt.Accumulator.Sums.{item, sum_at}
use ntrt.Accumulator.Window.{Window}
use ntrt.Accumulator.Component.{CmpAccumulator, zero_accumulator}
use ntrt.Accumulator.Sound.{Sound, holding, AllSound, zero_accumulator-Sound}

abbrev pub seconds : ℕ → Mtime
seconds n = record { tv_sec = n; tv_usec = 0 }

abbrev pub early : Record
early = record { items = 3 ∷ 4 ∷ []; listener_id = 0; timestamp = seconds 10 }

abbrev pub late : Record
late = record { items = 5 ∷ 0 ∷ []; listener_id = 0; timestamp = seconds 12 }

abbrev pub sums : Record
sums = record { items = 3 ∷ 4 ∷ []; listener_id = 0; timestamp = seconds 0 }

-- Two features, and room for two records.
abbrev pub loaded : Accumulator
loaded = record {
  records = some (Puffer.write (Puffer.ctor 2) early);
  result = sums;
  length = 2;
  total = sums;
}

loaded_sum : (i : ℕ) → i < 2 → item i sums ≡ sum_at i (early ∷ []) % 2 ^ 32
loaded_sum zero l = refl
loaded_sum (suc zero) l = refl
loaded_sum (suc (suc i)) l = absurd (omega arith)

loaded-Holds : Holds (Puffer.write (Puffer.ctor 2) early) (early ∷ [])
unfolding Puffer.ctor
loaded-Holds =
    Holds.write_lem (Puffer.ctor 2) [] early (Holds.ctor_lem 2 (omega arith)) (omega arith)

pub loaded-Window : Window loaded (early ∷ []) (early ∷ [])
loaded-Window = record {
  puffer = Puffer.write (Puffer.ctor 2) early;
  kept = refl;
  holds = loaded-Holds;
  result_wide = omega arith;
  total_wide = omega arith;
  wide = omega arith;
  result_sum = loaded_sum;
  total_sum = loaded_sum;
}

-- Listener 0 is started, listener 1 is not; the accumulation time is a second.
abbrev pub component : CmpAccumulator
component = record { accumulators = loaded ∷ zero_accumulator ∷ []; accumulation_time = 1000 }

each-Sound : (i : ℕ) → Sound (get_or component.accumulators i zero_accumulator)
each-Sound zero = holding (early ∷ []) (early ∷ []) loaded-Window
each-Sound (suc zero) = zero_accumulator-Sound
each-Sound (suc (suc i)) = zero_accumulator-Sound

pub component-AllSound : AllSound component.accumulators
component-AllSound = record { each = each-Sound }

-- A listener of two features without items, whose puffer has room for two records.
abbrev pub listener : Listener
listener = record pcap_listener_ctor { feature_num = 2; puffer_size = 2 }
