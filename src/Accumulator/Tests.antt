-- ===== src/Accumulator/Tests.antt =====
-- The accumulator at a small example.
use ntrt.Prelude.{◌≡◌, refl, true, some, List, [], ◌∷◌, arith}
use ntrt.Clock.{diffmtime_fromnow}
use ntrt.Prelude.Word.{sub32}
use ntrt.Dmap.{Row}
use ntrt.Listener.{Listener}
use ntrt.Puffer
use ntrt.Accumulator.{drop_first, sub_items, obsolate_records}
use ntrt.Accumulator.Push.{Pushed, push_record_lem}
use ntrt.Accumulator.Obsolate.{Obsolated, obsolate_records_lem}
use ntrt.Accumulator.History.{Activity, receive, drop_old, act_all, Lived, act_all_lem}
use ntrt.Accumulator.Requests.{Requested, features_requester_lem}
use ntrt.Accumulator.Sample.{
  seconds, early, late, loaded, loaded-Window, component, component-AllSound, listener,
}

push_record_example : Pushed loaded loaded-Window.puffer late (early ∷ []) (early ∷ [])
push_record_example =
    push_record_lem loaded late (early ∷ []) (early ∷ []) loaded-Window (omega arith)

obsolate_records_example :
    Obsolated
      (obsolate_records 1000 (λ _. seconds 12) loaded)
      1000
      (λ _. seconds 12)
      0
      loaded
      (early ∷ [])
      (early ∷ [])
obsolate_records_example =
    obsolate_records_lem 1000 (λ _. seconds 12) loaded (early ∷ []) (early ∷ []) loaded-Window

-- Two seconds on, the record has left the window of a second.
obsolate_records_run :
    obsolate_records 1000 (λ _. seconds 12) loaded
    ≡ some (
      early ∷ [],
      record loaded {
        records = some (Puffer.read (Puffer.write (Puffer.ctor 2) early)).1;
        result = record { items = 0 ∷ 0 ∷ []; listener_id = 0; timestamp = seconds 0 };
      },
    )
unfolding obsolate_records Puffer.is_empty Puffer.write Puffer.ctor Puffer.peek_first
    diffmtime_fromnow drop_first Puffer.read sub_items sub32
obsolate_records_run = refl

abbrev life : List Activity
life = receive late ∷ receive early ∷ drop_old (λ _. seconds 12) ∷ receive late ∷ []

act_all_example : Lived (act_all 1000 loaded life) (early ∷ []) (early ∷ []) life
act_all_example = act_all_lem 1000 life loaded (early ∷ []) (early ∷ []) loaded-Window (omega arith)

features_requester_example : Requested (λ _. seconds 12) component 0 1 (early ∷ []) (early ∷ [])
features_requester_example =
    features_requester_lem (λ _. seconds 12) component 0 1 (early ∷ []) (early ∷ [])
      component-AllSound (omega arith) (omega arith) loaded-Window

abbrev row : Row Listener
row = record { item = some listener; has_dtor = true }
