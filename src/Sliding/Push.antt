-- ===== src/Sliding/Push.antt =====
-- `slidingwindow_add_data`: the window after it, and what the plugins have seen.
use ntrt.Prelude.{ℕ, ◌<◌, ◌≡◌, ◌∙◌, refl, ap, true, false, some, List, [], ◌∷◌, ◌++◌, arith, length}
use ntrt.Clock.{Mtime}
use ntrt.Puffer
use ntrt.Puffer.{Puffer}
use ntrt.Puffer.Holds
use ntrt.Puffer.Holds.{Holds}
use ntrt.Puffer.Vacant
use ntrt.Sliding.{
  Item, SlidingWindow, add_pipes, take_item, stored, slidingwindow_refresh, slidingwindow_add_data,
}
use ntrt.Sliding.Held.{Held, Same, rem_all}
use ntrt.Sliding.Refresh.{Refreshed, slidingwindow_refresh_lem}

module _ {ℓ} {D : Type ℓ} where
  -- What `take_item` leaves is a puffer in order.
  record Taken (p : Puffer (Item D)) : Type ℓ where
    rest : Puffer (Item D)
    runs : take_item p ≡ some rest
    spare : List (Item D)
    holds : Holds rest spare

  take_read :
      (p : Puffer (Item D)) (i : Item D)
      → Puffer.is_empty p ≡ false
      → (Puffer.read p).0 ≡ some i
      → take_item p ≡ some (Puffer.read p).1
  unfolding take_item
  take_read p i e r = cc

  take_malloc : (p : Puffer (Item D)) → Puffer.is_empty p ≡ true → take_item p ≡ some p
  unfolding take_item
  take_malloc p e = cc

  take_item_lem : (p : Puffer (Item D)) (r : List (Item D)) → Holds p r → Taken p
  take_item_lem p [] h = record {
    rest = p;
    runs = take_malloc p ((Holds.is_empty_lem p [] h).1 refl);
    spare = [];
    holds = h;
  }
  take_item_lem p (i ∷ r) h =
      let f = Holds.read_lem p i r h in
      record {
        rest = (Puffer.read p).1;
        runs = take_read p i (ground (arith, Holds.is_empty_lem p (i ∷ r) h)) f.0;
        spare = r;
        holds = f.1;
      }

module _ {ℓ κ μ} {P : Type ℓ} {D : Type κ} {W : Type μ} (null : D) where
  -- A call of `slidingwindow_add_data` ended: the plugins have seen the items that the refresh
  -- removed leave, then the storage took the data, then the plugins saw the new item, which is
  -- tracked behind those kept.
  pub record Added (now : ℕ → Mtime) (s : SlidingWindow P D W) (d : D) (w : W) (q : List (Item D))
      : Type (ℓ ⊔ κ ⊔ μ) where
    pub refreshed : Refreshed (slidingwindow_refresh null now s w) now s w q
    pub next : SlidingWindow P D W
    pub copy : W × D
    pub stores :
        stored s.storage (rem_all s.plugins (refreshed.expired ++ refreshed.crowded) w) d ≡ copy
    pub runs :
        slidingwindow_add_data null now s d w ≡ some (next, add_pipes s.plugins copy.1 copy.0)
    pub same : Same s next
    pub held :
        Held next
          (refreshed.kept ++ record { datum = copy.1; pushed = now refreshed.readings } ∷ [])

  add_data_runs :
      (now : ℕ → Mtime) (s s' : SlidingWindow P D W) (d d' : D) (w w' w'' : W) (k : ℕ)
      (rest : Puffer (Item D))
      → slidingwindow_refresh null now s w ≡ some (k, s', w')
      → take_item s'.recycle ≡ some rest
      → stored s'.storage w' d ≡ (w'', d')
      → slidingwindow_add_data null now s d w
        ≡ some (
          record s' {
            recycle = rest;
            trackeditems = Puffer.write s'.trackeditems (record { datum = d'; pushed = now k });
          },
          add_pipes s'.plugins d' w'',
        )
  unfolding slidingwindow_add_data
  add_data_runs now s s' d d' w w' w'' k rest r t e = cc

  -- Any data is added to a window in order without a fault.
  pub slidingwindow_add_data_lem :
      (now : ℕ → Mtime) (s : SlidingWindow P D W) (d : D) (w : W) (q : List (Item D))
      → Held s q
      → Added now s d w q
  slidingwindow_add_data_lem now s d w q h =
      let f = slidingwindow_refresh_lem null now s w q h in
      let t = take_item_lem f.next.recycle f.held.spare f.held.recycling in
      let w' = rem_all s.plugins (f.expired ++ f.crowded) w in
      let c = stored s.storage w' d in
      let item : Item D = record { datum = c.1; pushed = now f.readings } in
      let room : length f.kept < f.next.trackeditems.abs_length =
        omega (arith, f.room, f.held.capacity, f.same.num_limit) in
      let next : SlidingWindow P D W = record f.next {
        recycle = t.rest;
        trackeditems = Puffer.write f.next.trackeditems item;
      } in
      record {
        refreshed = f;
        next = next;
        copy = c;
        stores = refl;
        runs =
            add_data_runs now s f.next d c.1 w w' c.0 f.readings t.rest f.runs t.runs
              (ap (λ st. stored st w' d) f.same.storage)
            ∙ ap (λ ps. some (next, add_pipes ps c.1 c.0)) f.same.plugins;
        same = record {
          plugins = f.same.plugins;
          storage = f.same.storage;
          num_limit = f.same.num_limit;
          time_limit = f.same.time_limit;
        };
        held = record {
          spare = t.spare;
          tracked = Holds.write_lem f.next.trackeditems f.kept item f.held.tracked room;
          recycling = t.holds;
          vacant =
              Vacant.write-Vacant f.next.trackeditems f.kept item f.held.tracked room f.held.vacant;
          capacity = Holds.abs_length-write f.next.trackeditems item ∙ f.held.capacity;
        };
      }
