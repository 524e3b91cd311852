-- ===== src/Sliding.antt =====
-- lib/lib_puffers.c, the sliding window `slidingwindow_t` and its plugins.
-- `D` is the type of the pointers to data, with `null`; `P` that of the pointers that plugins are
-- given; `W` the memory behind both, which the function pointers of plugins and storages change.
-- `none` is a NULL that the source dereferences, or a loop whose fuel has run out.
pub mod Held
pub mod Limits
pub mod Aging
pub mod Refresh
pub mod Push
pub mod Int32
pub mod Storage
pub mod Summer
pub mod Calls
pub mod Adding
pub mod History
pub mod Fresh
mod Tests
use ntrt.Prelude.{
  ℕ, zero, suc, ◌+◌, Bool, true, false, Option, none, some, List, [], ◌∷◌, ◌==◌, if◌then◌else◌, leb,
}
use ntrt.Clock.{Mtime, diffmtime_fromnow, ltb_ℕ}
use ntrt.Slist.{slist_append}
use ntrt.Puffer
use ntrt.Puffer.{Puffer}

-- `slidingwindowitem_t`; `datum` is its field `data`.
pub record Item {ℓ} (D : Type ℓ) : Type ℓ where
  pub datum : D
  pub pushed : Mtime

-- `swplugin_t`, less what its disposal needs.
pub record Swplugin {ℓ κ μ} (P : Type ℓ) (D : Type κ) (W : Type μ) : Type (ℓ ⊔ κ ⊔ μ) where
  pub rem_pipe : Option (P → D → W → W)
  pub rem_data : P
  pub add_pipe : Option (P → D → W → W)
  pub add_data : P

-- `slidingwindow_t`; a storage is its function `store`. The limit of time is in milliseconds.
pub record SlidingWindow {ℓ κ μ} (P : Type ℓ) (D : Type κ) (W : Type μ) : Type (ℓ ⊔ κ ⊔ μ) where
  pub recycle : Puffer (Item D)
  pub trackeditems : Puffer (Item D)
  pub plugins : List (Swplugin P D W)
  pub storage : Option (W → D → W × D)
  pub num_limit : ℕ
  pub time_limit : ℕ

module _ {ℓ} {D : Type ℓ} where
  -- The end of `_slidingwindow_rem`: an item goes to the recycle puffer, or is freed.
  unfoldable pub recycle_item : Puffer (Item D) → Item D → Puffer (Item D)
  unfolding Puffer.is_full Puffer.write
  recycle_item recycle item = if Puffer.is_full recycle then recycle else Puffer.write recycle item

  -- The item of `slidingwindow_add_data`, from malloc(3) or the recycle puffer. Its content is
  -- cleared, so that only what is left of the puffer matters.
  unfoldable pub take_item : Puffer (Item D) → Option (Puffer (Item D))
  unfolding Puffer.is_empty Puffer.read
  take_item recycle = elim (Puffer.is_empty recycle) [
    | true ↦ some recycle
    | false ↦
        let (read, recycle') = Puffer.read recycle in
        elim read [ none ↦ none | some item ↦ some recycle' ]
  ]

-- The data that is tracked: the storage's copy, where there is a storage.
unfoldable pub stored {ℓ κ} : {D : Type ℓ} {W : Type κ} → Option (W → D → W × D) → W → D → W × D
stored none w d = (w, d)
stored (some store) w d = store w d

module _ {ℓ κ μ} {P : Type ℓ} {D : Type κ} {W : Type μ} where
  -- `slidingwindow_ctor`; a storage maker allocates in the memory.
  unfoldable pub new_window : ℕ → ℕ → Option (W → D → W × D) → SlidingWindow P D W
  unfolding Puffer.ctor
  new_window num_limit time_limit storage = record {
    recycle = Puffer.ctor (if leb num_limit 1024 then num_limit else 1024);
    trackeditems = Puffer.ctor num_limit;
    plugins = [];
    storage = storage;
    num_limit = num_limit;
    time_limit = time_limit;
  }

  unfoldable pub slidingwindow_ctor :
      ℕ → ℕ → Option (ℕ → W → W × (W → D → W × D)) → W → SlidingWindow P D W × W
  unfolding new_window
  slidingwindow_ctor num_limit time_limit storage_maker w =
      let num_limit' = if num_limit == 0 then 32 else num_limit in
      elim storage_maker [
        | none ↦ (new_window num_limit' time_limit none, w)
        | some maker ↦
            let (w', store) = maker num_limit' w in
            (new_window num_limit' time_limit (some store), w')
      ]

  -- The loops over the plugins.
  unfoldable pub rem_pipes : List (Swplugin P D W) → D → W → W
  rem_pipes [] d w = w
  rem_pipes (it ∷ plugins) d w =
      rem_pipes plugins d (elim it.rem_pipe [ none ↦ w | some pipe ↦ pipe it.rem_data d w ])

  unfoldable pub add_pipes : List (Swplugin P D W) → D → W → W
  add_pipes [] d w = w
  add_pipes (it ∷ plugins) d w =
      add_pipes plugins d (elim it.add_pipe [ none ↦ w | some pipe ↦ pipe it.add_data d w ])

  -- `slidingwindow_add_plugin`, `slidingwindow_add_plugins` and `slidingwindow_add_pipes`.
  unfoldable pub add_plugin : SlidingWindow P D W → Swplugin P D W → SlidingWindow P D W
  unfolding slist_append
  add_plugin s swplugin = record s { plugins = slist_append s.plugins swplugin }

  unfoldable pub add_plugins : SlidingWindow P D W → List (Swplugin P D W) → SlidingWindow P D W
  unfolding add_plugin
  add_plugins s [] = s
  add_plugins s (swplugin ∷ arguments) = add_plugins (add_plugin s swplugin) arguments

  unfoldable pub slidingwindow_add_pipes :
      SlidingWindow P D W
      → Option (P → D → W → W)
      → P
      → Option (P → D → W → W)
      → P
      → SlidingWindow P D W
  unfolding add_plugin
  slidingwindow_add_pipes s rem_pipe rem_data add_pipe add_data = add_plugin s (record {
    rem_pipe = rem_pipe;
    rem_data = rem_data;
    add_pipe = add_pipe;
    add_data = add_data;
  })

  unfoldable pub slidingwindow_is_empty : SlidingWindow P D W → Bool
  unfolding Puffer.is_empty
  slidingwindow_is_empty s = Puffer.is_empty s.trackeditems

module _ {ℓ κ μ} {P : Type ℓ} {D : Type κ} {W : Type μ} (null : D) where
  -- `_slidingwindow_rem`.
  unfoldable pub slidingwindow_rem : SlidingWindow P D W → W → Option (SlidingWindow P D W × W)
  unfolding Puffer.read rem_pipes recycle_item
  slidingwindow_rem s w =
      let (read, trackeditems) = Puffer.read s.trackeditems in
      elim read [
        | none ↦ none
        | some item ↦ some (
          record s {
            trackeditems = trackeditems;
            recycle = recycle_item s.recycle (record item { datum = null });
          },
          rem_pipes s.plugins item.datum w,
        )
      ]

  -- The loop of `slidingwindow_clear`.
  unfoldable pub clear_loop : ℕ → SlidingWindow P D W → W → Option (SlidingWindow P D W × W)
  unfolding slidingwindow_rem slidingwindow_is_empty
  clear_loop zero s w = none
  clear_loop (suc n) s w = elim (slidingwindow_is_empty s) [
    | true ↦ some (s, w)
    | false ↦ elim (slidingwindow_rem s w) [ none ↦ none | some (s', w') ↦ clear_loop n s' w' ]
  ]

  unfoldable pub slidingwindow_clear : SlidingWindow P D W → W → Option (SlidingWindow P D W × W)
  unfolding clear_loop Puffer.read_capacity
  slidingwindow_clear s w = clear_loop (suc (Puffer.read_capacity s.trackeditems)) s w

  -- The loop of `_slidingwindow_obsolate_num_limit`.
  unfoldable pub num_limit_loop : ℕ → SlidingWindow P D W → W → Option (SlidingWindow P D W × W)
  unfolding slidingwindow_rem Puffer.is_full
  num_limit_loop zero s w = none
  num_limit_loop (suc n) s w = elim (Puffer.is_full s.trackeditems) [
    | false ↦ some (s, w)
    | true ↦ elim (slidingwindow_rem s w) [ none ↦ none | some (s', w') ↦ num_limit_loop n s' w' ]
  ]

  unfoldable pub obsolate_num_limit : SlidingWindow P D W → W → Option (SlidingWindow P D W × W)
  unfolding num_limit_loop Puffer.read_capacity
  obsolate_num_limit s w = num_limit_loop (suc (Puffer.read_capacity s.trackeditems)) s w

  -- The loop of `_slidingwindow_obsolate_time_limit`, from reading `k` of the clock on; it returns
  -- the number of the next reading.
  unfoldable pub time_limit_loop :
      ℕ → (ℕ → Mtime) → ℕ → SlidingWindow P D W → W → Option (ℕ × SlidingWindow P D W × W)
  unfolding slidingwindow_rem Puffer.peek_first diffmtime_fromnow
  time_limit_loop zero now k s w = none
  time_limit_loop (suc n) now k s w = elim (Puffer.peek_first s.trackeditems) [
    | none ↦ some (k, s, w)
    | some item ↦ elim (ltb_ℕ (diffmtime_fromnow (now k) item.pushed) s.time_limit) [
      | true ↦ some (k + 1, s, w)
      | false ↦ elim (slidingwindow_rem s w) [
        | none ↦ none
        | some (s', w') ↦ time_limit_loop n now (k + 1) s' w'
      ]
    ]
  ]

  unfoldable pub obsolate_time_limit :
      (ℕ → Mtime) → SlidingWindow P D W → W → Option (ℕ × SlidingWindow P D W × W)
  unfolding time_limit_loop Puffer.read_capacity
  obsolate_time_limit now s w = elim (s.time_limit == 0) [
    | true ↦ some (0, s, w)
    | false ↦ time_limit_loop (suc (Puffer.read_capacity s.trackeditems)) now 0 s w
  ]

  unfoldable pub slidingwindow_refresh :
      (ℕ → Mtime) → SlidingWindow P D W → W → Option (ℕ × SlidingWindow P D W × W)
  unfolding obsolate_time_limit obsolate_num_limit
  slidingwindow_refresh now s w = elim (obsolate_time_limit now s w) [
    | none ↦ none
    | some (k, s', w') ↦ elim (obsolate_num_limit s' w') [
      | none ↦ none
      | some (s'', w'') ↦ some (k, s'', w'')
    ]
  ]

  -- `slidingwindow_add_data`; the time of the item is the next reading of the clock.
  unfoldable pub slidingwindow_add_data :
      (ℕ → Mtime) → SlidingWindow P D W → D → W → Option (SlidingWindow P D W × W)
  unfolding slidingwindow_refresh take_item stored Puffer.write add_pipes
  slidingwindow_add_data now s d w = elim (slidingwindow_refresh now s w) [
    | none ↦ none
    | some (k, s', w') ↦ elim (take_item s'.recycle) [
      | none ↦ none
      | some recycle ↦
          let (w'', datum) = stored s'.storage w' d in
          some (
            record s' {
              recycle = recycle;
              trackeditems =
                  Puffer.write s'.trackeditems (record { datum = datum; pushed = now k });
            },
            add_pipes s'.plugins datum w'',
          )
    ]
  ]
