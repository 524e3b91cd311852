-- ===== src/Sliding/Held.antt =====
-- What a sliding window holds, and the removal of its oldest item.
use ntrt.Prelude.{
  ℕ, ◌+◌, ◌≡◌, ◌∙◌, refl, sym, ap, Bool, true, false, Option, some, List, [], ◌∷◌, ◌++◌, arith,
  length, Bool-cases, inl, inr,
}
use ntrt.Clock.{Mtime, diffmtime_fromnow, ltb_ℕ}
use ntrt.Puffer
use ntrt.Puffer.{Puffer}
use ntrt.Puffer.Holds
use ntrt.Puffer.Holds.{Holds}
use ntrt.Puffer.Vacant
use ntrt.Puffer.Vacant.{Vacant}
use ntrt.Sliding.{
  Item, Swplugin, SlidingWindow, rem_pipes, recycle_item, slidingwindow_is_empty, slidingwindow_rem,
}

module _ {ℓ} {D : Type ℓ} where
  -- The item is at the limit of time at a reading of the clock.
  abbrev pub is_expired : ℕ → Mtime → Item D → Bool
  is_expired limit now i = elim (ltb_ℕ (diffmtime_fromnow now i.pushed) limit) [
    | true ↦ false
    | false ↦ true
  ]

  -- The items are expired, each at the reading of its round, from reading `k` on.
  abbrev pub AllExpired : ℕ → (ℕ → Mtime) → ℕ → List (Item D) → Type 0
  AllExpired limit now k [] = Unit
  AllExpired limit now k (i ∷ q) =
      (is_expired limit (now k) i ≡ true) × AllExpired limit now (k + 1) q

  -- The first of the items, if there is one, is not expired at reading `k`.
  abbrev pub FirstFresh : ℕ → (ℕ → Mtime) → ℕ → List (Item D) → Type 0
  FirstFresh limit now k [] = Unit
  FirstFresh limit now k (i ∷ q) = is_expired limit (now k) i ≡ false

  recycle_item_lem :
      (p : Puffer (Item D)) (r : List (Item D)) (i : Item D)
      → Holds p r
      → (r' : List (Item D)) × Holds (recycle_item p i) r'
  unfolding recycle_item
  recycle_item_lem p r i h = elim (Bool-cases (Puffer.is_full p)) [
    | inl full ↦ (r, rw full h)
    | inr room ↦ (r ++ i ∷ [], rw room (Holds.write_lem p r i h (Holds.has_room p r h room)))
  ]

module _ {ℓ κ μ} {P : Type ℓ} {D : Type κ} {W : Type μ} where
  -- The window tracks the items `q`, oldest first, and its puffers are in order.
  pub record Held (s : SlidingWindow P D W) (q : List (Item D)) : Type κ where
    pub spare : List (Item D)
    pub tracked : Holds s.trackeditems q
    pub recycling : Holds s.recycle spare
    pub vacant : Vacant s.trackeditems (length q)
    pub capacity : s.trackeditems.abs_length ≡ s.num_limit

  -- The settings of a window, which no removal changes.
  pub record Same (s t : SlidingWindow P D W) : Type (ℓ ⊔ κ ⊔ μ) where
    pub plugins : t.plugins ≡ s.plugins
    pub storage : t.storage ≡ s.storage
    pub num_limit : t.num_limit ≡ s.num_limit
    pub time_limit : t.time_limit ≡ s.time_limit

  pub Same-refl : (s : SlidingWindow P D W) → Same s s
  Same-refl s = record { plugins = refl; storage = refl; num_limit = refl; time_limit = refl }

  pub Same-sym : (s t : SlidingWindow P D W) → Same s t → Same t s
  Same-sym s t a = record {
    plugins = sym a.plugins;
    storage = sym a.storage;
    num_limit = sym a.num_limit;
    time_limit = sym a.time_limit;
  }

  pub Same-trans : (s t u : SlidingWindow P D W) → Same s t → Same t u → Same s u
  Same-trans s t u a b = record {
    plugins = b.plugins ∙ a.plugins;
    storage = b.storage ∙ a.storage;
    num_limit = b.num_limit ∙ a.num_limit;
    time_limit = b.time_limit ∙ a.time_limit;
  }

  -- The memory after each plugin has seen each of the items leave, in order.
  unfoldable pub rem_all : List (Swplugin P D W) → List (Item D) → W → W
  unfolding rem_pipes
  rem_all plugins [] w = w
  rem_all plugins (i ∷ q) w = rem_all plugins q (rem_pipes plugins i.datum w)

  pub rem_all-append :
      (plugins : List (Swplugin P D W)) (a b : List (Item D)) (w : W)
      → rem_all plugins (a ++ b) w ≡ rem_all plugins b (rem_all plugins a w)
  unfolding rem_all
  rem_all-append plugins [] b w = refl
  rem_all-append plugins (i ∷ a) b w = rem_all-append plugins a b (rem_pipes plugins i.datum w)

  -- A run ended: the items `gone` were removed from the window, and `kept` are left.
  pub record Left (run : Option (SlidingWindow P D W × W)) (s : SlidingWindow P D W) (w : W)
      (gone kept : List (Item D)) : Type (ℓ ⊔ κ ⊔ μ) where
    pub next : SlidingWindow P D W
    pub runs : run ≡ some (next, rem_all s.plugins gone w)
    pub same : Same s next
    pub held : Held next kept

  pub not_empty :
      (s : SlidingWindow P D W) (i : Item D) (q : List (Item D))
      → Held s (i ∷ q)
      → slidingwindow_is_empty s ≡ false
  unfolding slidingwindow_is_empty
  not_empty s i q h = ground (arith, Holds.is_empty_lem s.trackeditems (i ∷ q) h.tracked)

  pub is_empty_nil : (s : SlidingWindow P D W) → Held s [] → slidingwindow_is_empty s ≡ true
  unfolding slidingwindow_is_empty
  is_empty_nil s h = (Holds.is_empty_lem s.trackeditems [] h.tracked).1 refl

module _ {ℓ κ μ} {P : Type ℓ} {D : Type κ} {W : Type μ} (null : D) where
  rem_runs :
      (s : SlidingWindow P D W) (w : W) (i : Item D)
      → (Puffer.read s.trackeditems).0 ≡ some i
      → slidingwindow_rem null s w
        ≡ some (
          record s {
            trackeditems = (Puffer.read s.trackeditems).1;
            recycle = recycle_item s.recycle (record i { datum = null });
          },
          rem_all s.plugins (i ∷ []) w,
        )
  unfolding slidingwindow_rem rem_all
  rem_runs s w i e = cc

  -- `_slidingwindow_rem` takes the oldest item out.
  pub rem_lem :
      (s : SlidingWindow P D W) (w : W) (i : Item D) (q : List (Item D))
      → Held s (i ∷ q)
      → Left (slidingwindow_rem null s w) s w (i ∷ []) q
  rem_lem s w i q h =
      let r = Holds.read_lem s.trackeditems i q h.tracked in
      let c = recycle_item_lem s.recycle h.spare (record i { datum = null }) h.recycling in
      record {
        next = record s {
          trackeditems = (Puffer.read s.trackeditems).1;
          recycle = recycle_item s.recycle (record i { datum = null });
        };
        runs = rem_runs s w i r.0;
        same = record { plugins = refl; storage = refl; num_limit = refl; time_limit = refl };
        held = record {
          spare = c.0;
          tracked = r.1;
          recycling = c.1;
          vacant = Vacant.read-Vacant s.trackeditems i q h.tracked h.vacant;
          capacity = Holds.abs_length-read s.trackeditems ∙ h.capacity;
        };
      }

  -- A removal, and then a run from where it led.
  pub then-Left :
      {run rest : Option (SlidingWindow P D W × W)} (s : SlidingWindow P D W) (w : W) (i : Item D)
      (q gone kept : List (Item D)) (f : Left (slidingwindow_rem null s w) s w (i ∷ []) q)
      → run ≡ rest
      → Left rest f.next (rem_all s.plugins (i ∷ []) w) gone kept
      → Left run s w (i ∷ gone) kept
  unfolding rem_all
  then-Left s w i q gone kept f e l = record {
    next = l.next;
    runs =
        e
        ∙ l.runs
        ∙ ap (λ ps. some (l.next, rem_all ps gone (rem_all s.plugins (i ∷ []) w))) f.same.plugins;
    same = Same-trans s f.next l.next f.same l.same;
    held = l.held;
  }
