-- ===== src/Sliding/Refresh.antt =====
-- `slidingwindow_refresh`: what both limits together remove.
use ntrt.Prelude.{
  ℕ, suc, ◌+◌, ◌<◌, ◌≡◌, ◌∙◌, refl, sym, ap, subst, true, false, Option, some, List, [], ◌++◌, ◌==◌,
  arith, length, Bool-cases, inl, inr, ==→eq, ◌⊎◌,
}
use ntrt.Clock.{Mtime}
use ntrt.Puffer
use ntrt.Sliding.{
  Item, SlidingWindow, obsolate_num_limit, time_limit_loop, obsolate_time_limit,
  slidingwindow_refresh,
}
use ntrt.Sliding.Held.{AllExpired, FirstFresh, Held, Same, Same-trans, rem_all, rem_all-append}
use ntrt.Sliding.Aging.{time_limit_loop_lem}
use ntrt.Sliding.Limits.{obsolate_num_limit_lem}

module _ {ℓ} {D : Type ℓ} where
  first_fresh :
      (limit : ℕ) (now : ℕ → Mtime) (n : ℕ) (q : List (Item D))
      → FirstFresh limit now (0 + n) q
      → FirstFresh limit now n q
  first_fresh limit now n q f =
      let e : 0 + n ≡ n = omega arith in subst (λ j. FirstFresh limit now j q) e f

  one_crowded :
      (c k q : List (Item D)) (n m : ℕ)
      → c ++ k ≡ q
      → n ≡ m
      → (c ≡ []) ⊎ (length c ≡ 1) × (length q ≡ n)
      → (c ≡ []) ⊎ (length c ≡ 1) × (length (c ++ k) ≡ m)
  one_crowded c k q n m e f (inl g) = inl g
  one_crowded c k q n m e f (inr g) = inr (g.0, ap (λ l. length l) e ∙ g.1 ∙ f)

module _ {ℓ κ μ} {P : Type ℓ} {D : Type κ} {W : Type μ} where
  -- A refresh ended: the items expired, and at most one more, have left a window that was full
  -- without it; there is room for an item. Without a limit of time none is expired.
  pub record Refreshed (run : Option (ℕ × SlidingWindow P D W × W)) (now : ℕ → Mtime)
      (s : SlidingWindow P D W) (w : W) (q : List (Item D)) : Type (ℓ ⊔ κ ⊔ μ) where
    pub expired : List (Item D)
    pub crowded : List (Item D)
    pub kept : List (Item D)
    pub readings : ℕ
    pub next : SlidingWindow P D W
    pub runs : run ≡ some (readings, next, rem_all s.plugins (expired ++ crowded) w)
    pub conserved : expired ++ (crowded ++ kept) ≡ q
    pub aged :
        (s.time_limit ≡ 0) × (expired ≡ [])
        ⊎ (0 < s.time_limit)
          × AllExpired s.time_limit now 0 expired
          × FirstFresh s.time_limit now (length expired) (crowded ++ kept)
    pub one : (crowded ≡ []) ⊎ (length crowded ≡ 1) × (length (crowded ++ kept) ≡ s.num_limit)
    pub room : length kept < s.num_limit
    pub same : Same s next
    pub held : Held next kept

module _ {ℓ κ μ} {P : Type ℓ} {D : Type κ} {W : Type μ} (null : D) where
  refresh_runs :
      (now : ℕ → Mtime) (s s' s'' : SlidingWindow P D W) (w w' w'' : W) (k : ℕ)
      → obsolate_time_limit null now s w ≡ some (k, s', w')
      → obsolate_num_limit null s' w' ≡ some (s'', w'')
      → slidingwindow_refresh null now s w ≡ some (k, s'', w'')
  unfolding slidingwindow_refresh
  refresh_runs now s s' s'' w w' w'' k t n = cc

  no_time_limit :
      (now : ℕ → Mtime) (s : SlidingWindow P D W) (w : W)
      → (s.time_limit == 0) ≡ true
      → obsolate_time_limit null now s w ≡ some (0, s, w)
  unfolding obsolate_time_limit
  no_time_limit now s w e = cc

  time_limited :
      (now : ℕ → Mtime) (s : SlidingWindow P D W) (w : W)
      → (s.time_limit == 0) ≡ false
      → obsolate_time_limit null now s w
        ≡ time_limit_loop null (suc (Puffer.read_capacity s.trackeditems)) now 0 s w
  unfolding obsolate_time_limit
  time_limited now s w e = cc

  two_removals :
      (s s' : SlidingWindow P D W) (w : W) (a b : List (Item D))
      → Same s s'
      → rem_all s'.plugins b (rem_all s.plugins a w) ≡ rem_all s.plugins (a ++ b) w
  two_removals s s' w a b e =
      ap (λ ps. rem_all ps b (rem_all s.plugins a w)) e.plugins
      ∙ sym (rem_all-append s.plugins a b w)

  refresh_untimed :
      (now : ℕ → Mtime) (s : SlidingWindow P D W) (w : W) (q : List (Item D))
      → Held s q
      → (s.time_limit == 0) ≡ true
      → Refreshed (slidingwindow_refresh null now s w) now s w q
  refresh_untimed now s w q h e =
      let n = obsolate_num_limit_lem null s w q h in
      record {
        expired = [];
        crowded = n.crowded;
        kept = n.kept;
        readings = 0;
        next = n.left.next;
        runs = refresh_runs now s s n.left.next w w _ 0 (no_time_limit now s w e) n.left.runs;
        conserved = n.conserved;
        aged = inl (==→eq s.time_limit 0 e, refl);
        one = one_crowded n.crowded n.kept q s.num_limit s.num_limit n.conserved refl n.one;
        room = n.room;
        same = n.left.same;
        held = n.left.held;
      }

  refresh_timed :
      (now : ℕ → Mtime) (s : SlidingWindow P D W) (w : W) (q : List (Item D))
      → Held s q
      → (s.time_limit == 0) ≡ false
      → Refreshed (slidingwindow_refresh null now s w) now s w q
  unfolding Puffer.read_capacity
  refresh_timed now s w q h e =
      let t =
        time_limit_loop_lem null s.time_limit now q (suc s.trackeditems.count) 0 s w refl h
          (omega (arith, h.tracked.counted)) in
      let n = obsolate_num_limit_lem null t.next _ t.kept t.held in
      record {
        expired = t.expired;
        crowded = n.crowded;
        kept = n.kept;
        readings = t.readings;
        next = n.left.next;
        runs =
            refresh_runs now s t.next n.left.next w _ _ t.readings (time_limited now s w e ∙ t.runs)
              n.left.runs
            ∙ ap (λ v. some (t.readings, n.left.next, v))
                (two_removals s t.next w t.expired n.crowded t.same);
        conserved = rw n.conserved t.conserved;
        aged = inr (
          ground arith,
          t.old,
          rw n.conserved (first_fresh s.time_limit now (length t.expired) t.kept t.fresh),
        );
        one =
            one_crowded n.crowded n.kept t.kept t.next.num_limit s.num_limit n.conserved
              t.same.num_limit n.one;
        room = omega (arith, n.room, t.same.num_limit);
        same = Same-trans s t.next n.left.next t.same n.left.same;
        held = n.left.held;
      }

  -- A refresh of a window ends without a fault.
  pub slidingwindow_refresh_lem :
      (now : ℕ → Mtime) (s : SlidingWindow P D W) (w : W) (q : List (Item D))
      → Held s q
      → Refreshed (slidingwindow_refresh null now s w) now s w q
  slidingwindow_refresh_lem now s w q h = elim (Bool-cases (s.time_limit == 0)) [
    | inl e ↦ refresh_untimed now s w q h e
    | inr e ↦ refresh_timed now s w q h e
  ]
