-- ===== src/Sliding/Aging.antt =====
-- The loop of a sliding window on the age of its items.
use ntrt.Prelude.{
  plus_zero, shift, ℕ, zero, suc, ◌+◌, ◌<◌, ◌≡◌, ◌∙◌, refl, ap, subst, Bool, true, false, Option,
  none, some, List, [], ◌∷◌, ◌++◌, arith, length, Bool-cases, inl, inr,
}
use ntrt.Clock.{Mtime, diffmtime_fromnow, ltb_ℕ}
use ntrt.Puffer
use ntrt.Puffer.{Puffer}
use ntrt.Puffer.Holds
use ntrt.Puffer.Vacant
use ntrt.Sliding.{Item, SlidingWindow, slidingwindow_rem, time_limit_loop}
use ntrt.Sliding.Held.{
  is_expired, AllExpired, FirstFresh, Held, Same, Same-refl, Same-trans, rem_all, rem_lem,
}

module _ {ℓ} {D : Type ℓ} where
  is_expired-false :
      (limit : ℕ) (now : Mtime) (i : Item D)
      → ltb_ℕ (diffmtime_fromnow now i.pushed) limit ≡ true
      → is_expired limit now i ≡ false
  is_expired-false limit now i e = cc

  is_expired-true :
      (limit : ℕ) (now : Mtime) (i : Item D)
      → ltb_ℕ (diffmtime_fromnow now i.pushed) limit ≡ false
      → is_expired limit now i ≡ true
  is_expired-true limit now i e = cc

module _ {ℓ κ μ} {P : Type ℓ} {D : Type κ} {W : Type μ} (null : D) where
  -- A run of the loop on time ended: `expired` was removed, and the first item kept is fresh.
  pub record Aged (run : Option (ℕ × SlidingWindow P D W × W)) (limit : ℕ) (now : ℕ → Mtime) (k : ℕ)
      (s : SlidingWindow P D W) (w : W) (q : List (Item D)) : Type (ℓ ⊔ κ ⊔ μ) where
    pub expired : List (Item D)
    pub kept : List (Item D)
    pub readings : ℕ
    pub next : SlidingWindow P D W
    pub runs : run ≡ some (readings, next, rem_all s.plugins expired w)
    pub conserved : expired ++ kept ≡ q
    pub old : AllExpired limit now k expired
    pub fresh : FirstFresh limit now (k + length expired) kept
    pub same : Same s next
    pub held : Held next kept

  time_limit_empty :
      (n k : ℕ) (now : ℕ → Mtime) (s : SlidingWindow P D W) (w : W)
      → Puffer.peek_first s.trackeditems ≡ none
      → time_limit_loop null (suc n) now k s w ≡ some (k, s, w)
  unfolding time_limit_loop
  time_limit_empty n k now s w e = cc

  time_limit_fresh :
      (n k : ℕ) (now : ℕ → Mtime) (s : SlidingWindow P D W) (w : W) (i : Item D)
      → Puffer.peek_first s.trackeditems ≡ some i
      → ltb_ℕ (diffmtime_fromnow (now k) i.pushed) s.time_limit ≡ true
      → time_limit_loop null (suc n) now k s w ≡ some (k + 1, s, w)
  unfolding time_limit_loop
  time_limit_fresh n k now s w i e f = cc

  time_limit_goes :
      (n k : ℕ) (now : ℕ → Mtime) (s s' : SlidingWindow P D W) (w w' : W) (i : Item D)
      → Puffer.peek_first s.trackeditems ≡ some i
      → ltb_ℕ (diffmtime_fromnow (now k) i.pushed) s.time_limit ≡ false
      → slidingwindow_rem null s w ≡ some (s', w')
      → time_limit_loop null (suc n) now k s w ≡ time_limit_loop null n now (k + 1) s' w'
  unfolding time_limit_loop
  time_limit_goes n k now s s' w w' i e f r = cc

  at_limit :
      {limit : ℕ} {b : Bool} (now : ℕ → Mtime) (k : ℕ) (i : Item D) (s : SlidingWindow P D W)
      → s.time_limit ≡ limit
      → ltb_ℕ (diffmtime_fromnow (now k) i.pushed) limit ≡ b
      → ltb_ℕ (diffmtime_fromnow (now k) i.pushed) s.time_limit ≡ b
  at_limit now k i s t e = ap (ltb_ℕ (diffmtime_fromnow (now k) i.pushed)) t ∙ e

  pub time_limit_loop_lem :
      (limit : ℕ) (now : ℕ → Mtime) (q : List (Item D)) (n k : ℕ) (s : SlidingWindow P D W) (w : W)
      → s.time_limit ≡ limit
      → Held s q
      → length q < n
      → Aged (time_limit_loop null n now k s w) limit now k s w q
  unfolding rem_all
  time_limit_loop_lem limit now q zero k s w t h l = absurd (omega arith)
  time_limit_loop_lem limit now [] (suc n) k s w t h l = record {
    expired = [];
    kept = [];
    readings = k;
    next = s;
    runs = time_limit_empty n k now s w (Vacant.peek_first-empty s.trackeditems h.tracked h.vacant);
    conserved = refl;
    old = tt;
    fresh = tt;
    same = Same-refl s;
    held = h;
  }
  time_limit_loop_lem limit now (i ∷ q) (suc n) k s w t h l =
      let first = Holds.peek_first_lem s.trackeditems i q h.tracked in
      elim (Bool-cases (ltb_ℕ (diffmtime_fromnow (now k) i.pushed) limit)) [
        | inl e ↦ record {
          expired = [];
          kept = i ∷ q;
          readings = k + 1;
          next = s;
          runs = time_limit_fresh n k now s w i first (at_limit now k i s t e);
          conserved = refl;
          old = tt;
          fresh =
              subst (λ j. is_expired limit (now j) i ≡ false) (plus_zero k)
                (is_expired-false limit (now k) i e);
          same = Same-refl s;
          held = h;
        }
        | inr e ↦
            let f = rem_lem null s w i q h in
            let r =
              time_limit_loop_lem limit now q n (k + 1) f.next _ (f.same.time_limit ∙ t) f.held
                (omega arith) in
            record {
              expired = i ∷ r.expired;
              kept = r.kept;
              readings = r.readings;
              next = r.next;
              runs =
                  time_limit_goes n k now s f.next w _ i first (at_limit now k i s t e) f.runs
                  ∙ r.runs
                  ∙ ap
                      (λ ps.
                        some
                          (r.readings, r.next, rem_all ps r.expired (rem_all s.plugins (i ∷ []) w)))
                      f.same.plugins;
              conserved = ap (λ t. i ∷ t) r.conserved;
              old = (is_expired-true limit (now k) i e, r.old);
              fresh =
                  subst (λ j. FirstFresh limit now j r.kept) (shift k (length r.expired)) r.fresh;
              same = Same-trans s f.next r.next f.same r.same;
              held = r.held;
            }
      ]
