-- ===== src/Sliding/Limits.antt =====
-- The clearing of a sliding window, and the loop on the number of its items.
use ntrt.Prelude.{
  ℕ, zero, suc, ◌<◌, ◌≡◌, ◌∙◌, refl, sym, true, false, Option, some, List, [], ◌∷◌, ◌++◌, ◌==◌,
  arith, length, Bool-cases, inl, inr, ==→eq, ◌⊎◌,
}
use ntrt.Puffer
use ntrt.Puffer.{Puffer}
use ntrt.Puffer.Holds
use ntrt.Sliding.{
  Item, SlidingWindow, slidingwindow_is_empty, slidingwindow_rem, clear_loop, slidingwindow_clear,
  num_limit_loop, obsolate_num_limit,
}
use ntrt.Sliding.Held.{Held, Same-refl, rem_all, Left, not_empty, is_empty_nil, rem_lem, then-Left}

module _ {ℓ κ μ} {P : Type ℓ} {D : Type κ} {W : Type μ} (null : D) where
  Left-alone :
      (run : Option (SlidingWindow P D W × W)) (s : SlidingWindow P D W) (w : W) (q : List (Item D))
      → Held s q
      → run ≡ some (s, w)
      → Left run s w [] q
  unfolding rem_all
  Left-alone run s w q h e = record { next = s; runs = e; same = Same-refl s; held = h }

  clear_stops :
      (n : ℕ) (s : SlidingWindow P D W) (w : W)
      → slidingwindow_is_empty s ≡ true
      → clear_loop null (suc n) s w ≡ some (s, w)
  unfolding clear_loop
  clear_stops n s w e = cc

  clear_goes :
      (n : ℕ) (s s' : SlidingWindow P D W) (w w' : W)
      → slidingwindow_is_empty s ≡ false
      → slidingwindow_rem null s w ≡ some (s', w')
      → clear_loop null (suc n) s w ≡ clear_loop null n s' w'
  unfolding clear_loop
  clear_goes n s s' w w' e r = cc

  clear_loop_lem :
      (q : List (Item D)) (n : ℕ) (s : SlidingWindow P D W) (w : W)
      → Held s q
      → length q < n
      → Left (clear_loop null n s w) s w q []
  clear_loop_lem q zero s w h l = absurd (omega arith)
  clear_loop_lem [] (suc n) s w h l =
      Left-alone (clear_loop null (suc n) s w) s w [] h (clear_stops n s w (is_empty_nil s h))
  clear_loop_lem (i ∷ q) (suc n) s w h l =
      let f = rem_lem null s w i q h in
      then-Left null s w i q q [] f (clear_goes n s f.next w _ (not_empty s i q h) f.runs)
        (clear_loop_lem q n f.next _ f.held (omega arith))

  -- `slidingwindow_clear` ends; every plugin has seen every item leave, oldest first.
  pub slidingwindow_clear_lem :
      (s : SlidingWindow P D W) (w : W) (q : List (Item D))
      → Held s q
      → Left (slidingwindow_clear null s w) s w q []
  unfolding slidingwindow_clear Puffer.read_capacity
  slidingwindow_clear_lem s w q h =
      clear_loop_lem q (suc (Puffer.read_capacity s.trackeditems)) s w h
        (omega (arith, h.tracked.counted))

  num_limit_stops :
      (n : ℕ) (s : SlidingWindow P D W) (w : W)
      → Puffer.is_full s.trackeditems ≡ false
      → num_limit_loop null (suc n) s w ≡ some (s, w)
  unfolding num_limit_loop
  num_limit_stops n s w e = cc

  num_limit_goes :
      (n : ℕ) (s s' : SlidingWindow P D W) (w w' : W)
      → Puffer.is_full s.trackeditems ≡ true
      → slidingwindow_rem null s w ≡ some (s', w')
      → num_limit_loop null (suc n) s w ≡ num_limit_loop null n s' w'
  unfolding num_limit_loop
  num_limit_goes n s s' w w' e r = cc

  -- Where there is room, the loop on the number of items does nothing.
  num_limit_room :
      (n : ℕ) (s : SlidingWindow P D W) (w : W) (q : List (Item D))
      → Held s q
      → length q < s.num_limit
      → Left (num_limit_loop null (suc n) s w) s w [] q
  num_limit_room n s w q h l = Left-alone (num_limit_loop null (suc n) s w) s w q h (
      num_limit_stops n s w (Holds.not_full s.trackeditems q h.tracked (omega (arith, h.capacity))))

  -- Where there is none, it takes one item.
  num_limit_full :
      (n : ℕ) (s : SlidingWindow P D W) (w : W) (i : Item D) (q : List (Item D))
      → Held s (i ∷ q)
      → length (i ∷ q) ≡ s.num_limit
      → 0 < n
      → Left (num_limit_loop null (suc n) s w) s w (i ∷ []) q
  num_limit_full zero s w i q h l m = absurd (omega arith)
  num_limit_full (suc n) s w i q h l m =
      let f = rem_lem null s w i q h in
      then-Left null s w i q [] q f
        (num_limit_goes (suc n) s f.next w _
          ((Holds.is_full_lem s.trackeditems (i ∷ q) h.tracked).1 (l ∙ sym h.capacity)) f.runs)
        (num_limit_room n f.next _ q f.held (omega (arith, f.same.num_limit)))

  -- Its run ended: it took the oldest item, where the limit was reached, and there is room.
  pub record Roomed (run : Option (SlidingWindow P D W × W)) (s : SlidingWindow P D W) (w : W)
      (q : List (Item D)) : Type (ℓ ⊔ κ ⊔ μ) where
    pub crowded : List (Item D)
    pub kept : List (Item D)
    pub left : Left run s w crowded kept
    pub conserved : crowded ++ kept ≡ q
    pub one : (crowded ≡ []) ⊎ (length crowded ≡ 1) × (length q ≡ s.num_limit)
    pub room : length kept < s.num_limit

  pub obsolate_num_limit_lem :
      (s : SlidingWindow P D W) (w : W) (q : List (Item D))
      → Held s q
      → Roomed (obsolate_num_limit null s w) s w q
  unfolding obsolate_num_limit Puffer.read_capacity
  obsolate_num_limit_lem s w [] h = record {
    crowded = [];
    kept = [];
    left =
        num_limit_room (Puffer.read_capacity s.trackeditems) s w [] h
          (omega (arith, h.tracked.start_in, h.capacity));
    conserved = refl;
    one = inl refl;
    room = omega (arith, h.tracked.start_in, h.capacity);
  }
  obsolate_num_limit_lem s w (i ∷ q) h = elim (Bool-cases (length (i ∷ q) == s.num_limit)) [
    | inl e ↦ record {
      crowded = i ∷ [];
      kept = q;
      left =
          num_limit_full (Puffer.read_capacity s.trackeditems) s w i q h
            (==→eq (length (i ∷ q)) s.num_limit e) (omega (arith, h.tracked.counted));
      conserved = refl;
      one = inr (refl, ==→eq (length (i ∷ q)) s.num_limit e);
      room = ground arith;
    }
    | inr e ↦
        let l : length (i ∷ q) < s.num_limit = ground (arith, h.tracked.fits, h.capacity) in
        record {
          crowded = [];
          kept = i ∷ q;
          left = num_limit_room (Puffer.read_capacity s.trackeditems) s w (i ∷ q) h l;
          conserved = refl;
          one = inl refl;
          room = l;
        }
  ]
