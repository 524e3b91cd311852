-- ===== src/Sliding/Calls.antt =====
-- A refresh and a clearing of a window of numbers with a summer.
use ntrt.Prelude.{
  ℕ, ◌+◌, ◌≡◌, ◌∙◌, sym, ap, Option, some, List, [], ◌∷◌, ◌++◌, arith, length, append_assoc,
}
use ntrt.Clock.{Mtime}
use ntrt.Slist.{append_nil}
use ntrt.Sliding.{Item, slidingwindow_refresh}
use ntrt.Sliding.Held.{Held, Same, rem_all}
use ntrt.Sliding.Limits.{slidingwindow_clear_lem}
use ntrt.Sliding.Refresh.{slidingwindow_refresh_lem}
use ntrt.Sliding.Int32.{
  Address, null, Memory, swint32_stater, IntWindow, swstorage_store_int32, Call, add, refresh,
  clear, call,
}
use ntrt.Sliding.Summer.{Right, rem_all-Rest}

-- The number that a call adds.
abbrev pub added : Call → List ℕ
added (add now v) = v ∷ []
added (refresh now) = []
added clear = []

module _ {ℓ} {O : Type ℓ} where
  -- A window of numbers whose only plugin is a summer tracks the numbers `vs`, oldest first.
  pub record Summed (s : IntWindow O) (m : Memory O) (q : List (Item Address)) (vs : List ℕ)
      : Type ℓ where
    pub held : Held s q
    pub plugins : s.plugins ≡ swint32_stater ∷ []
    pub storage : s.storage ≡ some swstorage_store_int32
    pub sized : m.swstorage.length ≡ s.num_limit + 1
    pub right : Right m q vs

  -- A run ended: numbers have left at the front, those added have come at the end.
  pub record Moved (run : Option (IntWindow O × Memory O)) (s : IntWindow O) (vs more : List ℕ)
      : Type ℓ where
    pub next : IntWindow O
    pub memory : Memory O
    pub gone : List ℕ
    pub values : List ℕ
    pub runs : run ≡ some (next, memory)
    pub conserved : gone ++ values ≡ vs ++ more
    pub same : Same s next
    pub items : List (Item Address)
    pub summed : Summed next memory items values

  pub removed :
      (s next : IntWindow O) (m : Memory O) (q : List (Item Address)) (vs : List ℕ)
      (gone kept : List (Item Address))
      → Summed s m q vs
      → gone ++ kept ≡ q
      → Same s next
      → Held next kept
      → (first : List ℕ) × (rest : List ℕ) × (first ++ rest ≡ vs)
        × Summed next (rem_all (swint32_stater ∷ []) gone m) kept rest
        × ((rem_all (swint32_stater ∷ []) gone m).item ≡ m.item)
        × (length first ≡ length gone)
  removed s next m q vs gone kept h e same held =
      let r = rem_all-Rest gone kept m vs (rw e h.right) in
      (
        r.first,
        r.rest,
        r.values,
        record {
          held = held;
          plugins = same.plugins ∙ h.plugins;
          storage = same.storage ∙ h.storage;
          sized = omega (arith, r.same_length, h.sized, same.num_limit);
          right = r.right;
        },
        r.item,
        r.as_many,
      )

  refresh_runs :
      (now : ℕ → Mtime) (s s' : IntWindow O) (m m' : Memory O) (k : ℕ)
      → slidingwindow_refresh null now s m ≡ some (k, s', m')
      → call (refresh now) s m ≡ some (s', m')
  unfolding call
  refresh_runs now s s' m m' k e = cc

  pub call_refresh :
      (now : ℕ → Mtime) (s : IntWindow O) (m : Memory O) (q : List (Item Address)) (vs : List ℕ)
      → Summed s m q vs
      → Moved (call (refresh now) s m) s vs []
  call_refresh now s m q vs h =
      let r = slidingwindow_refresh_lem null now s m q h.held in
      let d =
        removed s r.next m q vs (r.expired ++ r.crowded) r.kept h
          (append_assoc r.expired r.crowded r.kept ∙ r.conserved) r.same r.held in
      record {
        next = r.next;
        memory = rem_all (swint32_stater ∷ []) (r.expired ++ r.crowded) m;
        gone = d.0;
        values = d.1;
        runs =
            refresh_runs now s r.next m _ r.readings r.runs
            ∙ ap (λ ps. some (r.next, rem_all ps (r.expired ++ r.crowded) m)) h.plugins;
        conserved = d.2 ∙ sym (append_nil vs);
        same = r.same;
        items = r.kept;
        summed = d.3;
      }

  pub call_clear :
      (s : IntWindow O) (m : Memory O) (q : List (Item Address)) (vs : List ℕ)
      → Summed s m q vs
      → Moved (call clear s m) s vs []
  unfolding call
  call_clear s m q vs h =
      let r = slidingwindow_clear_lem null s m q h.held in
      let d = removed s r.next m q vs q [] h (append_nil q) r.same r.held in
      record {
        next = r.next;
        memory = rem_all (swint32_stater ∷ []) q m;
        gone = d.0;
        values = d.1;
        runs = r.runs ∙ ap (λ ps. some (r.next, rem_all ps q m)) h.plugins;
        conserved = d.2 ∙ sym (append_nil vs);
        same = r.same;
        items = [];
        summed = d.3;
      }
