-- ===== src/Sliding/Adding.antt =====
-- A number added to a window of numbers with a summer.
use ntrt.Prelude.{
  ℕ, ◌+◌, ◌<◌, ◌≡◌, ◌∙◌, refl, sym, ap, ap₂, subst, ◌⊎◌, inl, inr, Option, some, List, [], ◌∷◌,
  ◌++◌, arith, length, length-append, append_assoc,
}
use ntrt.Clock.{Mtime}
use ntrt.Sliding.{Item, slidingwindow_add_data, add_pipes, stored}
use ntrt.Sliding.Held.{AllExpired, FirstFresh, Held, Same, Same-sym, Same-trans, rem_all}
use ntrt.Sliding.Push.{slidingwindow_add_data_lem}
use ntrt.Sliding.Int32.{
  Address, null, item_address, cell, Memory, swint32_stater, IntWindow, swstorage_store_int32,
  slidingwindow_add_int, swint32sum_add_pipe, add, call,
}
use ntrt.Sliding.Storage.{as_many_Kept}
use ntrt.Sliding.Summer.{take_in, take_in-Right}
use ntrt.Sliding.Calls.{Summed, Moved, removed}

-- How many items a refresh removes.
few :
    (limit num n l : ℕ) (now : ℕ → Mtime) (e c k q : List (Item Address))
    → (limit ≡ 0) × (e ≡ [])
      ⊎ (0 < limit) × AllExpired limit now 0 e × FirstFresh limit now (length e) (c ++ k)
    → (c ≡ []) ⊎ (length c ≡ 1) × (length (c ++ k) ≡ num)
    → e ++ (c ++ k) ≡ q
    → length q ≡ n
    → l ≡ length (e ++ c)
    → (0 < limit) ⊎ (l ≡ 0) ⊎ (l ≡ 1) × (n ≡ num)
few limit num n l now e c k q (inr (t, _, _)) o h a b = inl t
few limit num n l now e c k q (inl (t, f)) (inl o) h a b =
    inr (inl (b ∙ length-append e c ∙ ap₂ ◌+◌ (ap (λ x. length x) f) (ap (λ x. length x) o)))
few limit num n l now e c k q (inl (t, f)) (inr (o, p)) h a b =
    let none_expired = ap (λ (x : List (Item Address)). length x) f in
    let parts = ap (λ (x : List (Item Address)). length x) h in
    inr (
      inr (
        omega (arith, length-append e c, none_expired),
        omega (arith, length-append e (c ++ k), parts, none_expired),
      ))

module _ {ℓ} {O : Type ℓ} where
  -- The number in the parameter is written there and is summed as before.
  with_item :
      (s : IntWindow O) (m : Memory O) (v : ℕ) (q : List (Item Address)) (vs : List ℕ)
      → Summed s m q vs
      → Summed s (record m { item = v }) q vs
  with_item s m v q vs h = record {
    held = h.held;
    plugins = h.plugins;
    storage = h.storage;
    sized = h.sized;
    right = record {
      base = h.right.base;
      base_in = h.right.base_in;
      allocated = h.right.allocated;
      kept = h.right.kept;
      sum = h.right.sum;
      sound = h.right.sound;
    };
  }

  -- What the storage and the summer make of the parameter.
  add_pipes-stored :
      (m : Memory O)
      → add_pipes
          (swint32_stater ∷ [])
          (stored (some swstorage_store_int32) m item_address).1
          (stored (some swstorage_store_int32) m item_address).0
        ≡ take_in m
  unfolding add_pipes stored take_in
  add_pipes-stored m = refl

  cell-stored :
      (m : Memory O)
      → (stored (some swstorage_store_int32) m item_address).1 ≡ cell m.swstorage.index
  unfolding stored swstorage_store_int32
  cell-stored m = refl

  length-take_in : (m : Memory O) → (take_in m).swstorage.length ≡ m.swstorage.length
  unfolding take_in swstorage_store_int32 swint32sum_add_pipe
  length-take_in m = refl

  -- A summed window takes the number in, where the item put behind those kept has its cell.
  taken_in :
      (s next : IntWindow O) (m : Memory O) (q : List (Item Address)) (vs : List ℕ)
      (x : Item Address)
      → Summed s m q vs
      → Same s next
      → Held next (q ++ x ∷ [])
      → x.datum ≡ cell m.swstorage.index
      → Summed next (take_in m) (q ++ x ∷ []) (vs ++ m.item ∷ [])
  taken_in s next m q vs x h same held d = record {
    held = held;
    plugins = same.plugins ∙ h.plugins;
    storage = same.storage ∙ h.storage;
    sized = length-take_in m ∙ omega (arith, h.sized, same.num_limit);
    right =
        take_in-Right m q vs x h.right
          (omega (
            arith,
            length-append q (x ∷ []),
            held.tracked.fits,
            held.capacity,
            same.num_limit,
            h.sized,
          ))
          d;
  }

  -- The copy that a call of slidingwindow_add_data makes.
  copied :
      (s : IntWindow O) (m : Memory O) (copy : Memory O × Address) (gone : List (Item Address))
      → s.plugins ≡ swint32_stater ∷ []
      → s.storage ≡ some swstorage_store_int32
      → stored s.storage (rem_all s.plugins gone m) item_address ≡ copy
      → copy
        ≡ stored (some swstorage_store_int32) (rem_all (swint32_stater ∷ []) gone m) item_address
  copied s m copy gone p st e = cc

  add_int_runs :
      (now : ℕ → Mtime) (v : ℕ) (s next : IntWindow O) (m : Memory O) (copy : Memory O × Address)
      (gone : List (Item Address))
      → s.plugins ≡ swint32_stater ∷ []
      → copy
        ≡ stored
            (some swstorage_store_int32)
            (rem_all (swint32_stater ∷ []) gone (record m { item = v }))
            item_address
      → slidingwindow_add_data null now s item_address (record m { item = v })
        ≡ some (next, add_pipes s.plugins copy.1 copy.0)
      → call (add now v) s m
        ≡ some (next, take_in (rem_all (swint32_stater ∷ []) gone (record m { item = v })))
  unfolding call slidingwindow_add_int
  add_int_runs now v s next m copy gone p c r =
      r
      ∙ ap (λ ps. some (next, add_pipes ps copy.1 copy.0)) p
      ∙ ap (λ (c : Memory O × Address). some (next, add_pipes (swint32_stater ∷ []) c.1 c.0)) c
      ∙ ap (λ m'. some (next, m'))
          (add_pipes-stored (rem_all (swint32_stater ∷ []) gone (record m { item = v })))

  -- Without a limit of time a number leaves only where the window is full, and then alone.
  unfoldable pub Pushed :
      (run : Option (IntWindow O × Memory O)) (s : IntWindow O) (vs more : List ℕ)
      → Moved run s vs more
      → Type 0
  Pushed run s vs more r =
      (0 < s.time_limit) ⊎ (length r.gone ≡ 0) ⊎ (length r.gone ≡ 1) × (length vs ≡ s.num_limit)

  pub call_add :
      (now : ℕ → Mtime) (v : ℕ) (s : IntWindow O) (m : Memory O) (q : List (Item Address))
      (vs : List ℕ)
      → Summed s m q vs
      → (r : Moved (call (add now v) s m) s vs (v ∷ [])) × Pushed
          (call (add now v) s m)
          s
          vs
          (v ∷ [])
          r
  unfolding Pushed
  call_add now v s m q vs h =
      let m' : Memory O = record m { item = v } in
      let a = slidingwindow_add_data_lem null now s item_address m' q h.held in
      let r = a.refreshed in
      let gone = r.expired ++ r.crowded in
      let d =
        removed s r.next m' q vs gone r.kept (with_item s m v q vs h)
          (append_assoc r.expired r.crowded r.kept ∙ r.conserved) r.same r.held in
      let c = copied s m' a.copy gone h.plugins h.storage a.stores in
      let x : Item Address = record { datum = a.copy.1; pushed = now r.readings } in
      let t =
        taken_in r.next a.next (rem_all (swint32_stater ∷ []) gone m') r.kept d.1 x d.3
          (Same-trans r.next s a.next (Same-sym s r.next r.same) a.same) a.held
          (ap (λ (c : Memory O × Address). c.1) c
            ∙ cell-stored (rem_all (swint32_stater ∷ []) gone m')) in
      (
        record {
          next = a.next;
          memory = take_in (rem_all (swint32_stater ∷ []) gone m');
          gone = d.0;
          values = d.1 ++ v ∷ [];
          runs = add_int_runs now v s a.next m a.copy gone h.plugins c a.runs;
          conserved = sym (append_assoc d.0 d.1 (v ∷ [])) ∙ ap (λ l. l ++ v ∷ []) d.2;
          same = a.same;
          items = r.kept ++ x ∷ [];
          summed =
              subst
                (λ u.
                  Summed a.next (take_in (rem_all (swint32_stater ∷ []) gone m')) (r.kept ++ x ∷ [])
                    (d.1 ++ u ∷ []))
                d.4 t;
        },
        few s.time_limit s.num_limit (length vs) (length d.0) now r.expired r.crowded r.kept q
            r.aged r.one r.conserved
            (as_many_Kept m.swstorage.storage m.swstorage.length h.right.base q vs m.swstorage.index
              h.right.kept)
            d.5,
      )
