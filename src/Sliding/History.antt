-- ===== src/Sliding/History.antt =====
-- Any calls on a window of numbers, one after the other.
use ntrt.Prelude.{
  ℕ, ◌<◌, ◌≤◌, ◌≡◌, ◌∙◌, ◌⊎◌, length-append, refl, sym, ap, some, List, [], ◌∷◌, ◌++◌, arith,
  length, append_assoc, inl,
}
use ntrt.Slist.{append_nil}
use ntrt.Sliding.{Item}
use ntrt.Sliding.Held.{Same-refl, Same-trans}
use ntrt.Sliding.Int32.{Address, Memory, IntWindow, Call, add, refresh, clear, call, call_all}
use ntrt.Sliding.Storage.{as_many_Kept}
use ntrt.Sliding.Calls.{added, Summed, Moved, call_refresh, call_clear}
use ntrt.Sliding.Adding.{Pushed, call_add}

-- The numbers that calls add, in order.
abbrev pub all_added : List Call → List ℕ
all_added [] = []
all_added (c ∷ calls) = added c ++ all_added calls

-- The calls add numbers only.
abbrev pub OnlyAdds : List Call → Type 0
OnlyAdds [] = Unit
OnlyAdds (add now v ∷ calls) = OnlyAdds calls
OnlyAdds (_ ∷ calls) = ⊥

-- A window from which anything has left is full.
full_or_whole :
    (num limit num' : ℕ) (g values vs gone rest : List ℕ) (v : ℕ) (more : List ℕ)
    → limit ≡ 0
    → num' ≡ num
    → (0 < limit) ⊎ (length g ≡ 0) ⊎ (length g ≡ 1) × (length vs ≡ num)
    → g ++ values ≡ vs ++ v ∷ []
    → gone ++ rest ≡ values ++ more
    → (length gone ≡ 0) ⊎ (length rest ≡ num')
    → length rest ≤ num'
    → (length (g ++ gone) ≡ 0) ⊎ (length rest ≡ num)
full_or_whole num limit num' g values vs gone rest v more t n p c d r b =
    let c' = ap (λ (x : List ℕ). length x) c in
    let d' = ap (λ (x : List ℕ). length x) d in
    ground (
      arith,
      length-append g values,
      length-append vs (v ∷ []),
      length-append gone rest,
      length-append values more,
      length-append g gone,
    )

module _ {ℓ} {O : Type ℓ} where
  pub call_lem :
      (c : Call) (s : IntWindow O) (m : Memory O) (q : List (Item Address)) (vs : List ℕ)
      → Summed s m q vs
      → Moved (call c s m) s vs (added c)
  call_lem (add now v) s m q vs h = (call_add now v s m q vs h).0
  call_lem (refresh now) s m q vs h = call_refresh now s m q vs h
  call_lem clear s m q vs h = call_clear s m q vs h

  -- A window tracks no more numbers than its limit.
  pub Summed-le :
      (s : IntWindow O) (m : Memory O) (q : List (Item Address)) (vs : List ℕ)
      → Summed s m q vs
      → length vs ≤ s.num_limit
  Summed-le s m q vs h = omega (
    arith,
    as_many_Kept m.swstorage.storage m.swstorage.length h.right.base q vs m.swstorage.index
        h.right.kept,
    h.held.tracked.fits,
    h.held.capacity,
  )

  call_all_step :
      (c : Call) (calls : List Call) (s s' : IntWindow O) (m m' : Memory O)
      → call c s m ≡ some (s', m')
      → call_all (c ∷ calls) s m ≡ call_all calls s' m'
  unfolding call_all
  call_all_step c calls s s' m m' e = cc

  no_calls :
      (s : IntWindow O) (m : Memory O) (q : List (Item Address)) (vs : List ℕ)
      → Summed s m q vs
      → Moved (call_all [] s m) s vs []
  unfolding call_all
  no_calls s m q vs h = record {
    next = s;
    memory = m;
    gone = [];
    values = vs;
    runs = refl;
    conserved = sym (append_nil vs);
    same = Same-refl s;
    items = q;
    summed = h;
  }

  then_moved :
      (c : Call) (calls : List Call) (s : IntWindow O) (m : Memory O) (vs : List ℕ)
      (f : Moved (call c s m) s vs (added c))
      → Moved (call_all calls f.next f.memory) f.next f.values (all_added calls)
      → Moved (call_all (c ∷ calls) s m) s vs (all_added (c ∷ calls))
  then_moved c calls s m vs f r = record {
    next = r.next;
    memory = r.memory;
    gone = f.gone ++ r.gone;
    values = r.values;
    runs = call_all_step c calls s f.next m f.memory f.runs ∙ r.runs;
    conserved =
        append_assoc f.gone r.gone r.values
        ∙ ap (λ l. f.gone ++ l) r.conserved
        ∙ sym (append_assoc f.gone f.values (all_added calls))
        ∙ ap (λ l. l ++ all_added calls) f.conserved
        ∙ append_assoc vs (added c) (all_added calls);
    same = Same-trans s f.next r.next f.same r.same;
    items = r.items;
    summed = r.summed;
  }

  -- Any calls on such a window run without a fault: what it held and what is added leaves in that
  -- order, and the sum is that of what is left.
  pub call_all_lem :
      (calls : List Call) (s : IntWindow O) (m : Memory O) (q : List (Item Address)) (vs : List ℕ)
      → Summed s m q vs
      → Moved (call_all calls s m) s vs (all_added calls)
  call_all_lem [] s m q vs h = no_calls s m q vs h
  call_all_lem (c ∷ calls) s m q vs h =
      let f = call_lem c s m q vs h in
      then_moved c calls s m vs f (call_all_lem calls f.next f.memory f.items f.values f.summed)

  pub adds_moved :
      (calls : List Call) (s : IntWindow O) (m : Memory O) (q : List (Item Address)) (vs : List ℕ)
      → OnlyAdds calls
      → Summed s m q vs
      → s.time_limit ≡ 0
      → (r : Moved (call_all calls s m) s vs (all_added calls)) × ((length r.gone ≡ 0)
          ⊎ (length r.values ≡ s.num_limit))
  unfolding no_calls then_moved Pushed
  adds_moved [] s m q vs o h t = (no_calls s m q vs h, inl refl)
  adds_moved (refresh now ∷ calls) s m q vs o h t = absurd o
  adds_moved (clear ∷ calls) s m q vs o h t = absurd o
  adds_moved (add now v ∷ calls) s m q vs o h t =
      let f = call_add now v s m q vs h in
      let g = f.0 in
      let r =
        adds_moved calls g.next g.memory g.items g.values o g.summed (g.same.time_limit ∙ t) in
      (
        then_moved (add now v) calls s m vs g r.0,
        full_or_whole s.num_limit s.time_limit g.next.num_limit g.gone g.values vs r.0.gone
            r.0.values v (all_added calls) t g.same.num_limit f.1 g.conserved r.0.conserved r.1
            (omega (
              arith,
              Summed-le r.0.next r.0.memory r.0.items r.0.values r.0.summed,
              r.0.same.num_limit,
            )),
      )
