-- ===== src/Sliding/Fresh.antt =====
-- A window of numbers from its construction on.
use ntrt.Prelude.{
  ℕ, suc, ◌+◌, ◌-◌, ◌%◌, ◌^◌, ◌<◌, ◌≤◌, ◌≡◌, ◌∙◌, ◌⊎◌, zero, length-append, refl, sym, ap, Option,
  some, false, List, [], ◌∷◌, ◌++◌, arith, length, length-replicate, ◌==◌, leb, if◌then◌else◌,
}
use ntrt.Slist.{slist_append}
use ntrt.Puffer.Holds
use ntrt.Puffer.Vacant
use ntrt.Sliding.{Item, new_window, slidingwindow_ctor, add_plugin}
use ntrt.Sliding.Int32.{
  Address, Memory, IntWindow, Call, call_all, make_swstorage_int32, make_swint32_stater,
  slidingwindow_int32_ctor, summed_window,
}
use ntrt.Sliding.Storage.{Kept}
use ntrt.Sliding.Summer.{total}
use ntrt.Sliding.Calls.{Summed}
use ntrt.Sliding.History.{all_added, OnlyAdds, Summed-le, call_all_lem, adds_moved}

nonzero : (n : ℕ) → 0 < (if n == 0 then 32 else n)
nonzero n = ground arith

recycle_size : (n : ℕ) → 0 < n → 0 < (if leb n 1024 then n else 1024)
recycle_size n h = ground arith

abbrev pub drop : ℕ → List ℕ → List ℕ
drop zero vs = vs
drop (suc n) [] = []
drop (suc n) (v ∷ vs) = drop n vs

drop-append : (a b : List ℕ) (n : ℕ) → n ≡ length a → drop n (a ++ b) ≡ b
drop-append [] b zero e = refl
drop-append [] b (suc n) e = absurd (omega arith)
drop-append (x ∷ a) b zero e = absurd (omega arith)
drop-append (x ∷ a) b (suc n) e = drop-append a b n (omega arith)

-- The last `n` of the numbers, or all of them where there are fewer.
abbrev pub last : ℕ → List ℕ → List ℕ
last n vs = drop (length vs - n) vs

last_lem :
    (n limit : ℕ) (gone values vs : List ℕ)
    → limit ≡ n
    → gone ++ values ≡ vs
    → (length gone ≡ 0) ⊎ (length values ≡ limit)
    → length values ≤ limit
    → last n vs ≡ values
last_lem n limit gone values vs f e p b =
    let e' = ap (λ (x : List ℕ). length x) e in
    ap (drop (length vs - n)) (sym e)
    ∙ drop-append gone values (length vs - n) (ground (arith, length-append gone values))

given : (n : ℕ) → 0 < n → (if n == 0 then 32 else n) ≡ n
given n h = ground arith

module _ {ℓ} {O : Type ℓ} where
  pub summed_window-Summed :
      (num_limit time_limit : ℕ) (pipe : Option (O → ℕ → O)) (pipe_data : O) (m : Memory O)
      → let (s, m') = summed_window num_limit time_limit pipe pipe_data m in Summed s m' [] []
  unfolding summed_window slidingwindow_int32_ctor slidingwindow_ctor new_window add_plugin
      make_swint32_stater make_swstorage_int32 slist_append Kept
  summed_window-Summed num_limit time_limit pipe pipe_data m =
      let n = if num_limit == 0 then 32 else num_limit in
      record {
        held = record {
          spare = [];
          tracked = Holds.ctor_lem n (nonzero num_limit);
          recycling = Holds.ctor_lem _ (recycle_size n (nonzero num_limit));
          vacant = Vacant.ctor-Vacant n;
          capacity = refl;
        };
        plugins = refl;
        storage = refl;
        sized = refl;
        right = record {
          base = 0;
          base_in = omega arith;
          allocated = length-replicate (n + 1) 0;
          kept = refl;
          sum = refl;
          sound = refl;
        };
      }

  -- A run ended: the numbers tracked are the last of those added, no more than the limit, and the
  -- summer has their sum modulo 2^32.
  pub record Watched (run : Option (IntWindow O × Memory O)) (limit : ℕ) (more : List ℕ)
      : Type ℓ where
    pub next : IntWindow O
    pub memory : Memory O
    pub gone : List ℕ
    pub values : List ℕ
    pub runs : run ≡ some (next, memory)
    pub conserved : gone ++ values ≡ more
    pub bounded : length values ≤ limit
    pub sum : memory.summer.sum ≡ total values % 2 ^ 32
    pub sound : memory.faulted ≡ false
    pub items : List (Item Address)
    pub summed : Summed next memory items values

  num_limit-summed_window :
      (num_limit time_limit : ℕ) (pipe : Option (O → ℕ → O)) (pipe_data : O) (m : Memory O)
      → (summed_window num_limit time_limit pipe pipe_data m).0.num_limit
        ≡ (if num_limit == 0 then 32 else num_limit)
  unfolding summed_window slidingwindow_int32_ctor slidingwindow_ctor new_window add_plugin
  num_limit-summed_window num_limit time_limit pipe pipe_data m = refl

  time_limit-summed_window :
      (num_limit time_limit : ℕ) (pipe : Option (O → ℕ → O)) (pipe_data : O) (m : Memory O)
      → (summed_window num_limit time_limit pipe pipe_data m).0.time_limit ≡ time_limit
  unfolding summed_window slidingwindow_int32_ctor slidingwindow_ctor new_window add_plugin
  time_limit-summed_window num_limit time_limit pipe pipe_data m = refl

  -- On a new window of numbers with a summer any calls run without a fault, and no access is outside of
  -- the storage. The numbers tracked are
  -- the last of those added, in order; they are no more than the limit, 32 where it was given as 0;
  -- the sum is theirs, modulo 2^32.
  pub window_lem :
      (num_limit time_limit : ℕ) (pipe : Option (O → ℕ → O)) (pipe_data : O) (m : Memory O)
      (calls : List Call)
      → let (s, m') = summed_window num_limit time_limit pipe pipe_data m in
        Watched (call_all calls s m') (if num_limit == 0 then 32 else num_limit) (all_added calls)
  window_lem num_limit time_limit pipe pipe_data m calls =
      let (s, m') = summed_window num_limit time_limit pipe pipe_data m in
      let r =
        call_all_lem calls s m' [] []
          (summed_window-Summed num_limit time_limit pipe pipe_data m) in
      record {
        next = r.next;
        memory = r.memory;
        gone = r.gone;
        values = r.values;
        runs = r.runs;
        conserved = r.conserved;
        bounded = omega (
          arith,
          Summed-le r.next r.memory r.items r.values r.summed,
          r.same.num_limit,
          num_limit-summed_window num_limit time_limit pipe pipe_data m,
        );
        sum = r.summed.right.sum;
        sound = r.summed.right.sound;
        items = r.items;
        summed = r.summed;
      }

  -- On a new window of numbers with a summer, with a limit of their number and none of time, any
  -- numbers are added without a fault or an access outside of the storage, and the sum is that of the last of them, modulo 2^32, as many
  -- as the limit.
  pub adds_lem :
      (num_limit : ℕ) (pipe : Option (O → ℕ → O)) (pipe_data : O) (m : Memory O) (calls : List Call)
      → 0 < num_limit
      → OnlyAdds calls
      → let (s, m') = summed_window num_limit 0 pipe pipe_data m in
        (next : IntWindow O) × (memory : Memory O) × (call_all calls s m' ≡ some (next, memory))
        × (memory.summer.sum ≡ total (last num_limit (all_added calls)) % 2 ^ 32)
        × (memory.faulted ≡ false)
  adds_lem num_limit pipe pipe_data m calls h o =
      let (s, m') = summed_window num_limit 0 pipe pipe_data m in
      let r =
        adds_moved calls s m' [] [] o (summed_window-Summed num_limit 0 pipe pipe_data m)
          (time_limit-summed_window num_limit 0 pipe pipe_data m) in
      (
        r.0.next,
        r.0.memory,
        r.0.runs,
        r.0.summed.right.sum
            ∙ ap (λ l. total l % 2 ^ 32)
                (sym (
                  last_lem num_limit s.num_limit r.0.gone r.0.values (all_added calls)
                    (num_limit-summed_window num_limit 0 pipe pipe_data m ∙ given num_limit h)
                    r.0.conserved r.1
                    (omega (
                      arith,
                      Summed-le r.0.next r.0.memory r.0.items r.0.values r.0.summed,
                      r.0.same.num_limit,
                    )))),
        r.0.summed.right.sound,
      )
