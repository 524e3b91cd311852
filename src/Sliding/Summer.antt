-- ===== src/Sliding/Summer.antt =====
-- A window of numbers with a summer: the sum is that of the numbers tracked, modulo 2^32.
use ntrt.Prelude.{
  ℕ, suc, Bool, false, ◌||◌, ◌+◌, ◌%◌, ◌^◌, ◌<◌, ◌≡◌, ◌∙◌, refl, ap, List, [], ◌∷◌, ◌++◌, arith,
  length, length-set, get_or-set_self, Option-cases, inl, inr,
}
use ntrt.Prelude.Word.{add32, sub32}
use ntrt.Sliding.{Item, rem_pipes}
use ntrt.Sliding.Held.{rem_all}
use ntrt.Sliding.Int32.{
  Address, cell, item_address, Swint32summer, Memory, deref, is_outside, pipe_sum,
  swint32sum_add_pipe, swint32sum_rem_pipe, swint32_stater, swstorage_store_int32,
}
use ntrt.Sliding.Storage.{Kept, store-Kept, index_in, next_cell, next_cell-lt}

-- The sum of numbers, without a bound.
abbrev pub total : List ℕ → ℕ
total [] = 0
total (v ∷ vs) = v + total vs

pub total-snoc : (vs : List ℕ) (v : ℕ) → total (vs ++ v ∷ []) ≡ total vs + v
total-snoc [] v = omega arith
total-snoc (u ∷ vs) v = omega (arith, total-snoc vs v)

both_false : (a b : Bool) → a ≡ false → b ≡ false → (a || b) ≡ false
both_false a b e f = cc

module _ {ℓ} {O : Type ℓ} where
  sum-pipe_sum : (p : Swint32summer O) → (pipe_sum p).sum ≡ p.sum
  unfolding pipe_sum
  sum-pipe_sum p = elim (Option-cases p.pipe) [ inl e ↦ cc | inr (f, e) ↦ cc ]

  -- The storage keeps the numbers `vs` of the items `q` from the cell `base` on, and the summer has
  -- their sum.
  pub record Right (m : Memory O) (q : List (Item Address)) (vs : List ℕ) : Type 0 where
    pub base : ℕ
    pub base_in : base < m.swstorage.length
    pub allocated : length m.swstorage.storage ≡ m.swstorage.length
    pub kept : Kept m.swstorage.storage m.swstorage.length base q vs m.swstorage.index
    pub sum : m.summer.sum ≡ total vs % 2 ^ 32
    pub sound : m.faulted ≡ false

  -- What the removal of the items `gone` leaves of the memory.
  pub record Rest (m : Memory O) (gone kept : List (Item Address)) (vs : List ℕ) : Type ℓ where
    pub first : List ℕ
    pub rest : List ℕ
    pub values : first ++ rest ≡ vs
    pub as_many : length first ≡ length gone
    pub item : (rem_all (swint32_stater ∷ []) gone m).item ≡ m.item
    pub same_length : (rem_all (swint32_stater ∷ []) gone m).swstorage.length ≡ m.swstorage.length
    pub right : Right (rem_all (swint32_stater ∷ []) gone m) kept rest

  inside :
      (m : Memory O) (a : Address) (i : ℕ)
      → a ≡ cell i
      → i < length m.swstorage.storage
      → is_outside m a ≡ false
  unfolding is_outside
  inside m a i e h = ap (is_outside m) e ∙ ground arith

  sum-rem_pipe :
      (m : Memory O) (a : Address) (v : ℕ) (vs : List ℕ)
      → deref m a ≡ v
      → m.summer.sum ≡ total (v ∷ vs) % 2 ^ 32
      → (swint32sum_rem_pipe tt a m).summer.sum ≡ total vs % 2 ^ 32
  unfolding swint32sum_rem_pipe sub32
  sum-rem_pipe m a v vs e h =
      sum-pipe_sum (record m.summer { sum = sub32 m.summer.sum (deref m a) })
      ∙ ap (λ d. sub32 m.summer.sum d) e
      ∙ omega arith

  sum-add_pipe :
      (m : Memory O) (a : Address) (v : ℕ) (vs : List ℕ)
      → deref m a ≡ v
      → m.summer.sum ≡ total vs % 2 ^ 32
      → (swint32sum_add_pipe tt a m).summer.sum ≡ total (vs ++ v ∷ []) % 2 ^ 32
  unfolding swint32sum_add_pipe add32
  sum-add_pipe m a v vs e h =
      sum-pipe_sum (record m.summer { sum = add32 m.summer.sum (deref m a) })
      ∙ ap (λ d. add32 m.summer.sum d) e
      ∙ omega (arith, total-snoc vs v)

  pub rem_all-Rest :
      (gone kept : List (Item Address)) (m : Memory O) (vs : List ℕ)
      → Right m (gone ++ kept) vs
      → Rest m gone kept vs
  unfolding rem_all rem_pipes Kept deref is_outside swint32sum_rem_pipe
  rem_all-Rest [] kept m vs h = record {
    first = [];
    rest = vs;
    values = refl;
    as_many = refl;
    item = refl;
    same_length = refl;
    right = h;
  }
  rem_all-Rest (x ∷ gone) kept m [] h = absurd h.kept
  rem_all-Rest (x ∷ gone) kept m (v ∷ vs) h =
      let r = rem_all-Rest gone kept (swint32sum_rem_pipe tt x.datum m) vs (record {
        base = next_cell m.swstorage.length h.base;
        base_in = next_cell-lt m.swstorage.length h.base h.base_in;
        allocated = h.allocated;
        kept = h.kept.2;
        sum = sum-rem_pipe m x.datum v vs (ap (deref m) h.kept.0 ∙ h.kept.1) h.sum;
        sound =
            both_false m.faulted (is_outside m x.datum) h.sound
              (inside m x.datum h.base h.kept.0 (omega (arith, h.base_in, h.allocated)));
      }) in
      record {
        first = v ∷ r.first;
        rest = r.rest;
        values = ap (λ t. v ∷ t) r.values;
        as_many = ap suc r.as_many;
        item = r.item;
        same_length = r.same_length;
        right = r.right;
      }

  -- The memory after the parameter's number is stored and added.
  unfoldable pub take_in : Memory O → Memory O
  unfolding swstorage_store_int32 swint32sum_add_pipe
  take_in m =
      let (m', address) = swstorage_store_int32 m item_address in swint32sum_add_pipe tt address m'

  pub take_in-Right :
      (m : Memory O) (q : List (Item Address)) (vs : List ℕ) (x : Item Address)
      → Right m q vs
      → length q < m.swstorage.length
      → x.datum ≡ cell m.swstorage.index
      → Right (take_in m) (q ++ x ∷ []) (vs ++ m.item ∷ [])
  unfolding take_in swstorage_store_int32 swint32sum_add_pipe deref is_outside
  take_in-Right m q vs x h l d = record {
    base = h.base;
    base_in = h.base_in;
    allocated = length-set m.swstorage.storage m.swstorage.index m.item ∙ h.allocated;
    kept =
        store-Kept m.swstorage.storage m.swstorage.length h.base q vs m.swstorage.index m.item x
          h.kept h.base_in l h.allocated d;
    sum =
        sum-add_pipe (swstorage_store_int32 m item_address).0 (cell m.swstorage.index) m.item vs
          (get_or-set_self m.swstorage.storage m.swstorage.index m.item 0 (
            omega (
              arith,
              h.allocated,
              index_in m.swstorage.storage m.swstorage.length h.base q vs m.swstorage.index h.kept
                  h.base_in l,
            )))
          h.sum;
    sound = ground (
      arith,
      h.sound,
      length-set m.swstorage.storage m.swstorage.index m.item,
      h.allocated,
      index_in m.swstorage.storage m.swstorage.length h.base q vs m.swstorage.index h.kept h.base_in
          l,
    );
  }
