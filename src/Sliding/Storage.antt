-- ===== src/Sliding/Storage.antt =====
-- The storage of a window keeps the numbers that are tracked: a cell is written again only when its
-- number has left.
use ntrt.Prelude.{
  ℕ, suc, ◌+◌, ◌<◌, ◌≡◌, ◌∙◌, refl, sym, ap, List, [], ◌∷◌, ◌++◌, ◌==◌, if◌then◌else◌, arith,
  length, get_or, set, get_or-set_self, get_or-set_ne,
}
use ntrt.Puffer.Holds.{wrap, wrap_zero, start_ne}
use ntrt.Sliding.{Item}
use ntrt.Sliding.Int32.{Address, cell}

-- The index after `i`, as the store function counts.
abbrev pub next_cell : ℕ → ℕ → ℕ
next_cell len i = if i + 1 == len then 0 else i + 1

pub next_cell-lt : (len i : ℕ) → i < len → next_cell len i < len
next_cell-lt len i h = ground arith

wrap-next_cell :
    (len i k : ℕ) → i < len → k < len → wrap len (next_cell len i + k) ≡ wrap len (i + suc k)
wrap-next_cell len i k h l = ground arith

-- The items point to consecutive cells from `b` on, up to the index `i` that is written next, and
-- these have the values.
unfoldable pub Kept : List ℕ → ℕ → ℕ → List (Item Address) → List ℕ → ℕ → Type 0
Kept cells len b [] [] i = b ≡ i
Kept cells len b (x ∷ q) (v ∷ vs) i =
    (x.datum ≡ cell b) × (get_or cells b 0 ≡ v) × Kept cells len (next_cell len b) q vs i
Kept cells len b _ _ i = ⊥

-- The index is as many cells ahead as there are items.
index_ahead :
    (cells : List ℕ) (len b : ℕ) (q : List (Item Address)) (vs : List ℕ) (i : ℕ)
    → Kept cells len b q vs i
    → b < len
    → length q < len
    → i ≡ wrap len (b + length q)
unfolding Kept
index_ahead cells len b [] [] i k h l = sym (wrap_zero len b h ∙ k)
index_ahead cells len b [] (v ∷ vs) i k h l = absurd k
index_ahead cells len b (x ∷ q) [] i k h l = absurd k
index_ahead cells len b (x ∷ q) (v ∷ vs) i k h l =
    index_ahead cells len (next_cell len b) q vs i k.2 (next_cell-lt len b h) (omega arith)
    ∙ wrap-next_cell len b (length q) h (omega arith)

wrapped_in : (len b n : ℕ) → b < len → n < len → wrap len (b + n) < len
wrapped_in len b n h l = ground arith

pub index_in :
    (cells : List ℕ) (len b : ℕ) (q : List (Item Address)) (vs : List ℕ) (i : ℕ)
    → Kept cells len b q vs i
    → b < len
    → length q < len
    → i < len
index_in cells len b q vs i k h l =
    omega (arith, index_ahead cells len b q vs i k h l, wrapped_in len b (length q) h l)

pub as_many_Kept :
    (cells : List ℕ) (len b : ℕ) (q : List (Item Address)) (vs : List ℕ) (i : ℕ)
    → Kept cells len b q vs i
    → length q ≡ length vs
unfolding Kept
as_many_Kept cells len b [] [] i k = refl
as_many_Kept cells len b [] (v ∷ vs) i k = absurd k
as_many_Kept cells len b (x ∷ q) [] i k = absurd k
as_many_Kept cells len b (x ∷ q) (v ∷ vs) i k =
    ap suc (as_many_Kept cells len (next_cell len b) q vs i k.2)

store_at :
    (cells : List ℕ) (len b : ℕ) (q : List (Item Address)) (vs : List ℕ) (i v : ℕ)
    (x : Item Address)
    → Kept cells len b q vs i
    → b < len
    → length q < len
    → i ≡ wrap len (b + length q)
    → length cells ≡ len
    → x.datum ≡ cell i
    → Kept (set cells i v) len b (q ++ x ∷ []) (vs ++ v ∷ []) (next_cell len i)
unfolding Kept
store_at cells len b [] [] i v x k h l e c d = (
  d ∙ ap cell (sym k),
  ap (λ j. get_or (set cells i v) j 0) k ∙ get_or-set_self cells i v 0 (omega arith),
  ap (next_cell len) k,
)
store_at cells len b [] (u ∷ vs) i v x k h l e c d = absurd k
store_at cells len b (y ∷ q) [] i v x k h l e c d = absurd k
store_at cells len b (y ∷ q) (u ∷ vs) i v x k h l e c d = (
  k.0,
  get_or-set_ne cells i b v 0 (λ f. start_ne len b (length q) h l (sym f ∙ e)) ∙ k.1,
  store_at cells len (next_cell len b) q vs i v x k.2 (next_cell-lt len b h) (omega arith)
      (e ∙ sym (wrap-next_cell len b (length q) h (omega arith))) c d,
)

-- A number stored behind the tracked ones leaves these as they are.
pub store-Kept :
    (cells : List ℕ) (len b : ℕ) (q : List (Item Address)) (vs : List ℕ) (i v : ℕ)
    (x : Item Address)
    → Kept cells len b q vs i
    → b < len
    → length q < len
    → length cells ≡ len
    → x.datum ≡ cell i
    → Kept (set cells i v) len b (q ++ x ∷ []) (vs ++ v ∷ []) (next_cell len i)
store-Kept cells len b q vs i v x k h l c d =
    store_at cells len b q vs i v x k h l (index_ahead cells len b q vs i k h l) c d
