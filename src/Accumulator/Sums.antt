-- ===== src/Accumulator/Sums.antt =====
-- Sums of records, item by item, modulo 2^32.
use ntrt.Prelude.{
  ℕ, zero, suc, ◌+◌, ◌%◌, ◌^◌, ◌≤◌, ◌<◌, ◌≡◌, refl, List, [], ◌∷◌, ◌++◌, arith, length, get_or, ap,
}
use ntrt.Prelude.Word.{add32, sub32}
use ntrt.Record.{Record}
use ntrt.Accumulator.{add_items, sub_items}

abbrev pub item : ℕ → Record → ℕ
item i r = get_or r.items i 0

-- The sum of item `i` over some records.
abbrev pub sum_at : ℕ → List Record → ℕ
sum_at i [] = 0
sum_at i (r ∷ rs) = item i r + sum_at i rs

pub sum_at-append : (i : ℕ) (xs ys : List Record) → sum_at i (xs ++ ys) ≡ sum_at i xs + sum_at i ys
sum_at-append i [] ys = omega arith
sum_at-append i (x ∷ xs) ys = omega (arith, sum_at-append i xs ys)

pub length-add_items : (n : ℕ) (xs ys : List ℕ) → length (add_items n xs ys) ≡ length xs
unfolding add_items
length-add_items zero xs ys = refl
length-add_items (suc n) [] ys = refl
length-add_items (suc n) (x ∷ xs) [] = refl
length-add_items (suc n) (x ∷ xs) (y ∷ ys) = ap suc (length-add_items n xs ys)

pub length-sub_items : (n : ℕ) (xs ys : List ℕ) → length (sub_items n xs ys) ≡ length xs
unfolding sub_items
length-sub_items zero xs ys = refl
length-sub_items (suc n) [] ys = refl
length-sub_items (suc n) (x ∷ xs) [] = refl
length-sub_items (suc n) (x ∷ xs) (y ∷ ys) = ap suc (length-sub_items n xs ys)

-- The loops change each cell below `n` by the other's cell.
pub get_or-add_items :
    (n : ℕ) (xs ys : List ℕ) (i : ℕ)
    → n ≤ length xs
    → n ≤ length ys
    → i < n
    → get_or (add_items n xs ys) i 0 ≡ add32 (get_or xs i 0) (get_or ys i 0)
unfolding add_items
get_or-add_items zero xs ys i h k l = absurd (omega arith)
get_or-add_items (suc n) [] ys i h k l = absurd (omega arith)
get_or-add_items (suc n) (x ∷ xs) [] i h k l = absurd (omega arith)
get_or-add_items (suc n) (x ∷ xs) (y ∷ ys) zero h k l = refl
get_or-add_items (suc n) (x ∷ xs) (y ∷ ys) (suc i) h k l =
    get_or-add_items n xs ys i (omega arith) (omega arith) (omega arith)

pub get_or-sub_items :
    (n : ℕ) (xs ys : List ℕ) (i : ℕ)
    → n ≤ length xs
    → n ≤ length ys
    → i < n
    → get_or (sub_items n xs ys) i 0 ≡ sub32 (get_or xs i 0) (get_or ys i 0)
unfolding sub_items
get_or-sub_items zero xs ys i h k l = absurd (omega arith)
get_or-sub_items (suc n) [] ys i h k l = absurd (omega arith)
get_or-sub_items (suc n) (x ∷ xs) [] i h k l = absurd (omega arith)
get_or-sub_items (suc n) (x ∷ xs) (y ∷ ys) zero h k l = refl
get_or-sub_items (suc n) (x ∷ xs) (y ∷ ys) (suc i) h k l =
    get_or-sub_items n xs ys i (omega arith) (omega arith) (omega arith)

-- A sum modulo 2^32 grows and shrinks by an item as the cell does.
pub add32_sum : (s x : ℕ) → add32 (s % 2 ^ 32) x ≡ (s + x) % 2 ^ 32
unfolding add32
add32_sum s x = omega arith

pub sub32_sum : (s x : ℕ) → sub32 ((x + s) % 2 ^ 32) x ≡ s % 2 ^ 32
unfolding sub32
sub32_sum s x = omega arith
