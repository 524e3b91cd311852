-- ===== src/Recorder/Row.antt =====
-- What a row of the output is: the numbers of a record, separated by commas, and one newline.
use ntrt.Prelude.{
  ℕ, zero, suc, ◌/◌, ◌^◌, ◌-◌, ◌==◌, ◌≤◌, ◌≡◌, refl, sym, ap, ap₂, ◌∙◌, some, ◌||◌, ltb,
  if◌then◌else◌, ne→==, lt→ltb, List, [], ◌∷◌, ◌++◌, arith, length,
}
use ntrt.Prelude.Int.{ℤ, pos, negsuc}
use ntrt.Slist.{append_nil}
use ntrt.Recorder.{MxRecord}
use ntrt.Recorder.Output.{Cell, Mark, comma, newline, as_int, print_items, features_row}

abbrev pub take {ℓ} : {A : Type ℓ} → ℕ → List A → List A
take zero xs = []
take (suc n) [] = []
take (suc n) (x ∷ xs) = x ∷ take n xs

-- A uint32_t with its highest bit set is read as the int one below the negative of its complement.
unfoldable pub signed : ℕ → ℤ
signed n = if n / 2 ^ 31 == 0 then pos n else negsuc (2 ^ 32 - 1 - n)

as_int-signed : (n : ℕ) → as_int n ≡ signed n
unfolding as_int signed
as_int-signed n = ground arith

-- The numbers with a comma behind each but the last, and `end` behind the last.
unfoldable pub closed : Mark → List ℕ → List Cell
closed end [] = []
closed end (x ∷ []) = (signed x, end) ∷ []
closed end (x ∷ y ∷ xs) = (signed x, comma) ∷ closed end (y ∷ xs)

-- One line of a file.
unfoldable pub line : List ℕ → List Cell
line = closed newline

pub print_items_lem :
    (n : ℕ) (end : Mark) (items : List ℕ)
    → n ≤ length items
    → print_items n end items ≡ some (closed end (take n items))
unfolding print_items closed
print_items_lem zero end items h = refl
print_items_lem (suc n) end [] h = absurd (omega arith)
print_items_lem (suc zero) end (x ∷ items) h = rw (as_int-signed x) refl
print_items_lem (suc (suc n)) end (x ∷ []) h = absurd (omega arith)
print_items_lem (suc (suc n)) end (x ∷ y ∷ items) h =
    rw (print_items_lem (suc n) end (y ∷ items) (omega arith), as_int-signed x)
      (rw (ne→== (suc n) 0 (λ e. absurd (omega arith))) refl)

pub print_line :
    (n : ℕ) (items : List ℕ)
    → n ≤ length items
    → print_items n newline items ≡ some (line (take n items))
unfolding line
print_line n items h = print_items_lem n newline items h

closed-append :
    (end : Mark) (xs : List ℕ) (y : ℕ) (ys : List ℕ)
    → closed comma xs ++ closed end (y ∷ ys) ≡ closed end (xs ++ y ∷ ys)
unfolding closed
closed-append end [] y ys = refl
closed-append end (x ∷ []) y ys = refl
closed-append end (x ∷ x' ∷ xs) y ys =
    ap (λ t. (signed x, comma) ∷ t) (closed-append end (x' ∷ xs) y ys)

-- The marks that `_update_features_file` chooses join the three parts to one line.
closed_parts :
    (xs : List ℕ) (gn : ℕ) (gs : List ℕ) (vn : ℕ) (vs : List ℕ)
    → gn ≤ length gs
    → vn ≤ length vs
    → closed (if ltb 0 vn || ltb 0 gn then comma else newline) xs
        ++ closed (if ltb 0 vn then comma else newline) (take gn gs)
        ++ closed newline (take vn vs)
      ≡ closed newline (xs ++ take gn gs ++ take vn vs)
unfolding closed
closed_parts xs zero gs zero vs g v = cc (append_nil (closed newline xs), append_nil xs)
closed_parts xs zero gs (suc vn) [] g v = absurd (omega arith)
closed_parts xs zero gs (suc vn) (w ∷ vs) g v =
    rw (lt→ltb 0 (suc vn) (omega arith), append_nil (closed comma xs), append_nil xs)
      (closed-append newline xs w (take vn vs))
closed_parts xs (suc gn) [] vn vs g v = absurd (omega arith)
closed_parts xs (suc gn) (y ∷ gs) zero vs g v = rw (lt→ltb 0 (suc gn) (omega arith)) (
    append_nil (closed comma xs ++ closed newline (y ∷ take gn gs))
    ∙ closed-append newline xs y (take gn gs)
    ∙ ap (closed newline) (sym (append_nil (xs ++ y ∷ take gn gs))))
closed_parts xs (suc gn) (y ∷ gs) (suc vn) [] g v = absurd (omega arith)
closed_parts xs (suc gn) (y ∷ gs) (suc vn) (w ∷ vs) g v =
    ap₂ (λ a b. closed a xs ++ closed b (y ∷ take gn gs) ++ closed newline (w ∷ take vn vs))
      (rw (lt→ltb 0 (suc vn) (omega arith)) refl) (rw (lt→ltb 0 (suc vn) (omega arith)) refl)
    ∙ ap (λ t. t ++ closed newline (w ∷ take vn vs)) (closed-append comma xs y (take gn gs))
    ∙ closed-append newline (xs ++ y ∷ take gn gs) w (take vn vs)

-- The numbers of a record, in the order in which they are printed.
abbrev pub numbers : MxRecord → List ℕ
numbers m =
    take m.features_num m.features.items
    ++ take m.groupcounters_num m.groupcounters.items
    ++ take m.mapped_vars_num m.mapped_var_values

features_row-runs :
    (m : MxRecord) (fs gs vs : List Cell)
    → print_items m.features_num
        (if ltb 0 m.mapped_vars_num || ltb 0 m.groupcounters_num then comma else newline)
        m.features.items
      ≡ some fs
    → print_items m.groupcounters_num
        (if ltb 0 m.mapped_vars_num then comma else newline)
        m.groupcounters.items
      ≡ some gs
    → print_items m.mapped_vars_num newline m.mapped_var_values ≡ some vs
    → features_row m ≡ some (fs ++ gs ++ vs)
unfolding features_row
features_row-runs m fs gs vs e f g = cc

-- Where the numbers of a record are within its arrays, its row is the features, the group counters and
-- the mapped variables, each read as an int, with a comma between any two and a newline behind the
-- last, whichever of the three parts are empty; where all three are, nothing is printed.
pub features_row_lem :
    (m : MxRecord)
    → m.features_num ≤ length m.features.items
    → m.groupcounters_num ≤ length m.groupcounters.items
    → m.mapped_vars_num ≤ length m.mapped_var_values
    → features_row m ≡ some (line (numbers m))
unfolding line
features_row_lem m f g v =
    let more : Mark =
      if ltb 0 m.mapped_vars_num || ltb 0 m.groupcounters_num then comma else newline in
    features_row-runs m (closed more (take m.features_num m.features.items))
      (closed (if ltb 0 m.mapped_vars_num then comma else newline)
        (take m.groupcounters_num m.groupcounters.items))
      (closed newline (take m.mapped_vars_num m.mapped_var_values))
      (print_items_lem m.features_num more m.features.items f)
      (print_items_lem m.groupcounters_num (if ltb 0 m.mapped_vars_num then comma else newline)
        m.groupcounters.items g)
      (print_items_lem m.mapped_vars_num newline m.mapped_var_values v)
    ∙ ap some (
        closed_parts (take m.features_num m.features.items) m.groupcounters_num
          m.groupcounters.items m.mapped_vars_num m.mapped_var_values g v)
