-- ===== src/Dmap/Tests.antt =====
-- The tables at small examples.
use ntrt.Prelude.{ℕ, ◌≡◌, refl, true, false, Option, none, some, List, [], ◌∷◌, ◌==◌}
use ntrt.Dmap.{
  Row, leaked, destroyed, added_at, visit_all, add_row, table_deinit, rem_item, row_dtor, itr_table,
}
use ntrt.Dmap.Walk.{entries, visit_all_lem}
use ntrt.Dmap.Rows.{AddOutcome, add_row_lem}
use ntrt.Dmap.Removal.{
  disposals, table_deinit_lem, first_other, disposal_of, rem_item_lem, rem_item_misses,
}

abbrev seven : Row ℕ
seven = record { item = some 7; has_dtor = true }

abbrev nine : Row ℕ
nine = record { item = some 9; has_dtor = false }

-- A table of four rows, two of which are free.
abbrev table : List (Option (Row ℕ))
table = some seven ∷ none ∷ some nine ∷ none ∷ []

visit_all_run : visit_all table ≡ (0, seven) ∷ (2, nine) ∷ []
unfolding visit_all
visit_all_run = refl

visit_all_example : visit_all table ≡ entries 0 table
visit_all_example = visit_all_lem table

add_row_example : AddOutcome nine table (add_row none table (some nine))
add_row_example = add_row_lem none table nine

add_row_run :
    add_row none table (some nine) ≡ (added_at 1, some seven ∷ some nine ∷ some nine ∷ none ∷ [])
unfolding add_row
add_row_run = refl

table_deinit_example :
    ((table_deinit table).0 ≡ some (destroyed 7) ∷ some (leaked 9) ∷ [])
    × (entries 0 (table_deinit table).1 ≡ [])
unfolding disposals row_dtor
table_deinit_example = table_deinit_lem table

rem_item_example :
    rem_item ◌==◌ table 7 ≡ (disposal_of (first_other ◌==◌ 7 (entries 0 table)), table)
rem_item_example = rem_item_lem ◌==◌ table 7

rem_item_run : (rem_item ◌==◌ table 9).0 ≡ some (destroyed 7)
unfolding rem_item itr_table row_dtor
rem_item_run = refl

rem_item_misses_example : (9 == 7) ≡ false
rem_item_misses_example = rem_item_misses ◌==◌ table 9 7 rem_item_run
