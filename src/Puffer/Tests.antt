-- ===== src/Puffer/Tests.antt =====
-- The ring puffer on a small ring that wraps.
use ntrt.Prelude.{ℕ, ◌≡◌, refl, some, [], ◌∷◌, arith}
use ntrt.Puffer.{Puffer, ctor, write, read}
use ntrt.Puffer.Holds.{Holds, ctor_lem, write_lem, read_lem}

-- A ring of two slots after three writes and a read.
abbrev one_item : Puffer ℕ
one_item = write (ctor 2) 7

abbrev two_items : Puffer ℕ
two_items = write one_item 8

one_item-Holds : Holds one_item (7 ∷ [])
unfolding ctor
one_item-Holds = write_lem (ctor 2) [] 7 (ctor_lem 2 (omega arith)) (omega arith)

two_items-Holds : Holds two_items (7 ∷ 8 ∷ [])
unfolding ctor write
two_items-Holds = write_lem one_item (7 ∷ []) 8 one_item-Holds (omega arith)

-- The same, as a lemma of its own.
rest-Holds : Holds (read two_items).1 (8 ∷ [])
rest-Holds = (read_lem two_items 7 (8 ∷ []) two_items-Holds).1

write_example : Holds (write (read two_items).1 9) (8 ∷ 9 ∷ [])
unfolding ctor write read
write_example = write_lem (read two_items).1 (8 ∷ []) 9 rest-Holds (omega arith)

wrapped_run : (write (read two_items).1 9).items ≡ some 9 ∷ some 8 ∷ []
unfolding ctor write read
wrapped_run = refl
