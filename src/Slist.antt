-- ===== src/Slist.antt =====
-- lib/lib_funcs.c, the singly linked lists `slist_t`, NULL being the empty list.
use ntrt.Prelude.{◌≡◌, refl, ap, ◌∙◌, List, [], ◌∷◌, ◌++◌}

module _ {ℓ} {A : Type ℓ} where
  -- `slist_append`: the loop goes to the last node, whose `next` is set.
  unfoldable pub slist_append : List A → A → List A
  slist_append [] item = item ∷ []
  slist_append (x ∷ xs) item = x ∷ slist_append xs item

  -- `slist_prepend`.
  unfoldable pub slist_prepend : List A → A → List A
  slist_prepend slist item = item ∷ slist

  -- The loop of `slist_cpy` from the list that the local `head` points to, which the source does not
  -- initialise.
  unfoldable pub slist_cpy_loop : List A → List A → List A
  unfolding slist_append
  slist_cpy_loop head [] = head
  slist_cpy_loop head (x ∷ actual) = slist_cpy_loop (slist_append head x) actual

  -- `slist_cpy`.
  unfoldable pub slist_cpy : List A → List A → List A
  unfolding slist_cpy_loop
  slist_cpy head [] = []
  slist_cpy head (x ∷ slist) = slist_cpy_loop head (x ∷ slist)

  pub slist_append_lem : (xs : List A) (x : A) → slist_append xs x ≡ xs ++ x ∷ []
  unfolding slist_append
  slist_append_lem [] x = refl
  slist_append_lem (y ∷ xs) x = ap (λ t. y ∷ t) (slist_append_lem xs x)

  pub append_nil : (xs : List A) → xs ++ [] ≡ xs
  append_nil [] = refl
  append_nil (x ∷ xs) = ap (λ t. x ∷ t) (append_nil xs)

  pub append_step : (xs : List A) (x : A) (ys : List A) → (xs ++ x ∷ []) ++ ys ≡ xs ++ x ∷ ys
  append_step [] x ys = refl
  append_step (y ∷ xs) x ys = ap (λ t. y ∷ t) (append_step xs x ys)

  slist_cpy_loop_lem : (head xs : List A) → slist_cpy_loop head xs ≡ head ++ xs
  unfolding slist_cpy_loop
  slist_cpy_loop_lem head [] = cc (append_nil head)
  slist_cpy_loop_lem head (x ∷ xs) =
      slist_cpy_loop_lem (slist_append head x) xs
      ∙ ap (λ h. h ++ xs) (slist_append_lem head x)
      ∙ append_step head x xs

  -- The copy has the items of the list, in their order, behind those that the uninitialised head
  -- happens to hold: it is a copy where that head is NULL.
  pub slist_cpy_lem :
      (head : List A) (x : A) (xs : List A) → slist_cpy head (x ∷ xs) ≡ head ++ x ∷ xs
  unfolding slist_cpy
  slist_cpy_lem head x xs = slist_cpy_loop_lem head (x ∷ xs)
