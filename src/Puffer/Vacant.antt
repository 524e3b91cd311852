-- ===== src/Puffer/Vacant.antt =====
-- The slots of a puffer outside its queue are NULL, as `datapuffer_peek_first` relies on.
use ntrt.Prelude.{
  ℕ, suc, ◌+◌, ◌≤◌, ◌<◌, ◌≡◌, ◌≢◌, ap, ◌∙◌, sym, none, some, List, [], ◌∷◌, ◌++◌, length-append,
  arith, length, get_or, set, get_or-set_self, get_or-set_ne, get_or-replicate_same, ltb,
  Bool-cases, inl, inr, ltb→lt,
}
use ntrt.Puffer.{Puffer, ctor, write, read, peek_first}
use ntrt.Puffer.Holds.{Holds, wrap, wrap_next, wrap_zero, start_ne}

wrap_distinct :
    (size start j k : ℕ)
    → start < size
    → j < size
    → k < size
    → k ≢ j
    → wrap size (start + j) ≢ wrap size (start + k)
wrap_distinct size start j k h l m n e = ground arith

wrap_last :
    (size start k : ℕ) → start < size → k < size → size ≤ suc k → wrap size (start + suc k) ≡ start
wrap_last size start k h l m = ground arith

module _ {ℓ} {A : Type ℓ} where
  -- From the `n`-th slot on, counted from the oldest item, the puffer has none.
  pub record Vacant (p : Puffer A) (n : ℕ) : Type ℓ where
    pub free :
        (k : ℕ)
        → n ≤ k
        → k < p.abs_length
        → get_or p.items (wrap p.abs_length (p.start + k)) none ≡ none

  pub ctor-Vacant : (size : ℕ) → Vacant (ctor {A = A} size) 0
  unfolding ctor
  ctor-Vacant size = record { free = λ k l m. get_or-replicate_same size none (wrap size (0 + k)) }

  pub write-Vacant :
      (p : Puffer A) (q : List A) (x : A)
      → Holds p q
      → length q < p.abs_length
      → Vacant p (length q)
      → Vacant (write p x) (length (q ++ x ∷ []))
  unfolding write
  write-Vacant p q x h room v = record {
    free = λ k l m.
        get_or-set_ne p.items p.end (wrap p.abs_length (p.start + k)) (some x) none (λ e.
          wrap_distinct p.abs_length p.start (length q) k h.start_in room m
            (λ i. omega (arith, length-append q (x ∷ []))) (sym h.end_at ∙ e))
        ∙ v.free k (omega (arith, length-append q (x ∷ []))) m;
  }

  pub read-Vacant :
      (p : Puffer A) (x : A) (q : List A)
      → Holds p (x ∷ q)
      → Vacant p (suc (length q))
      → Vacant (read p).1 (length q)
  unfolding read
  read-Vacant p x q h v = record {
    free = λ k l m.
        rw (wrap_next p.abs_length p.start k h.start_in m)
          (elim (Bool-cases (ltb (suc k) p.abs_length)) [
            | inl within ↦
                get_or-set_ne p.items p.start (wrap p.abs_length (p.start + suc k)) none none (λ e.
                  start_ne p.abs_length p.start k h.start_in (ltb→lt (suc k) p.abs_length within) e)
                ∙ v.free (suc k) (omega arith) (ltb→lt (suc k) p.abs_length within)
            | inr last ↦
                ap (λ j. get_or (set p.items p.start none) j none)
                  (wrap_last p.abs_length p.start k h.start_in m (ground arith))
                ∙ get_or-set_self p.items p.start none none (omega (arith, h.allocated, h.start_in))
          ]);
  }

  pub peek_first-empty : (p : Puffer A) → Holds p [] → Vacant p 0 → peek_first p ≡ none
  unfolding peek_first
  peek_first-empty p h v =
      ap (λ j. get_or p.items j none) (sym (wrap_zero p.abs_length p.start h.start_in))
      ∙ v.free 0 (omega arith) (omega (arith, h.start_in))
