-- ===== src/Puffer/Holds.antt =====
-- A puffer against the queue of the items that it holds, oldest first.
use ntrt.Prelude.{
  ℕ, suc, ◌+◌, ◌-◌, ◌≤◌, ◌<◌, ◌≡◌, ◌≢◌, refl, ap, ◌∙◌, ap₂, ◌↔◌, sym, subst, ltb→lt, none, some,
  List, [], ◌∷◌, ◌++◌, map, true, false, arith, leb, if◌then◌else◌, length, get_or, set, get_elem?,
  length-set, length-replicate, length-append, get_or-set_self, get_or-set_ne, get_elem?-append_end,
  get_elem?-append_left, ltb, Bool-cases, inl, inr,
}
use ntrt.Puffer.{
  Puffer, ctor, write, read, peek_first, read_capacity, write_capacity, is_full, is_empty,
  clear_loop, clear,
}

-- The index `i` of a ring of `cap` slots, at most one turn ahead.
abbrev pub wrap : ℕ → ℕ → ℕ
wrap cap i = if leb cap i then i - cap else i

-- Two of the first `cap` steps from one start reach different slots.
wrap_ne :
    (size start n k : ℕ)
    → start < size
    → n < size
    → k < n
    → wrap size (start + n) ≢ wrap size (start + k)
wrap_ne size start n k h l m e = ground arith

wrap-lt : (size start n : ℕ) → start < size → n < size → wrap size (start + n) < size
wrap-lt size start n h l = ground arith

pub wrap_next :
    (size start k : ℕ)
    → start < size
    → k < size
    → wrap size ((if leb size (start + 1) then 0 else start + 1) + k) ≡ wrap size (start + suc k)
wrap_next size start k h l = ground arith

pub start_ne : (size start k : ℕ) → start < size → suc k < size → start ≢ wrap size (start + suc k)
start_ne size start k h l e = ground arith

pub wrap_zero : (size start : ℕ) → start < size → wrap size (start + 0) ≡ start
wrap_zero size start h = ground arith

module _ {ℓ} {A : Type ℓ} where
  -- The puffer is in order, and its slots from `start` on are those of the queue.
  pub record Holds (p : Puffer A) (q : List A) : Type ℓ where
    pub allocated : length p.items ≡ p.abs_length
    pub start_in : p.start < p.abs_length
    pub counted : p.count ≡ length q
    pub fits : length q ≤ p.abs_length
    pub end_at : p.end ≡ wrap p.abs_length (p.start + length q)
    pub cells :
        (k : ℕ)
        → k < length q
        → get_or p.items (wrap p.abs_length (p.start + k)) none ≡ get_elem? q k

  pub ctor_lem : (size : ℕ) → 0 < size → Holds (ctor {A = A} size) []
  unfolding ctor
  ctor_lem size h = record {
    allocated = length-replicate size none;
    start_in = h;
    counted = refl;
    fits = omega arith;
    end_at = ground arith;
    cells = λ k l. absurd (omega arith);
  }

  write_cell :
      (p : Puffer A) (q : List A) (x : A) (k : ℕ)
      → Holds p q
      → length q < p.abs_length
      → k < length q + 1
      → get_or (set p.items p.end (some x)) (wrap p.abs_length (p.start + k)) none
        ≡ get_elem? (q ++ x ∷ []) k
  write_cell p q x k h room l = elim (Bool-cases (ltb k (length q))) [
    | inl old ↦
        get_or-set_ne p.items p.end (wrap p.abs_length (p.start + k)) (some x) none (λ e.
          wrap_ne p.abs_length p.start (length q) k h.start_in room (ltb→lt k (length q) old)
            (sym h.end_at ∙ e))
        ∙ h.cells k (ltb→lt k (length q) old)
        ∙ sym (get_elem?-append_left q (x ∷ []) k (ltb→lt k (length q) old))
    | inr new ↦
        let last : k ≡ length q = ground arith in
        ap (λ j. get_or (set p.items p.end (some x)) j none)
          (ap (λ j. wrap p.abs_length (p.start + j)) last ∙ sym h.end_at)
        ∙ get_or-set_self p.items p.end (some x) none
            (ground (arith, wrap-lt p.abs_length p.start (length q)))
        ∙ sym (get_elem?-append_end q x k last)
  ]

  -- `datapuffer_write` appends, where there is room.
  pub write_lem :
      (p : Puffer A) (q : List A) (x : A)
      → Holds p q
      → length q < p.abs_length
      → Holds (write p x) (q ++ x ∷ [])
  unfolding write
  write_lem p q x h room = record {
    allocated = length-set p.items p.end (some x) ∙ h.allocated;
    start_in = h.start_in;
    counted = ground (arith, length-append q (x ∷ []));
    fits = ground (arith, length-append q (x ∷ []));
    end_at = ground (arith, length-append q (x ∷ []));
    cells = λ k l. write_cell p q x k h room (omega (arith, length-append q (x ∷ [])));
  }

  read_cell :
      (p : Puffer A) (x : A) (q : List A) (k : ℕ)
      → Holds p (x ∷ q)
      → k < length q
      → get_or
          (set p.items p.start none)
          (wrap p.abs_length ((if leb p.abs_length (p.start + 1) then 0 else p.start + 1) + k))
          none
        ≡ get_elem? q k
  read_cell p x q k h l = rw (wrap_next p.abs_length p.start k h.start_in (omega (arith, h.fits))) (
      get_or-set_ne p.items p.start (wrap p.abs_length (p.start + suc k)) none none
        (λ e. start_ne p.abs_length p.start k h.start_in (omega (arith, h.fits)) e)
      ∙ h.cells (suc k) (omega arith))

  -- `datapuffer_read` gives the oldest item, and leaves the rest.
  pub read_lem :
      (p : Puffer A) (x : A) (q : List A)
      → Holds p (x ∷ q)
      → ((read p).0 ≡ some x) × Holds (read p).1 q
  unfolding read
  read_lem p x q h = (
    ap (λ j. get_or p.items j none) (sym (wrap_zero p.abs_length p.start h.start_in))
        ∙ h.cells 0 (omega arith),
    record {
      allocated = length-set p.items p.start none ∙ h.allocated;
      start_in = ground arith;
      counted = omega arith;
      fits = omega arith;
      end_at = ground arith;
      cells = λ k l. read_cell p x q k h l;
    },
  )

  pub abs_length-read : (p : Puffer A) → (read p).1.abs_length ≡ p.abs_length
  unfolding read
  abs_length-read p = refl

  pub abs_length-write : (p : Puffer A) (x : A) → (write p x).abs_length ≡ p.abs_length
  unfolding write
  abs_length-write p x = refl

  -- `datapuffer_peek_first` gives the oldest item.
  pub peek_first_lem : (p : Puffer A) (x : A) (q : List A) → Holds p (x ∷ q) → peek_first p ≡ some x
  unfolding peek_first
  peek_first_lem p x q h =
      ap (λ j. get_or p.items j none) (sym (wrap_zero p.abs_length p.start h.start_in))
      ∙ h.cells 0 (omega arith)

  pub is_empty_lem : (p : Puffer A) (q : List A) → Holds p q → (is_empty p ≡ true) ↔ (length q ≡ 0)
  unfolding is_empty
  is_empty_lem p q h = ground arith

  pub is_full_lem :
      (p : Puffer A) (q : List A) → Holds p q → (is_full p ≡ true) ↔ (length q ≡ p.abs_length)
  unfolding is_full
  is_full_lem p q h = ground arith

  pub not_full :
      (p : Puffer A) (q : List A) → Holds p q → length q < p.abs_length → is_full p ≡ false
  unfolding is_full
  not_full p q h l = ground arith

  pub has_room :
      (p : Puffer A) (q : List A) → Holds p q → is_full p ≡ false → length q < p.abs_length
  unfolding is_full
  has_room p q h e = ground (arith, h.fits)

  -- The capacities that a puffer reports.
  pub capacity_lem :
      (p : Puffer A) (q : List A)
      → Holds p q
      → (read_capacity p ≡ length q) × (read_capacity p + write_capacity p ≡ p.abs_length)
  unfolding read_capacity write_capacity
  capacity_lem p q h = ground arith

  clear_loop_lem :
      (q : List A) (p : Puffer A)
      → Holds p q
      → ((clear_loop (length q) p).0 ≡ map some q) × Holds (clear_loop (length q) p).1 []
  unfolding clear_loop
  clear_loop_lem [] p h = (refl, h)
  clear_loop_lem (x ∷ q) p h =
      let r = read_lem p x q h in
      let rest = clear_loop_lem q (read p).1 r.1 in (ap₂ ◌∷◌ r.0 rest.0, rest.1)

  -- `datapuffer_clear` hands over every item, oldest first, and leaves the puffer empty.
  pub clear_lem :
      (p : Puffer A) (q : List A) → Holds p q → ((clear p).0 ≡ map some q) × Holds (clear p).1 []
  unfolding clear
  clear_lem p q h =
      subst (λ n. ((clear_loop n p).0 ≡ map some q) × Holds (clear_loop n p).1 []) (sym h.counted)
        (clear_loop_lem q p h)
