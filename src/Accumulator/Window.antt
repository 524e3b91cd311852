-- ===== src/Accumulator/Window.antt =====
-- The sums of an accumulator against the records that it holds and those ever pushed.
use ntrt.Prelude.{
  ℕ, ◌+◌, ◌%◌, ◌^◌, ◌≤◌, ◌<◌, ◌≡◌, refl, ap, ◌∙◌, sym, subst, some, List, [], ◌∷◌, ◌++◌, arith,
  length,
}
use ntrt.Prelude.Word.{add32, sub32}
use ntrt.Record.{Record}
use ntrt.Puffer
use ntrt.Puffer.{Puffer}
use ntrt.Puffer.Holds
use ntrt.Puffer.Holds.{Holds}
use ntrt.Accumulator.{Accumulator, drop_first, append_record, records_subtract, records_addition}
use ntrt.Accumulator.Sums.{
  item, sum_at, sum_at-append, length-add_items, length-sub_items, get_or-add_items,
  get_or-sub_items, add32_sum, sub32_sum,
}

-- Each of some records has at least `n` items.
abbrev pub Wide : ℕ → List Record → Type 0
Wide n [] = Unit
Wide n (r ∷ q) = (n ≤ length r.items) × Wide n q

pub Wide-append :
    (n : ℕ) (q : List Record) (r : Record) → Wide n q → n ≤ length r.items → Wide n (q ++ r ∷ [])
Wide-append n [] r h k = (k, tt)
Wide-append n (x ∷ q) r h k = (h.0, Wide-append n q r h.1 k)

-- The accumulator holds the records `q`, oldest first, and its sums are those of `q` and of all the
-- records ever pushed, modulo 2^32.
pub record Window (a : Accumulator) (q pushed : List Record) : Type 0 where
  pub puffer : Puffer Record
  pub kept : a.records ≡ some puffer
  pub holds : Holds puffer q
  pub result_wide : a.length ≤ length a.result.items
  pub total_wide : a.length ≤ length a.total.items
  pub wide : Wide a.length q
  pub result_sum : (i : ℕ) → i < a.length → item i a.result ≡ sum_at i q % 2 ^ 32
  pub total_sum : (i : ℕ) → i < a.length → item i a.total ≡ sum_at i pushed % 2 ^ 32

-- Reading the oldest record of a puffer takes it out of the window.
pub record Dropped (a : Accumulator) (p : Puffer Record) (x : Record) (q pushed : List Record)
    : Type 0 where
  pub next : Accumulator
  pub runs : drop_first a p ≡ some (x, next)
  pub same_length : next.length ≡ a.length
  pub window : Window next q pushed
  pub same_size : window.puffer.abs_length ≡ p.abs_length

sum_drop :
    (a : Accumulator) (x : Record) (q : List Record) (i : ℕ)
    → a.length ≤ length a.result.items
    → a.length ≤ length x.items
    → i < a.length
    → item i a.result ≡ (item i x + sum_at i q) % 2 ^ 32
    → item i (records_subtract a.result x a.length) ≡ sum_at i q % 2 ^ 32
unfolding records_subtract
sum_drop a x q i w v l e =
    get_or-sub_items a.length a.result.items x.items i w v l
    ∙ ap (λ s. sub32 s (item i x)) e
    ∙ sub32_sum (sum_at i q) (item i x)

pub drop_first_lem :
    (a : Accumulator) (x : Record) (q pushed : List Record) (w : Window a (x ∷ q) pushed)
    → Dropped a w.puffer x q pushed
unfolding drop_first records_subtract
drop_first_lem a x q pushed w =
    let r = Holds.read_lem w.puffer x q w.holds in
    record {
      next = record a {
        records = some (Puffer.read w.puffer).1;
        result = records_subtract a.result x a.length;
      };
      runs = rw (r.0, drop_first) refl;
      same_length = refl;
      window = record {
        puffer = (Puffer.read w.puffer).1;
        kept = refl;
        holds = r.1;
        result_wide =
            subst (λ n. a.length ≤ n) (sym (length-sub_items a.length a.result.items x.items))
              w.result_wide;
        total_wide = w.total_wide;
        wide = w.wide.1;
        result_sum = λ i l. sum_drop a x q i w.result_wide w.wide.0 l (w.result_sum i l);
        total_sum = w.total_sum;
      };
      same_size = Holds.abs_length-read w.puffer;
    }

sum_append :
    (s x : Record) (rs : List Record) (n i : ℕ)
    → n ≤ length s.items
    → n ≤ length x.items
    → i < n
    → item i s ≡ sum_at i rs % 2 ^ 32
    → item i (records_addition s x n) ≡ sum_at i (rs ++ x ∷ []) % 2 ^ 32
unfolding records_addition
sum_append s x rs n i w v l e =
    get_or-add_items n s.items x.items i w v l
    ∙ ap (λ t. add32 t (item i x)) e
    ∙ add32_sum (sum_at i rs) (item i x)
    ∙ ap (λ t. t % 2 ^ 32) (omega (arith, sum_at-append i rs (x ∷ [])))

-- Writing a record to a puffer with room puts it into the window.
pub record Appended (a : Accumulator) (p : Puffer Record) (r : Record) (q pushed : List Record)
    : Type 0 where
  pub next : Accumulator
  pub runs : append_record a r ≡ some next
  pub same_length : next.length ≡ a.length
  pub window : Window next (q ++ r ∷ []) (pushed ++ r ∷ [])
  pub same_size : window.puffer.abs_length ≡ p.abs_length

pub append_record_lem :
    (a : Accumulator) (r : Record) (q pushed : List Record) (w : Window a q pushed)
    → a.length ≤ length r.items
    → length q < w.puffer.abs_length
    → Appended a w.puffer r q pushed
unfolding append_record records_addition
append_record_lem a r q pushed w v room = record {
  next = record a {
    result = records_addition a.result r a.length;
    total = records_addition a.total r a.length;
    records = some (Puffer.write w.puffer r);
  };
  runs = rw w.kept refl;
  same_length = refl;
  window = record {
    puffer = Puffer.write w.puffer r;
    kept = refl;
    holds = Holds.write_lem w.puffer q r w.holds room;
    result_wide =
        subst (λ n. a.length ≤ n) (sym (length-add_items a.length a.result.items r.items))
          w.result_wide;
    total_wide =
        subst (λ n. a.length ≤ n) (sym (length-add_items a.length a.total.items r.items))
          w.total_wide;
    wide = Wide-append a.length q r w.wide v;
    result_sum = λ i l. sum_append a.result r q a.length i w.result_wide v l (w.result_sum i l);
    total_sum = λ i l. sum_append a.total r pushed a.length i w.total_wide v l (w.total_sum i l);
  };
  same_size = Holds.abs_length-write w.puffer r;
}
