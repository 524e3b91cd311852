-- ===== src/Evaluator/Recycle.antt =====
-- The recycle puffer only ever supplies zero records.
use ntrt.Prelude.{
  ℕ, zero, suc, ◌≡◌, ◌⊎◌, ◌∙◌, refl, ap, sym, subst, true, false, none, some, [], ◌∷◌, ◌++◌,
  replicate, arith, Bool-cases, inl, inr,
}
use ntrt.Record.{Record, zero_record}
use ntrt.Puffer
use ntrt.Puffer.{Puffer}
use ntrt.Puffer.Holds
use ntrt.Puffer.Holds.{Holds}
use ntrt.Evaluator.{clean_record, recycle_receiver, recycle_supplier}

-- The puffer holds `n` records, all zero.
abbrev pub Stocked : Puffer Record → ℕ → Type 0
Stocked p n = Holds p (replicate n zero_record)

replicate_snoc :
    (n : ℕ) → replicate n zero_record ++ zero_record ∷ [] ≡ replicate (suc n) zero_record
replicate_snoc zero = refl
replicate_snoc (suc n) = ap (λ t. zero_record ∷ t) (replicate_snoc n)

-- A record that comes back is cleaned and kept, or destroyed where the puffer is full.
pub record Returned (p : Puffer Record) (r : Record) (n : ℕ) : Type 0 where
  pub count : ℕ
  pub stocked : Stocked (recycle_receiver p r).1 count
  pub fate :
      ((recycle_receiver p r).0 ≡ none) × (count ≡ suc n)
      ⊎ ((recycle_receiver p r).0 ≡ some r) × (count ≡ n)

return_full :
    (p : Puffer Record) (r : Record) → Puffer.is_full p ≡ true → recycle_receiver p r ≡ (some r, p)
unfolding recycle_receiver
return_full p r e = cc

return_room :
    (p : Puffer Record) (r : Record)
    → Puffer.is_full p ≡ false
    → recycle_receiver p r ≡ (none, Puffer.write p zero_record)
unfolding recycle_receiver clean_record
return_room p r e = cc

pub recycle_receiver_lem : (p : Puffer Record) (r : Record) (n : ℕ) → Stocked p n → Returned p r n
recycle_receiver_lem p r n h = elim (Bool-cases (Puffer.is_full p)) [
  | inl full ↦
      let e = return_full p r full in
      record {
        count = n;
        stocked = subst (λ t. Stocked t n) (sym (ap (λ t. t.1) e)) h;
        fate = inr (ap (λ t. t.0) e, refl);
      }
  | inr room ↦
      let e = return_room p r room in
      record {
        count = suc n;
        stocked =
            subst (λ t. Stocked t (suc n)) (sym (ap (λ t. t.1) e))
              (subst (λ q. Holds (Puffer.write p zero_record) q) (replicate_snoc n)
                (Holds.write_lem p (replicate n zero_record) zero_record h
                  (Holds.has_room p (replicate n zero_record) h room)));
        fate = inl (ap (λ t. t.0) e, refl);
      }
]

-- A supply is a zero record, and the puffer stays stocked with zero records.
pub record Supplied (p : Puffer Record) (n : ℕ) : Type 0 where
  pub zeroed : (recycle_supplier p).0 ≡ some zero_record
  pub count : ℕ
  pub stocked : Stocked (recycle_supplier p).1 count

supply_empty :
    (p : Puffer Record) → Puffer.is_empty p ≡ true → recycle_supplier p ≡ (some zero_record, p)
unfolding recycle_supplier
supply_empty p e = cc

supply_read : (p : Puffer Record) → Puffer.is_empty p ≡ false → recycle_supplier p ≡ Puffer.read p
unfolding recycle_supplier
supply_read p e = cc

pub recycle_supplier_lem : (p : Puffer Record) (n : ℕ) → Stocked p n → Supplied p n
recycle_supplier_lem p zero h =
    let e = supply_empty p ((Holds.is_empty_lem p [] h).1 refl) in
    record {
      zeroed = ap (λ t. t.0) e;
      count = 0;
      stocked = subst (λ t. Stocked t 0) (sym (ap (λ t. t.1) e)) h;
    }
recycle_supplier_lem p (suc n) h =
    let e =
      supply_read p
        (ground (arith, Holds.is_empty_lem p (zero_record ∷ replicate n zero_record) h)) in
    let r = Holds.read_lem p zero_record (replicate n zero_record) h in
    record {
      zeroed = ap (λ t. t.0) e ∙ r.0;
      count = n;
      stocked = subst (λ t. Stocked t n) (sym (ap (λ t. t.1) e)) r.1;
    }
