-- ===== src/Group/Timeout.antt =====
-- `_flows_obsolate_and_get`: the flows that it forgets, and the count that it gives.
use ntrt.Prelude.{
  ℕ, suc, ◌+◌, ◌%◌, ◌^◌, ◌≡◌, refl, ap, ◌∙◌, sym, Option, none, some, List, [], ◌∷◌, ◌==◌,
  if◌then◌else◌, arith, length,
}
use ntrt.Prelude.Word.{sub32}
use ntrt.Prelude.Int.{ℤ}
use ntrt.Clock.{Mtime}
use ntrt.Group.{Prototype, Flow, Groupcounter, flow_obsolator, flows_obsolate_and_get}
use ntrt.Group.Activity.{activity, Distinct, IsValid, is_young}

-- The index of the first entry of a port.
abbrev pub place : List Flow → ℕ → ℕ
place [] port = 0
place (f ∷ fs) port = if f.portnum == port then 0 else suc (place fs port)

module _ (timeout : ℤ) (now : ℕ → Mtime) where
  -- The time of a port where its entry, seen at reading `k`, is young.
  abbrev pub unless_old : ℕ → Option Mtime → Option Mtime
  unless_old k none = none
  unless_old k (some t) = if is_young timeout (now k) t then some t else none

  counter_drop : (m n : ℕ) → sub32 ((m + suc n) % 2 ^ 32) 1 ≡ (m + n) % 2 ^ 32
  unfolding sub32
  counter_drop m n = omega arith

  -- The counter goes down with the list.
  obsolator_counter :
      (fs : List Flow) (k m c : ℕ)
      → c ≡ (m + length fs) % 2 ^ 32
      → (flow_obsolator timeout now k fs c).1
        ≡ (m + length (flow_obsolator timeout now k fs c).0) % 2 ^ 32
  unfolding flow_obsolator
  obsolator_counter [] k m c e = e
  obsolator_counter (f ∷ fs) k m c e =
      let young = obsolator_counter fs (k + 1) (m + 1) c (omega arith) in
      let old =
        obsolator_counter fs (k + 1) m (sub32 c 1)
          (ap (λ x. sub32 x 1) e ∙ counter_drop m (length fs)) in
      ground arith

  obsolator_activity :
      (fs : List Flow) (k c port : ℕ)
      → Distinct fs
      → activity (flow_obsolator timeout now k fs c).0 port
        ≡ unless_old (k + place fs port) (activity fs port)
  unfolding flow_obsolator
  obsolator_activity [] k c port d = refl
  obsolator_activity (f ∷ fs) k c port d = ground (
    arith,
    obsolator_activity fs (k + 1) c port d.1,
    obsolator_activity fs (k + 1) (sub32 c 1) port d.1,
  )

  obsolator-Distinct :
      (fs : List Flow) (k c : ℕ) → Distinct fs → Distinct (flow_obsolator timeout now k fs c).0
  unfolding flow_obsolator
  obsolator-Distinct [] k c d = tt
  obsolator-Distinct (f ∷ fs) k c d =
      let young = obsolator-Distinct fs (k + 1) c d.1 in
      let old = obsolator-Distinct fs (k + 1) (sub32 c 1) d.1 in
      let none_left = obsolator_activity fs (k + 1) c f.portnum d.1 in ground arith

-- What a reading of the counter gives and leaves.
pub record Reads (now : ℕ → Mtime) (g : Groupcounter) (port : ℕ) : Type 0 where
  pub count :
      (flows_obsolate_and_get now g).0 ≡ length (flows_obsolate_and_get now g).1.flows % 2 ^ 32
  pub valid : IsValid (flows_obsolate_and_get now g).1
  pub active :
      activity (flows_obsolate_and_get now g).1.flows port
      ≡ unless_old g.timeout_treshold now (place g.flows port) (activity g.flows port)

zero_plus : (n : ℕ) → 0 + n ≡ n
zero_plus n = omega arith

read_count :
    (now : ℕ → Mtime) (t : ℤ) (f : Flow) (fs : List Flow) (c : ℕ)
    → c ≡ length (f ∷ fs) % 2 ^ 32
    → (flow_obsolator t now 0 (f ∷ fs) c).1 ≡ length (flow_obsolator t now 0 (f ∷ fs) c).0 % 2 ^ 32
read_count now t f fs c e =
    obsolator_counter t now (f ∷ fs) 0 0 c
      (e ∙ ap (λ n. n % 2 ^ 32) (sym (zero_plus (length (f ∷ fs)))))
    ∙ ap (λ n. n % 2 ^ 32) (zero_plus (length (flow_obsolator t now 0 (f ∷ fs) c).0))

read_cases :
    (now : ℕ → Mtime) (i : Prototype) (fs : List Flow) (c : ℕ) (t : ℤ) (port : ℕ)
    → IsValid (record { interface = i; flows = fs; flowcounts = c; timeout_treshold = t })
    → Reads now (record { interface = i; flows = fs; flowcounts = c; timeout_treshold = t }) port
unfolding flows_obsolate_and_get
read_cases now i [] c t port v = record {
  count = refl;
  valid = record { distinct = tt; counted = refl };
  active = refl;
}
read_cases now i (f ∷ fs) c t port v = record {
  count = read_count now t f fs c v.counted;
  valid = record {
    distinct = obsolator-Distinct t now (f ∷ fs) 0 c v.distinct;
    counted = read_count now t f fs c v.counted;
  };
  active =
      obsolator_activity t now (f ∷ fs) 0 c port v.distinct
      ∙ ap (λ n. unless_old t now n (activity (f ∷ fs) port)) (zero_plus (place (f ∷ fs) port));
}

-- From a valid counter, the reading is the number of the flows left, modulo 2^32, the counter stays
-- valid, and a port is still active exactly where its last packet was younger than the threshold
-- when its entry was looked at.
pub flows_obsolate_and_get_lem :
    (now : ℕ → Mtime) (g : Groupcounter) (port : ℕ) → IsValid g → Reads now g port
flows_obsolate_and_get_lem now g port v =
    read_cases now g.interface g.flows g.flowcounts g.timeout_treshold port v
