-- ===== src/Feature/Monad.antt =====
-- The container of an evaluator item, and the monad of an evaluator: it changes the sniff's memo, and
-- `none` is a fault, the read of an RTP header through a NULL payload.
use ntrt.Prelude.{ℕ, Bool, Option, none, some}
use ntrt.Prelude.Int.{ℤ}
use ntrt.Sniff.{Sniff}

-- `evaluator_container_t` of lib/lib_descs.h.
pub record Container : Type 0 where
  pub port_num : ℤ
  pub payload_type : ℤ
  pub seq_num : ℕ
  pub last_timestamp : ℕ
  pub seq_num_initialized : Bool
  pub src_ipv4 : ℕ

abbrev pub M : Type 0 → Type 0
M A = Sniff → Option (A × Sniff)

abbrev pub pure : {A : Type 0} → A → M A
pure a s = some (a, s)

infixl 5 ◌>>=◌
abbrev pub ◌>>=◌ : {A B : Type 0} → M A → (A → M B) → M B
◌>>=◌ m f s = elim (m s) [ none ↦ none | some (a, s') ↦ f a s' ]

-- A function that answers and changes the sniff.
abbrev pub call : {A : Type 0} → (Sniff → A × Sniff) → M A
call f s = some (f s)

-- A field of the sniff.
abbrev pub field : {A : Type 0} → (Sniff → A) → M A
field f s = some (f s, s)

-- What an evaluator counts, with the container that it leaves behind.
abbrev pub Evaluator : Type 0
Evaluator = Container → M (ℕ × Container)

-- The fields of an RTP header that the evaluators read, as the host loads them.
pub record RtpHeader : Type 0 where
  pub pt : ℕ
  pub seq_num : ℕ
  pub ts : ℕ
