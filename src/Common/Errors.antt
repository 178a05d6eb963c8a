-- ===== src/Common/Errors.antt =====
-- The outcome of a fallible function of the repository.
use nff_go.Base.{◌≡◌, refl}

-- The codes of common/common.go that the modelled code returns.
pub data ErrorCode : Type 0 where
  parse_cpu_list_err : ErrorCode
  parse_rule_json_err : ErrorCode
  file_err : ErrorCode
  parse_rule_err : ErrorCode
  incorrect_arg_in_rules : ErrorCode
  incorrect_rule : ErrorCode
  not_enough_cores : ErrorCode
  invalid_cpu_range_err : ErrorCode
  use_nil_flow_err : ErrorCode
  use_closed_flow_err : ErrorCode
  opened_flow_at_the_end : ErrorCode
  req_too_many_ports : ErrorCode
  multiple_receive_port : ErrorCode
  bad_argument : ErrorCode
  wrong_port : ErrorCode

-- `err` is an error value of that code; `panic` a run-time panic of Go.
pub data Result {ℓ} (A : Type ℓ) : Type ℓ where
  panic : Result A
  err : ErrorCode → Result A
  ok : A → Result A

infixl 5 ◌>>=◌
abbrev pub ◌>>=◌ {ℓ κ} : {A : Type ℓ} {B : Type κ} → Result A → (A → Result B) → Result B
panic >>= f = panic
err e >>= f = err e
ok a >>= f = f a

-- Whatever is returned satisfies `P`.
abbrev pub Returns {ℓ κ} : {A : Type ℓ} → (A → Type κ) → Result A → Type κ
Returns P (ok a) = P a
Returns P (err e) = Unit
Returns P panic = Unit

module _ {ℓ κ} {A : Type ℓ} (P : A → Type κ) where
  pub Returns-of : (m : Result A) → ((a : A) → m ≡ ok a → P a) → Returns P m
  Returns-of (ok a) h = h a refl
  Returns-of (err e) h = tt
  Returns-of panic h = tt

  pub Returns-bind {μ ν} :
      {B : Type μ} (Q : B → Type ν) (m : Result B) (f : B → Result A)
      → Returns Q m
      → ((b : B) → Q b → Returns P (f b))
      → Returns P (m >>= f)
  Returns-bind Q (ok b) f q h = h b q
  Returns-bind Q (err e) f q h = tt
  Returns-bind Q panic f q h = tt

pub Returns-weaken {ℓ κ μ} :
    {A : Type ℓ} (P : A → Type κ) (Q : A → Type μ) (m : Result A)
    → Returns Q m
    → ((a : A) → Q a → P a)
    → Returns P m
Returns-weaken P Q (ok a) q h = h a q
Returns-weaken P Q (err e) q h = tt
Returns-weaken P Q panic q h = tt

-- Something is returned, and satisfies `P`: no error and no panic.
abbrev pub Succeeds {ℓ} : {A : Type ℓ} → (A → Type 0) → Result A → Type 0
Succeeds P (ok a) = P a
Succeeds P (err e) = ⊥
Succeeds P panic = ⊥

module _ {ℓ} {A : Type ℓ} (P : A → Type 0) where
  pub Succeeds-bind {μ} :
      {B : Type μ} (Q : B → Type 0) (m : Result B) (f : B → Result A)
      → Succeeds Q m
      → ((b : B) → Q b → Succeeds P (f b))
      → Succeeds P (m >>= f)
  Succeeds-bind Q (ok b) f q h = h b q
  Succeeds-bind Q (err e) f q h = absurd q
  Succeeds-bind Q panic f q h = absurd q

  -- What a call that succeeds returns.
  pub Succeeds-value : (m : Result A) → Succeeds P m → (a : A) × (m ≡ ok a) × P a
  Succeeds-value (ok a) p = (a, refl, p)
  Succeeds-value (err e) p = absurd p
  Succeeds-value panic p = absurd p

  -- What holds of all that a call may return holds of what it returns.
  pub Succeeds-both :
      (Q : A → Type 0) (m : Result A) → Succeeds P m → Returns Q m → Succeeds (λ a. P a × Q a) m
  Succeeds-both Q (ok a) p q = (p, q)
  Succeeds-both Q (err e) p q = absurd p
  Succeeds-both Q panic p q = absurd p

  pub Succeeds-weaken :
      (Q : A → Type 0) (m : Result A) → Succeeds Q m → ((a : A) → Q a → P a) → Succeeds P m
  Succeeds-weaken Q (ok a) q h = h a q
  Succeeds-weaken Q (err e) q h = absurd q
  Succeeds-weaken Q panic q h = absurd q

  pub Succeeds-eq : (m : Result A) (a : A) → m ≡ ok a → Succeeds P m → P a
  Succeeds-eq (ok b) a e p = let same : b ≡ a = cc in rw (← same) p
  Succeeds-eq (err c) a e p = absurd p
  Succeeds-eq panic a e p = absurd p

pub Returns-eq {ℓ} :
    {A : Type ℓ} (P : A → Type 0) (m : Result A) (a : A) → m ≡ ok a → Returns P m → P a
Returns-eq P (ok b) a e p = let same : b ≡ a = cc in rw (← same) p
Returns-eq P (err c) a e p = cc
Returns-eq P panic a e p = cc
