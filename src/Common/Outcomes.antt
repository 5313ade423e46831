-- ===== src/Common/Outcomes.antt =====
-- The ways in which a run of C code ends.
use Prim.Native.Nat.{ℕ}
use mathlib.Core.Path.{◌≡◌, refl, ap}
use mathlib.Core.Option.{none, some}
use mathlib.Core.Bool.{true, false}

-- `ok`: the code returned. `fault`: it read or wrote memory that is not its own. `exited`: it
-- called `exit`. `starved`: the fuel, or the given list of events, was used up.
pub data Outcome {ℓ} (A : Type ℓ) : Type ℓ where
  ok : A → Outcome A
  fault : Outcome A
  exited : ℕ → Outcome A
  starved : Outcome A

infixl 5 ◌>>=◌ ◌>>◌
abbrev pub ◌>>=◌ {ℓ κ} : {A : Type ℓ} {B : Type κ} → Outcome A → (A → Outcome B) → Outcome B
ok a >>= f = f a
fault >>= f = fault
exited c >>= f = exited c
starved >>= f = starved

abbrev pub ◌>>◌ {ℓ} : {B : Type ℓ} → Outcome (Unit {0}) → Outcome B → Outcome B
m >> k = m >>= λ _. k

pub ok_injective {ℓ} : {A : Type ℓ} {a b : A} → ok a ≡ ok b → a ≡ b
ok_injective e = cc

pub some_inj {ℓ} : {A : Type ℓ} {a b : A} → some a ≡ some b → a ≡ b
some_inj {a = a} p = ap (λ o. elim o [ none ↦ a | some x ↦ x ]) p

pub none_not {ℓ} : {A : Type ℓ} {a : A} → none ≡ some a → ⊥
none_not p = cc

pub true_not_false : true ≡ false → ⊥
true_not_false e = cc

pub exited_not_ok {ℓ} : {A : Type ℓ} {n : ℕ} {a : A} → exited n ≡ ok a → ⊥
exited_not_ok e = cc

pub fault_not_ok {ℓ} : {A : Type ℓ} {a : A} → fault ≡ ok a → ⊥
fault_not_ok e = cc

pub bind-ok {ℓ κ} :
    {A : Type ℓ} {B : Type κ} (o : Outcome A) (f : A → Outcome B) {b : B}
    → (o >>= f) ≡ ok b
    → (a : A) × (o ≡ ok a) × (f a ≡ ok b)
bind-ok (ok a) f p = (a, refl, p)
bind-ok fault f p = absurd (fault_not_ok p)
bind-ok (exited n) f p = absurd (exited_not_ok p)
bind-ok starved f p = cc
