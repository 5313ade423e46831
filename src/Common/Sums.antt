-- ===== src/Common/Sums.antt =====
-- Families with a place for each thread, and sums over them.
use Prim.Native.Nat.{ℕ, zero, suc, ◌+◌, ◌*◌, ◌≤◌, ◌<◌}
use mathlib.Core.Path.{◌≡◌, refl, ap}
use mathlib.Core.Logic.{inl, inr}
use native.Mathlib.Omega.{arith}
use cs8803_introduction_to_o.Common.Tests.{
  if◌then◌else◌, ◌==◌, Bool-cases, ==→eq, ==_false→ne, ne→==,
}

abbrev pub set_at {ℓ} : {A : Type ℓ} → (ℕ → A) → ℕ → A → ℕ → A
set_at f i a j = if j == i then a else f j

module _ {ℓ} {A : Type ℓ} (f : A → ℕ) where
  abbrev pub total : (ℕ → A) → ℕ → ℕ
  total ws zero = 0
  total ws (suc n) = total ws n + f (ws n)

  total-other : (ws : ℕ → A) (i : ℕ) (w : A) (n : ℕ) → n ≤ i → total (set_at ws i w) n ≡ total ws n
  total-other ws i w zero above = refl
  total-other ws i w (suc n) above =
      rw (total-other ws i w n (omega arith), ne→== n i (omega arith)) refl

  pub total-set :
      (ws : ℕ → A) (i : ℕ) (w : A) (n : ℕ)
      → i < n
      → total (set_at ws i w) n + f (ws i) ≡ total ws n + f w
  total-set ws i w zero less = absurd (omega arith)
  total-set ws i w (suc n) less = elim (Bool-cases (n == i)) [
    | inl same ↦
        rw (total-other ws i w n (omega (arith, ==→eq n i same)), same, ap ws (==→eq n i same))
          (omega arith)
    | inr other ↦
        rw other (omega (arith, total-set ws i w n (omega (arith, ==_false→ne n i other))))
  ]

  pub total-same : (ws : ℕ → A) (k n : ℕ) → ((i : ℕ) → i < n → f (ws i) ≡ k) → total ws n ≡ n * k
  total-same ws k zero all = omega arith
  total-same ws k (suc n) all =
      omega (arith, total-same ws k n (λ i less. all i (omega arith)), all n (omega arith))
