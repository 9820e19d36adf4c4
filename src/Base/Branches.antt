-- ===== src/Base/Branches.antt =====
-- Proofs about code that branches: a predicate holds of the whole if it holds of each branch, which
-- may use how its test came out.
use mathlib.Core.Path.{◌≡◌, refl}
use mathlib.Core.Bool.{Bool, true, false}
use mathlib.Core.Option.{Option, none, some}
use commmon.Base.Tests.{if◌then◌else◌}

module _ {ℓ κ} {R : Type ℓ} (P : R → Type κ) where
  pub on_if : (b : Bool) (x y : R) → (b ≡ true → P x) → (b ≡ false → P y) → P (if b then x else y)
  on_if true x y p q = p refl
  on_if false x y p q = q refl

  pub on_option {μ} :
      {A : Type μ} (o : Option A) (x : R) (f : A → R)
      → (o ≡ none → P x)
      → ((a : A) → o ≡ some a → P (f a))
      → P (elim o [ none ↦ x | some a ↦ f a ])
  on_option none x f p q = p refl
  on_option (some a) x f p q = q a refl
