-- ===== src/Base/Outcomes.antt =====
-- The outcome of code that may return an error value or panic. An index past the end of a slice
-- panics, so that a proof of an outcome other than `panic` is a proof that no access is out of
-- bounds.
use Prim.Native.Nat.{ℕ, zero, suc, ◌<◌, ◌≤◌}
use mathlib.Core.Path.{◌≡◌, refl}
use mathlib.Core.Logic.{◌≢◌}
use mathlib.Core.List.{List, [], ◌∷◌}
use mathlib.Core.Bool.{Bool, true, false}
use native.Mathlib.Omega.{arith}
use flowcat.Base.Tests.{if◌then◌else◌}
use flowcat.Base.Lists.{length, get_or, drop}

pub data Outcome {ℓ κ} (E : Type ℓ) (A : Type κ) : Type (ℓ ⊔ κ) where
  ok : A → Outcome E A
  err : E → Outcome E A
  panic : Outcome E A

infixl 5 ◌>>=◌ ◌>>◌
abbrev pub ◌>>=◌ {ℓ κ μ} :
    {E : Type ℓ} {A : Type κ} {B : Type μ} → Outcome E A → (A → Outcome E B) → Outcome E B
ok a >>= f = f a
err e >>= f = err e
panic >>= f = panic

abbrev pub ◌>>◌ {ℓ μ} : {E : Type ℓ} {B : Type μ} → Outcome E (Unit {0}) → Outcome E B → Outcome E B
m >> k = m >>= λ _. k

-- `if test { return Err(e) }`
abbrev pub fail_if {ℓ} : {E : Type ℓ} → Bool → E → Outcome E (Unit {0})
fail_if true e = err e
fail_if false e = ok tt

pub fail_if_lem {ℓ κ} :
    {E : Type ℓ} {A : Type κ} (b : Bool) (e : E) (m : Outcome E A)
    → (fail_if b e >> m) ≡ (if b then err e else m)
fail_if_lem true e m = refl
fail_if_lem false e m = refl

module _ {ℓ κ} {E : Type ℓ} {A : Type κ} where
  -- `xs[i]`
  unfoldable pub index : List A → ℕ → Outcome E A
  index [] i = panic
  index (x ∷ xs) zero = ok x
  index (x ∷ xs) (suc i) = index xs i

  -- `xs[i..]`
  unfoldable pub slice_from : List A → ℕ → Outcome E (List A)
  slice_from xs zero = ok xs
  slice_from [] (suc i) = panic
  slice_from (x ∷ xs) (suc i) = slice_from xs i

  pub index-in_bounds :
      (xs : List A) (i : ℕ) (d : A) → i < length xs → index xs i ≡ ok (get_or xs i d)
  unfolding index
  index-in_bounds [] i d h = absurd (omega arith)
  index-in_bounds (x ∷ xs) zero d h = refl
  index-in_bounds (x ∷ xs) (suc i) d h = index-in_bounds xs i d (omega arith)

  pub slice_from-in_bounds :
      (xs : List A) (i : ℕ) → i ≤ length xs → slice_from xs i ≡ ok (drop i xs)
  unfolding slice_from
  slice_from-in_bounds xs zero h = refl
  slice_from-in_bounds [] (suc i) h = absurd (omega arith)
  slice_from-in_bounds (x ∷ xs) (suc i) h = slice_from-in_bounds xs i (omega arith)

  pub ok-injective : {a b : A} → ◌≡◌ {A = Outcome E A} (ok a) (ok b) → a ≡ b
  ok-injective h = cc

  pub err≢ok : {e : E} {a : A} → ◌≢◌ {A = Outcome E A} (err e) (ok a)
  err≢ok h = cc

  pub panic≢ok : {a : A} → ◌≢◌ {A = Outcome E A} panic (ok a)
  panic≢ok h = cc
