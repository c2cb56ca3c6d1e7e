-- ===== src/Prelude/State.antt =====
-- Statements that may raise and that act on a state outside the program, which outlives an
-- exception.
use zabbig.Prelude.Exceptions.{Result, ok, err}

abbrev pub Action {ℓ κ} : Type κ → Type ℓ → Type (ℓ ⊔ κ)
Action S A = S → Result A × S

module _ {ℓ κ} {S : Type κ} {A : Type ℓ} where
  abbrev pub pure : A → Action S A
  pure a s = (ok a, s)

  abbrev pub lift : Result A → Action S A
  lift r s = (r, s)

module _ {ℓ μ κ} {S : Type κ} {A : Type ℓ} {B : Type μ} where
  abbrev pub and_then : Result A → (A → Action S B) → Action S B
  and_then (ok a) f s = f a s
  and_then (err e) f s = (err e, s)

  infixl 5 ◌>>=◌
  abbrev pub ◌>>=◌ : Action S A → (A → Action S B) → Action S B
  ◌>>=◌ m f s = let (result, after) = m s in and_then result f after
