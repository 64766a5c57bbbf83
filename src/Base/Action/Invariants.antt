-- ===== src/Base/Action/Invariants.antt =====
-- Invariants of methods that may raise: they hold after a return and after a raise.
use vibe_connect.Base.Raising.{Error, Result, ok, raise as failed}
use vibe_connect.Base.Action.{Action, pure, raise, lift, gets, modify, raise_if, continue, ◌>>=◌}
use mathlib.Core.Path.{◌≡◌, refl}
use mathlib.Core.Bool.{Bool, true, false}
use vibe_connect.Base.Tests.{if◌then◌else◌}

pub record Preserves {ℓ κ} {S : Type ℓ} {A : Type κ} (P : S → Type ℓ) (m : Action S A)
    : Type ℓ where
  pub from : (s : S) → P s → P (m s).1

module _ {ℓ κ} {S : Type ℓ} {A : Type κ} (P : S → Type ℓ) where
  pub pure-Preserves : (a : A) → Preserves P (pure a)
  unfolding pure
  pure-Preserves a = record { from = λ s h. h }

  pub raise-Preserves : (e : Error) → Preserves P (raise {A = A} e)
  unfolding raise
  raise-Preserves e = record { from = λ s h. h }

  pub lift-Preserves : (r : Result A) → Preserves P (lift r)
  unfolding lift
  lift-Preserves r = record { from = λ s h. h }

  pub gets-Preserves : (f : S → A) → Preserves P (gets f)
  unfolding gets
  gets-Preserves f = record { from = λ s h. h }

module _ {ℓ κ} {S : Type ℓ} {A : Type κ} (P : S → Type ℓ) where
  pub if-Preserves :
      (b : Bool) (m k : Action S A)
      → Preserves P m
      → Preserves P k
      → Preserves P (if b then m else k)
  if-Preserves true m k h g = h
  if-Preserves false m k h g = g

module _ {ℓ} {S : Type ℓ} (P : S → Type ℓ) where
  pub modify-Preserves : (f : S → S) → ((s : S) → P s → P (f s)) → Preserves P (modify f)
  unfolding modify
  modify-Preserves f h = record { from = h }

  pub raise_if-Preserves : (b : Bool) (e : Error) → Preserves P (raise_if b e)
  unfolding raise_if
  raise_if-Preserves true e = record { from = λ s h. h }
  raise_if-Preserves false e = record { from = λ s h. h }

module _ {ℓ κ μ} {S : Type ℓ} {A : Type κ} {B : Type μ} (P : S → Type ℓ) where
  pub preserves_continue :
      (f : A → Action S B)
      → ((a : A) → Preserves P (f a))
      → (r : Result A × S) → P r.1
      → P (continue f r).1
  preserves_continue f k (ok a, s) h = (k a).from s h
  preserves_continue f k (failed e, s) h = h

  pub bind-Preserves :
      (m : Action S A) (f : A → Action S B)
      → Preserves P m
      → ((a : A) → Preserves P (f a))
      → Preserves P (m >>= f)
  unfolding ◌>>=◌
  bind-Preserves m f h k = record { from = λ s p. preserves_continue f k (m s) (h.from s p) }

  -- What follows a value that was computed may use that it was.
  pub bind_lift-Preserves :
      (r : Result A) (f : A → Action S B)
      → ((a : A) → r ≡ ok a → Preserves P (f a))
      → Preserves P (lift r >>= f)
  unfolding ◌>>=◌
  bind_lift-Preserves (ok a) f k = k a refl
  bind_lift-Preserves (failed e) f k = record { from = λ s h. h }

pub ruleset invariants = (
  pure-Preserves, raise-Preserves, lift-Preserves, gets-Preserves, modify-Preserves,
  raise_if-Preserves, bind-Preserves, if-Preserves,
)
