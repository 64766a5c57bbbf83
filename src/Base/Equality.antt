-- ===== src/Base/Equality.antt =====
-- Python's `==` on the types that serve as keys: numbers (UUIDs) and texts.
use Prim.Native.Nat.{ℕ}
use Prim.Native.String.{String}
use mathlib.Core.Path.{◌≡◌, refl}
use mathlib.Core.Logic.{◌↔◌, inl, inr, ◌≢◌}
use mathlib.Core.Bool.{Bool, true, false, ◌||◌}
use mathlib.Core.List.{List, [], ◌∷◌}
use native.Mathlib.Omega.{arith}
use text.Mathlib.Text.{◌==◌ as str_eq}
use text.Mathlib.TextEquality.{eq_iff}
use vibe_connect.Base.Tests.{nat_beq, Bool-cases, if◌then◌else◌}

pub record Eq {ℓ} (A : Type ℓ) : Type ℓ where
  pub beq : A → A → Bool
  pub beq_iff : (x y : A) → (beq x y ≡ true) ↔ (x ≡ y)

pub nat_beq_iff : (a b : ℕ) → (nat_beq a b ≡ true) ↔ (a ≡ b)
nat_beq_iff a b = (λ h. ground arith, λ h. ground arith)

infix 50 ◌==◌ ◌!=◌
abbrev pub ◌==◌ {ℓ} : {A : Type ℓ} ⦃e : Eq A⦄ → A → A → Bool
◌==◌ ⦃e⦄ = e.beq

abbrev pub ◌!=◌ {ℓ} : {A : Type ℓ} ⦃e : Eq A⦄ → A → A → Bool
◌!=◌ ⦃e⦄ a b = if e.beq a b then false else true

instance abbrev pub nat_eq : Eq ℕ
nat_eq = record { beq = nat_beq; beq_iff = nat_beq_iff }

instance abbrev pub string_eq : Eq String
string_eq = record { beq = str_eq; beq_iff = eq_iff }

module _ {ℓ} {A : Type ℓ} ⦃e : Eq A⦄ where
  pub eq_self : (a : A) → e.beq a a ≡ true
  eq_self a = (e.beq_iff a a).1 refl

  pub eq_of_beq : (a b : A) → e.beq a b ≡ true → a ≡ b
  eq_of_beq a b = (e.beq_iff a b).0

  pub ne_of_beq : (a b : A) → e.beq a b ≡ false → a ≢ b
  ne_of_beq a b h p = cc ((e.beq_iff a b).1 p)

  pub beq_of_ne : (a b : A) → a ≢ b → e.beq a b ≡ false
  beq_of_ne a b h = elim (Bool-cases (e.beq a b)) [
    | inl same ↦ absurd (h (eq_of_beq a b same))
    | inr other ↦ other
  ]

  -- `a in xs`
  unfoldable pub contains : List A → A → Bool
  contains [] a = false
  contains (x ∷ xs) a = e.beq a x || contains xs a

  pub eq_of_not_differs : (a b : A) → (a != b) ≡ false → a ≡ b
  eq_of_not_differs a b h = ground (arith, e.beq_iff a b)

  pub not_differs : (a b : A) → a ≡ b → (a != b) ≡ false
  not_differs a b h = ground (arith, e.beq_iff a b)
