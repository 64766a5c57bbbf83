-- ===== src/Base/Sets.antt =====
-- Python's `set` as a list without repetitions: `contains` is the test, `add` and `discard` below.
use Prim.Native.Nat.{◌+◌, ◌≤◌}
use mathlib.Core.Path.{◌≡◌, refl}
use mathlib.Core.Bool.{true, false}
use mathlib.Core.List.{List, [], ◌∷◌}
use native.Mathlib.Omega.{arith}
use vibe_connect.Base.Tests.{if◌then◌else◌}
use vibe_connect.Base.Lists.{length}
use vibe_connect.Base.Equality.{Eq, ◌==◌, contains}

module _ {ℓ} {A : Type ℓ} ⦃e : Eq A⦄ where
  unfoldable pub add : A → List A → List A
  add a xs = if contains xs a then xs else a ∷ xs

  unfoldable pub discard : A → List A → List A
  discard a [] = []
  discard a (x ∷ xs) = let rest = discard a xs in if a == x then rest else x ∷ rest

  -- No element stands twice.
  abbrev pub Distinct : List A → Type 0
  Distinct [] = Unit
  Distinct (x ∷ xs) = (contains xs x ≡ false) × Distinct xs

  pub contains-add :
      (a b : A) (xs : List A) → contains (add a xs) b ≡ (if b == a then true else contains xs b)
  unfolding add contains
  contains-add a b xs = ground (arith, e.beq_iff b a)

  pub contains-discard :
      (a b : A) (xs : List A)
      → contains (discard a xs) b ≡ (if b == a then false else contains xs b)
  unfolding discard contains
  contains-discard a b [] = ground arith
  contains-discard a b (x ∷ xs) =
      ground (arith, contains-discard a b xs, e.beq_iff b a, e.beq_iff a x, e.beq_iff b x)

  pub add-Distinct : (a : A) (xs : List A) → Distinct xs → Distinct (add a xs)
  unfolding add
  add-Distinct a xs h = ground arith

  pub discard-Distinct : (a : A) (xs : List A) → Distinct xs → Distinct (discard a xs)
  unfolding discard
  discard-Distinct a [] h = tt
  discard-Distinct a (x ∷ xs) h = ground (arith, discard-Distinct a xs h.1, contains-discard a x xs)

  pub length-discard-le : (a : A) (xs : List A) → length (discard a xs) ≤ length xs
  unfolding discard
  length-discard-le a [] = omega arith
  length-discard-le a (x ∷ xs) = ground (arith, length-discard-le a xs)

  discard_absent : (a : A) (xs : List A) → contains xs a ≡ false → discard a xs ≡ xs
  unfolding discard contains
  discard_absent a [] h = refl
  discard_absent a (x ∷ xs) h = ground (arith, discard_absent a xs)

  -- An element that was there once takes one place with it.
  pub length-discard :
      (a : A) (xs : List A)
      → Distinct xs
      → contains xs a ≡ true
      → length (discard a xs) + 1 ≡ length xs
  unfolding discard contains
  length-discard a [] h m = cc
  length-discard a (x ∷ xs) h m =
      ground (arith, length-discard a xs h.1, discard_absent a xs, e.beq_iff a x)
