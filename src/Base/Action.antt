-- ===== src/Base/Action.antt =====
-- A method of a mutable object that may raise: what was written before a raise stays written.
pub mod Invariants
use vibe_connect.Base.Raising.{Error, Result, ok, raise as failed}
use mathlib.Core.Path.{◌≡◌, refl, ap}
use mathlib.Core.Logic.{◌≢◌}
use mathlib.Core.Bool.{Bool, true, false}

abbrev pub Action {ℓ κ} : Type ℓ → Type κ → Type (ℓ ⊔ κ)
Action S A = S → Result A × S

module _ {ℓ κ} {S : Type ℓ} {A : Type κ} where
  unfoldable pub pure : A → Action S A
  pure a s = (ok a, s)

  unfoldable pub raise : Error → Action S A
  raise e s = (failed e, s)

  unfoldable pub lift : Result A → Action S A
  lift r s = (r, s)

  unfoldable pub gets : (S → A) → Action S A
  gets f s = (ok (f s), s)

unfoldable pub raise_if {ℓ} : {S : Type ℓ} → Bool → Error → Action S (Unit {0})
raise_if true e s = (failed e, s)
raise_if false e s = (ok tt, s)

unfoldable pub modify {ℓ} : {S : Type ℓ} → (S → S) → Action S (Unit {0})
modify f s = (ok tt, f s)

-- What follows a call, in the state that the call left.
abbrev pub continue {ℓ κ μ} :
    {S : Type ℓ} {A : Type κ} {B : Type μ} → (A → Action S B) → Result A × S → Result B × S
continue f (ok a, s) = f a s
continue f (failed e, s) = (failed e, s)

infixl 5 ◌>>=◌ ◌>>◌
-- Opening this opens the actions above too.
unfoldable pub ◌>>=◌ {ℓ κ μ} :
    {S : Type ℓ} {A : Type κ} {B : Type μ} → Action S A → (A → Action S B) → Action S B
unfolding pure raise lift gets raise_if modify
◌>>=◌ m f s = continue f (m s)

abbrev pub ◌>>◌ {ℓ κ μ} :
    {S : Type ℓ} {A : Type κ} {B : Type μ} → Action S A → Action S B → Action S B
m >> k = m >>= λ _. k

module _ {ℓ κ μ} {S : Type ℓ} {A : Type κ} {B : Type μ} (m : Action S A) (f : A → Action S B) where
  pub bind_ok : {s s' : S} {a : A} → m s ≡ (ok a, s') → (m >>= f) s ≡ f a s'
  unfolding ◌>>=◌
  bind_ok e = ap (continue f) e

  pub bind_raise : {s s' : S} {e : Error} → m s ≡ (failed e, s') → (m >>= f) s ≡ (failed e, s')
  unfolding ◌>>=◌
  bind_raise e = ap (continue f) e

  pub bind-eq-ok :
      {s t : S} {b : B}
      → (m >>= f) s ≡ (ok b, t)
      → (a : A) × (s' : S) × (m s ≡ (ok a, s')) × (f a s' ≡ (ok b, t))
  unfolding ◌>>=◌
  bind-eq-ok {s = s} h = go (m s) refl h
    where
      go :
          {t : S} {b : B} (r : Result A × S)
          → m s ≡ r
          → continue f r ≡ (ok b, t)
          → (a : A) × (s' : S) × (m s ≡ (ok a, s')) × (f a s' ≡ (ok b, t))
      go (ok a, s') e h = (a, s', e, h)
      go (failed x, s') e h = absurd (cc (ap (λ p. p.0) h))

pub raise_if_passes {ℓ} :
    {S : Type ℓ} (b : Bool) (e : Error) (s : S) → b ≡ false → raise_if b e s ≡ (ok tt, s)
unfolding raise_if
raise_if_passes true e s h = cc
raise_if_passes false e s h = refl

pub raise_if_keeps {ℓ} :
    {S : Type ℓ} (b : Bool) (e : Error) (s t : S) {u : Unit {0}}
    → raise_if b e s ≡ (ok u, t)
    → s ≡ t
unfolding raise_if
raise_if_keeps true e s t h = ap (λ p. p.1) h
raise_if_keeps false e s t h = ap (λ p. p.1) h

pub raise_if-false {ℓ} :
    {S : Type ℓ} (b : Bool) (e : Error) (s t : S) {u : Unit {0}}
    → raise_if b e s ≡ (ok u, t)
    → b ≡ false
unfolding raise_if
raise_if-false true e s t h = absurd (cc (ap (λ p. p.0) h))
raise_if-false false e s t h = refl

-- A handler that ends in `raise` does not return.
pub raise-after {ℓ κ μ} :
    {S : Type ℓ} {A : Type κ} {B : Type μ} (m : Action S A) (e : Error) (s t : S) (b : B)
    → (m >>= λ _. raise e) s ≢ (ok b, t)
unfolding raise
raise-after m e s t b h =
    let (_, _, _, r) = bind-eq-ok m (λ _. raise e) h in absurd (cc (ap (λ p. p.0) r))

pub pure-eq-ok {ℓ κ} :
    {S : Type ℓ} {A : Type κ} (a b : A) (s t : S) → pure a s ≡ (ok b, t) → (a ≡ b) × (s ≡ t)
unfolding pure
pure-eq-ok a b s t h = (cc (ap (λ p. p.0) h), ap (λ p. p.1) h)

-- Nor does a call before a block that does not.
pub bind-ne-ok {ℓ κ μ} :
    {S : Type ℓ} {A : Type κ} {B : Type μ} (m : Action S A) (f : A → Action S B) (t : S) (b : B)
    → ((a : A) (s : S) → f a s ≢ (ok b, t))
    → (s : S) → (m >>= f) s ≢ (ok b, t)
bind-ne-ok m f t b never s h = let (a, s', _, r) = bind-eq-ok m f h in never a s' r

pub ok-injective {ℓ} : {A : Type ℓ} {a b : A} → ◌≡◌ {A = Result A} (ok a) (ok b) → a ≡ b
ok-injective h = cc h
