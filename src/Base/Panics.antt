-- ===== src/Base/Panics.antt =====
-- Calls whose failure, `none`, is a run-time panic: chaining, and the predicate that a call returns.
use mathlib.Core.Path.{◌≡◌, refl}
use mathlib.Core.Option.{Option, none, some}

infixl 5 ◌>>=◌
abbrev pub ◌>>=◌ {ℓ κ} : {V : Type ℓ} {W : Type κ} → Option V → (V → Option W) → Option W
none >>= next = none
some value >>= next = next value

-- A chain that succeeds has a first value.
pub >>=-eq-some {ℓ κ} :
    {A : Type ℓ} {B : Type κ} (o : Option A) (f : A → Option B) {b : B}
    → (o >>= f) ≡ some b
    → (a : A) × (o ≡ some a) × (f a ≡ some b)
>>=-eq-some none f h = cc
>>=-eq-some (some a) f h = (a, refl, h)

-- The call returns, with a value that satisfies `P`.
pub data Returns {ℓ κ} {A : Type ℓ} (P : A → Type κ) : Option A → Type (ℓ ⊔ κ) where
  returns : {a : A} → P a → Returns P (some a)

module _ {ℓ κ} {A : Type ℓ} {P : A → Type κ} where
  pub Returns-bind {ℓ' κ'} :
      {B : Type ℓ'} {Q : B → Type κ'} {o : Option A} {f : A → Option B}
      → Returns P o
      → ((a : A) → P a → Returns Q (f a))
      → Returns Q (o >>= f)
  Returns-bind (returns p) next = next _ p

  pub Returns-map {κ'} :
      {Q : A → Type κ'} {o : Option A} → Returns P o → ((a : A) → P a → Q a) → Returns Q o
  Returns-map (returns p) weaken = returns (weaken _ p)

  pub Returns-inv : {o : Option A} → Returns P o → (a : A) × (o ≡ some a) × P a
  Returns-inv (returns p) = (_, refl, p)
