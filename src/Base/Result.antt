-- ===== src/Base/Result.antt =====
-- Results of calls that may fail, for `do` blocks with early returns.
use mathlib.Core.Path.{◌≡◌, refl}
use mathlib.Core.Logic.{◌↔◌}
use mathlib.Core.Bool.{Bool, true, false}
use mathlib.Core.Option.{Option, none, some}

pub data Result {ℓ κ} (E : Type ℓ) (A : Type κ) : Type (ℓ ⊔ κ) where
  ok : A → Result E A
  err : E → Result E A

infixl 5 ◌>>=◌ ◌>>◌
abbrev pub ◌>>=◌ {ℓ κ μ} :
    {E : Type ℓ} {A : Type κ} {B : Type μ} → Result E A → (A → Result E B) → Result E B
err stop >>= next = err stop
ok value >>= next = next value

abbrev pub ◌>>◌ {ℓ κ} : {E : Type ℓ} {B : Type κ} → Result E (Unit {0}) → Result E B → Result E B
m >> k = m >>= λ _. k

abbrev pub refuse_if {ℓ} : {E : Type ℓ} → Bool → E → Result E (Unit {0})
refuse_if true e = err e
refuse_if false e = ok tt

abbrev pub or_fail {ℓ κ} : {E : Type ℓ} {A : Type κ} → Option A → E → Result E A
or_fail none e = err e
or_fail (some a) e = ok a

abbrev pub to_option {ℓ κ} : {E : Type ℓ} {A : Type κ} → Result E A → Option A
to_option (ok a) = some a
to_option (err _) = none

-- Inversion of success.
module _ {ℓ} {E : Type ℓ} where
  pub >>=-eq-ok {κ μ} :
      {A : Type κ} {B : Type μ} (first : Result E A) (next : A → Result E B) {last : B}
      → (first >>= next) ≡ ok last
      → (value : A) × (first ≡ ok value) × (next value ≡ ok last)
  >>=-eq-ok (err stop) next succeeds = cc
  >>=-eq-ok (ok value) next succeeds = (value, refl, succeeds)

  pub ok-injective {κ} : {A : Type κ} (a b : A) → Path (Result E A) (ok a) (ok b) → a ≡ b
  ok-injective a b h = cc

  -- Both steps succeed.
  pub >>-eq-ok_iff {μ} :
      {B : Type μ} (m : Result E (Unit {0})) (k : Result E B) (r : B)
      → ((m >> k) ≡ ok r) ↔ ((m ≡ ok tt) × (k ≡ ok r))
  >>-eq-ok_iff {B} (ok a) k r = (λ h. (refl, h), λ h. h.1)
  >>-eq-ok_iff {B} (err e) k r = (λ h. cc, λ h. absurd_err h.0)
    where
      absurd_err : Path (Result E (Unit {0})) (err e) (ok tt) → Path (Result E B) (err e) (ok r)
      absurd_err h = cc

  pub refuse_if-eq-ok : (b : Bool) (e : E) → refuse_if b e ≡ ok tt → b ≡ false
  refuse_if-eq-ok true e h = cc
  refuse_if-eq-ok false e h = refl

  pub refuse_if_then {μ} :
      {B : Type μ} (b : Bool) (e : E) (k : Result E B) {r : B}
      → (refuse_if b e >> k) ≡ ok r
      → (b ≡ false) × (k ≡ ok r)
  refuse_if_then true e k h = cc
  refuse_if_then false e k h = (refl, h)

  pub or_fail-eq-ok {κ} :
      {A : Type κ} (o : Option A) (e : E) {a : A} → or_fail o e ≡ ok a → o ≡ some a
  or_fail-eq-ok none e h = cc
  or_fail-eq-ok (some x) e h = cc

-- What holds of a result that is not an error.
abbrev pub AllOk {ℓ κ μ} : {E : Type ℓ} {A : Type κ} → (A → Type μ) → Result E A → Type μ
AllOk P (ok a) = P a
AllOk P (err e) = Unit

module _ {ℓ κ μ} {E : Type ℓ} {A : Type κ} {B : Type κ} (Q : B → Type μ) where
  -- A step that keeps `Q`, whatever comes before it.
  pub AllOk-bind :
      (m : Result E A) (f : A → Result E B) → ((a : A) → AllOk Q (f a)) → AllOk Q (m >>= f)
  AllOk-bind (ok a) f h = h a
  AllOk-bind (err e) f h = tt

  pub AllOk-bind_after {ν} :
      {P : A → Type ν} (m : Result E A) (f : A → Result E B)
      → AllOk P m
      → ((a : A) → P a → AllOk Q (f a))
      → AllOk Q (m >>= f)
  AllOk-bind_after (ok a) f p h = h a p
  AllOk-bind_after (err e) f p h = tt
