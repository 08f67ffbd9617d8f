-- ===== src/Prelude/Results.antt =====
-- Results of code that throws, with `do` blocks. `E` is the component's type of errors.
use mathlib.Core.Path.{◌≡◌, refl, subst}
use mathlib.Core.Bool.{Bool, true, false}
use mathlib.Core.Option.{Option, none, some}

pub data Result {ℓ} (E : Type 0) (A : Type ℓ) : Type ℓ where
  err : E → Result E A
  ok : A → Result E A

abbrev pub or_throw {ℓ} : {E : Type 0} {A : Type ℓ} → Option A → E → Result E A
or_throw (some found) thrown = ok found
or_throw none thrown = err thrown

-- `if (!holds) throw thrown`
abbrev pub guard : {E : Type 0} → Bool → E → Result E (Unit {0})
guard false thrown = err thrown
guard true thrown = ok tt

pub or_throw-eq-ok {ℓ} :
    {E : Type 0} {A : Type ℓ} (o : Option A) (thrown : E) (a : A)
    → or_throw o thrown ≡ ok a
    → o ≡ some a
or_throw-eq-ok (some found) thrown a h = cc h
or_throw-eq-ok none thrown a h = absurd (cc h)

pub guard-eq-ok :
    {E : Type 0} (holds : Bool) (thrown : E) (u : Unit {0})
    → guard holds thrown ≡ ok u
    → holds ≡ true
guard-eq-ok false thrown u h = absurd (cc h)
guard-eq-ok true thrown u h = refl

infixl 5 ◌>>=◌ ◌>>◌
abbrev pub ◌>>=◌ {ℓ κ} :
    {E : Type 0} {A : Type ℓ} {B : Type κ} → Result E A → (A → Result E B) → Result E B
err thrown >>= next = err thrown
ok value >>= next = next value

pub >>=-eq-ok {ℓ κ} :
    {E : Type 0} {A : Type ℓ} {B : Type κ} (first : Result E A) (next : A → Result E B) {b : B}
    → (first >>= next) ≡ ok b
    → (a : A) × (first ≡ ok a) × (next a ≡ ok b)
>>=-eq-ok (err thrown) next h = absurd (cc h)
>>=-eq-ok (ok value) next h = (value, refl, h)

abbrev pub ◌>>◌ {ℓ} : {E : Type 0} {B : Type ℓ} → Result E (Unit {0}) → Result E B → Result E B
first >> then_run = first >>= λ done. then_run

-- What holds of the value, if the code returns one.
pub record Ensures {ℓ κ} {E : Type 0} {A : Type ℓ} (P : A → Type κ) (r : Result E A)
    : Type (ℓ ⊔ κ) where
  pub apply : (a : A) → r ≡ ok a → P a

module _ {ℓ κ μ} {E : Type 0} {A : Type ℓ} {B : Type κ} {P : B → Type μ} where
  pub Ensures-bind :
      (m : Result E A) (f : A → Result E B)
      → ((a : A) → m ≡ ok a → Ensures P (f a))
      → Ensures P (m >>= f)
  Ensures-bind (ok a) f h = h a refl
  Ensures-bind (err e) f h = record { apply = λ b eq. absurd (cc eq) }

module _ {κ μ} {E : Type 0} {B : Type κ} {P : B → Type μ} where
  pub Ensures-ok : (b : B) → P b → Ensures {E = E} P (ok b)
  Ensures-ok b p = record { apply = λ a eq. subst P (cc eq) p }

  pub Ensures-guard :
      (t : Bool) (e : E) (k : Result E B) → (t ≡ true → Ensures P k) → Ensures P (guard t e >> k)
  Ensures-guard true e k h = h refl
  Ensures-guard false e k h = record { apply = λ b eq. absurd (cc eq) }
