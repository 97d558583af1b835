-- ===== src/Base/Results.antt =====
-- Go's pair of a value and an error, as one value.
use mathlib.Core.Path.{◌≡◌, refl, subst}
use mathlib.Core.Bool.{Bool, true, false}

pub data Result {ℓ κ} (E : Type κ) (A : Type ℓ) : Type (ℓ ⊔ κ) where
  ok : A → Result E A
  err : E → Result E A

module _ {ε} {E : Type ε} where
  infixl 5 ◌>>=◌ ◌>>◌
  abbrev pub ◌>>=◌ {ℓ κ} : {A : Type ℓ} {B : Type κ} → Result E A → (A → Result E B) → Result E B
  ok a >>= f = f a
  err e >>= f = err e

  abbrev pub ◌>>◌ {ℓ} : {B : Type ℓ} → Result E (Unit {0}) → Result E B → Result E B
  m >> k = m >>= λ _. k

  -- `if bad { return error }`: the error is returned when the test holds.
  abbrev pub reject : Bool → E → Result E (Unit {0})
  reject true e = err e
  reject false e = ok tt

-- What holds of the value, if there is one.
abbrev pub OnOk {ε ℓ κ} : {E : Type ε} {A : Type ℓ} → (A → Type κ) → Result E A → Type κ
OnOk P (ok a) = P a
OnOk P (err e) = Unit

pub OnOk-bind {ε ℓ κ μ} :
    {E : Type ε} {A : Type ℓ} {B : Type κ} (P : B → Type μ) (m : Result E A) (f : A → Result E B)
    → ((a : A) → m ≡ ok a → OnOk P (f a))
    → OnOk P (m >>= f)
OnOk-bind P (ok a) f h = h a refl
OnOk-bind P (err e) f h = tt

pub OnOk-ok {ε ℓ κ} :
    {E : Type ε} {A : Type ℓ} (P : A → Type κ) (m : Result E A) {a : A} → OnOk P m → m ≡ ok a → P a
OnOk-ok P m h e = subst (OnOk P) e h

pub OnOk-imp {ε ℓ κ μ} :
    {E : Type ε} {A : Type ℓ} (P : A → Type κ) (Q : A → Type μ) (m : Result E A)
    → ((a : A) → P a → Q a)
    → OnOk P m
    → OnOk Q m
OnOk-imp P Q (ok a) h p = h a p
OnOk-imp P Q (err e) h p = tt

pub OnOk-reject {ε ℓ κ} :
    {E : Type ε} {A : Type ℓ} (P : A → Type κ) (b : Bool) (e : E) (k : Result E A)
    → (b ≡ false → OnOk P k)
    → OnOk P (reject b e >> k)
OnOk-reject P true e k h = tt
OnOk-reject P false e k h = h refl

-- The value that the first part of a computation has, when the computation has one.
pub bind-ok {ε ℓ κ} :
    {E : Type ε} {A : Type ℓ} {B : Type κ} (m : Result E A) (f : A → Result E B) (b : B)
    → (m >>= f) ≡ ok b
    → (a : A) × (m ≡ ok a) × (f a ≡ ok b)
bind-ok (ok a) f b h = (a, refl, h)
bind-ok (err e) f b h = cc

pub reject-passes {ε} : {E : Type ε} (b : Bool) (e : E) → reject b e ≡ ok tt → b ≡ false
reject-passes false e h = refl
reject-passes true e h = cc

pub ok-injective {ε ℓ} :
    {E : Type ε} {A : Type ℓ} (a b : A) → ◌≡◌ {A = Result E A} (ok a) (ok b) → a ≡ b
ok-injective a b h = cc
