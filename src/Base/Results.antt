-- ===== src/Base/Results.antt =====
-- Results with a typed error.
use mathlib.Core.Path.{◌≡◌, refl}
use mathlib.Core.Logic.{◌⊎◌, inl, inr}

pub data Result {ℓ κ} (E : Type ℓ) (A : Type κ) : Type (ℓ ⊔ κ) where
  ok : A → Result E A
  err : E → Result E A

infixl 5 ◌>>=◌
abbrev pub ◌>>=◌ {ℓ κ μ} :
    {E : Type ℓ} {A : Type κ} {B : Type μ} → Result E A → (A → Result E B) → Result E B
ok a >>= f = f a
err e >>= f = err e

abbrev pub map_err {ℓ κ μ} :
    {E : Type ℓ} {D : Type κ} {A : Type μ} → (E → D) → Result E A → Result D A
map_err f (ok a) = ok a
map_err f (err e) = err (f e)

pub Result-cases {ℓ κ} :
    {E : Type ℓ} {A : Type κ} (r : Result E A) → ((a : A) × (r ≡ ok a)) ⊎ ((e : E) × (r ≡ err e))
Result-cases (ok a) = inl (a, refl)
Result-cases (err e) = inr (e, refl)

-- Where a bind succeeds, both of its steps do.
pub bind_ok {ℓ κ μ} :
    {E : Type ℓ} {A : Type κ} {B : Type μ} (m : Result E A) (f : A → Result E B) {b : B}
    → (m >>= f) ≡ ok b
    → (a : A) × (m ≡ ok a) × (f a ≡ ok b)
bind_ok (ok a) f h = (a, refl, h)
bind_ok (err e) f h = cc

pub ok_inj {ℓ κ} : {E : Type ℓ} {A : Type κ} (a b : A) → ◌≡◌ {A = Result E A} (ok a) (ok b) → a ≡ b
ok_inj a b h = cc

pub err_ok {ℓ κ} :
    {E : Type ℓ} {A : Type κ} {e : E} {a : A} → ◌≡◌ {A = Result E A} (err e) (ok a) → ⊥
err_ok h = cc
