-- ===== src/Prelude/Results.antt =====
-- Rust's `Result`, and what `?` does.
use mathlib.Core.Path.{◌≡◌, refl}
use mathlib.Core.Logic.{◌⊎◌, inl, inr}
use mathlib.Core.Bool.{Bool, true, false}

pub data Result {ℓ κ} (E : Type ℓ) (A : Type κ) : Type (ℓ ⊔ κ) where
  ok : A → Result E A
  err : E → Result E A

module _ {ℓ κ} {E : Type ℓ} where
  infixl 5 ◌>>=◌ ◌>>◌
  abbrev pub ◌>>=◌ : {A B : Type κ} → Result E A → (A → Result E B) → Result E B
  ok a >>= f = f a
  err e >>= f = err e

  abbrev pub ◌>>◌ : {B : Type κ} → Result E (Unit {κ}) → Result E B → Result E B
  m >> k = m >>= λ _. k

  abbrev pub is_ok : {A : Type κ} → Result E A → Bool
  is_ok (ok a) = true
  is_ok (err e) = false

-- What `?` lets through: the value that came first, and what was made of it.
pub bind_ok {ℓ κ} :
    {E : Type ℓ} {A B : Type κ} (r : Result E A) (next : A → Result E B) {last : B}
    → (r >>= next) ≡ ok last
    → (first : A) × (r ≡ ok first) × (next first ≡ ok last)
bind_ok (err e) next made = cc
bind_ok (ok first) next made = (first, refl, made)

pub Result-cases {ℓ κ} :
    {E : Type ℓ} {A : Type κ} (r : Result E A) → ((a : A) × (r ≡ ok a)) ⊎ ((e : E) × (r ≡ err e))
Result-cases (ok a) = inl (a, refl)
Result-cases (err e) = inr (e, refl)
