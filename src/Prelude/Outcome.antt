-- ===== src/Prelude/Outcome.antt =====
-- Python's exceptions as values. `out_of_fuel` is none of them: it marks a `while` loop that has
-- not ended within the rounds that the model grants it.
use mathlib.Core.Path.{◌≡◌, refl, ap}
use mathlib.Core.Logic.{◌⊎◌, inl, inr}

pub data Exception : Type 0 where
  arbitrage_error attribute_error value_error key_error index_error type_error : Exception
  assertion_error manager_error external_update_error unbound_error : Exception
  other_error out_of_fuel : Exception

pub data Result {ℓ} (A : Type ℓ) : Type ℓ where
  ok : A → Result A
  raise : Exception → Result A

infixl 5 ◌>>=◌ ◌>>◌
abbrev pub ◌>>=◌ {ℓ κ} : {A : Type ℓ} {B : Type κ} → Result A → (A → Result B) → Result B
ok a >>= f = f a
raise e >>= f = raise e

abbrev pub ◌>>◌ {ℓ κ} : {A : Type ℓ} {B : Type κ} → Result A → Result B → Result B
m >> k = m >>= λ _. k

pub Result-cases {ℓ} :
    {A : Type ℓ} (r : Result A) → ((a : A) × (r ≡ ok a)) ⊎ ((e : Exception) × (r ≡ raise e))
Result-cases (ok a) = inl (a, refl)
Result-cases (raise e) = inr (e, refl)

pub ok-injective {ℓ} : {A : Type ℓ} {a b : A} → ok a ≡ ok b → a ≡ b
ok-injective {A} {a} {b} e = ap returned e
  where
    returned : Result A → A
    returned (ok x) = x
    returned (raise _) = a

pub raise-ne-ok {ℓ} : {A : Type ℓ} {e : Exception} {a : A} → ¬ (raise e ≡ ok a)
raise-ne-ok h = cc
