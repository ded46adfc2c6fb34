-- ===== src/Prelude/Sums.antt =====
-- Sums over lists.
use Prim.Native.Nat.{ℕ, ◌+◌}
use mathlib.Core.Path.{◌≡◌, refl, ap, fun_ext}
use mathlib.Core.Bool.{Bool}
use mathlib.Core.List.{List, [], ◌∷◌, map}
use native.Mathlib.Omega.{arith}
use cream_bots.Prelude.Tests.{if◌then◌else◌}
use cream_bots.Prelude.Lists.{select, count_if}

module _ {ℓ} {A : Type ℓ} where
  unfoldable pub total : (A → ℕ) → List A → ℕ
  total f [] = 0
  total f (x ∷ xs) = f x + total f xs

  pub total-add : (f g : A → ℕ) (xs : List A) → total f xs + total g xs ≡ total (λ x. f x + g x) xs
  unfolding total
  total-add f g [] = omega arith
  total-add f g (x ∷ xs) = omega (arith, total-add f g xs)

  pub total_congr : (f g : A → ℕ) (xs : List A) → ((x : A) → f x ≡ g x) → total f xs ≡ total g xs
  total_congr f g xs h = ap (λ k. total k xs) (fun_ext h)

  pub total_zero : (f : A → ℕ) (xs : List A) → ((x : A) → f x ≡ 0) → total f xs ≡ 0
  unfolding total
  total_zero f [] h = refl
  total_zero f (x ∷ xs) h = omega (arith, h x, total_zero f xs h)

  pub count_if-map-select {κ} :
      {B : Type κ} (q : B → Bool) (f : A → B) (test : A → Bool) (xs : List A)
      → count_if q (map f (select test xs))
        ≡ total (λ x. if q (f x) then (if test x then 1 else 0) else 0) xs
  unfolding count_if select total
  count_if-map-select q f test [] = refl
  count_if-map-select q f test (x ∷ xs) = ground (arith, count_if-map-select q f test xs)
