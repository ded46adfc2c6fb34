-- ===== src/Prelude/Lists.antt =====
-- Lists: Python's comprehensions and tests over Boolean conditions, measured by native numbers.
use Prim.Native.Nat.{ℕ, zero, suc, ◌+◌, ◌≤◌}
use mathlib.Core.Path.{◌≡◌, refl, sym, subst}
use mathlib.Core.Logic.{inl, inr}
use mathlib.Core.Bool.{Bool, true, false, ◌||◌}
use mathlib.Core.Option.{Option, none, some}
use mathlib.Core.List.{List, [], ◌∷◌, ◌++◌, Memᴰ}
use mathlib.Core.List.Memᴰ
use mathlib.Core.List.Memᴰ.{head, tail}
use cream_bots.Prelude.Tests.{if◌then◌else◌, Bool-cases}
use native.Mathlib.Omega.{arith}

module _ {ℓ} {A : Type ℓ} where
  abbrev pub length : List A → ℕ
  length [] = 0
  length (x ∷ xs) = suc (length xs)

  pub length-append : (xs ys : List A) → length (xs ++ ys) ≡ length xs + length ys
  length-append [] ys = omega arith
  length-append (x ∷ xs) ys = omega (arith, length-append xs ys)

  -- `[x for x in xs if test(x)]`
  unfoldable pub select : (A → Bool) → List A → List A
  select test [] = []
  select test (x ∷ xs) = let rest = select test xs in if test x then x ∷ rest else rest

  -- `any(test(x) for x in xs)`
  unfoldable pub any : (A → Bool) → List A → Bool
  any test [] = false
  any test (x ∷ xs) = test x || any test xs

  -- How many items pass a test.
  unfoldable pub count_if : (A → Bool) → List A → ℕ
  count_if test [] = 0
  count_if test (x ∷ xs) = let rest = count_if test xs in if test x then suc rest else rest

  pub count_if-append :
      (test : A → Bool) (xs ys : List A)
      → count_if test (xs ++ ys) ≡ count_if test xs + count_if test ys
  unfolding count_if
  count_if-append test [] ys = omega arith
  count_if-append test (x ∷ xs) ys = ground (arith, count_if-append test xs ys)

  pub select-append :
      (test : A → Bool) (xs ys : List A) → select test (xs ++ ys) ≡ select test xs ++ select test ys
  unfolding select
  select-append test [] ys = refl
  select-append test (x ∷ xs) ys = ground (arith, select-append test xs ys)

  pub length-select-le : (test : A → Bool) (xs : List A) → length (select test xs) ≤ length xs
  unfolding select
  length-select-le test [] = omega arith
  length-select-le test (x ∷ xs) = ground (arith, length-select-le test xs)

  -- What a selection holds: the items that pass, and no other.
  pub mem-select :
      (test : A → Bool) (xs : List A) {a : A} → Memᴰ a xs → test a ≡ true → Memᴰ a (select test xs)
  unfolding select
  mem-select test [] m h = absurd (Memᴰ.not-nil m)
  mem-select test (x ∷ xs) (head e) h = rw (← e, h) (head refl)
  mem-select test (x ∷ xs) (tail m) h = elim (Bool-cases (test x)) [
    | inl p ↦ rw p (tail (mem-select test xs m h))
    | inr p ↦ rw p (mem-select test xs m h)
  ]

  pub mem_of_select :
      (test : A → Bool) (xs : List A) {a : A}
      → Memᴰ a (select test xs)
      → Memᴰ a xs × (test a ≡ true)
  unfolding select
  mem_of_select test [] m = absurd (Memᴰ.not-nil m)
  mem_of_select test (x ∷ xs) {a} m = elim (Bool-cases (test x)) [
    | inl p ↦
        let m' : Memᴰ a (x ∷ select test xs) = rw p at m in
        elim (Memᴰ.cases_cons m') [
          | inl e ↦ (head e, rw e p)
          | inr n ↦ let (old, passes) = mem_of_select test xs n in (tail old, passes)
        ]
    | inr p ↦
        let m' : Memᴰ a (select test xs) = rw p at m in
        let (old, passes) = mem_of_select test xs m' in (tail old, passes)
  ]

  pub any_of_mem :
      (test : A → Bool) (xs : List A) {a : A} → Memᴰ a xs → test a ≡ true → any test xs ≡ true
  unfolding any
  any_of_mem test [] m h = absurd (Memᴰ.not-nil m)
  any_of_mem test (x ∷ xs) (head e) h = rw (← e, h)
  any_of_mem test (x ∷ xs) (tail m) h = ground (arith, any_of_mem test xs m h)

  pub mem_of_any :
      (test : A → Bool) (xs : List A) → any test xs ≡ true → (a : A) × Memᴰ a xs × (test a ≡ true)
  unfolding any
  mem_of_any test [] h = cc
  mem_of_any test (x ∷ xs) h = elim (Bool-cases (test x)) [
    | inl p ↦ (x, head refl, p)
    | inr p ↦ let (a, m, passes) = mem_of_any test xs (rw p at h) in (a, tail m, passes)
  ]

module _ {ℓ} {A : Type ℓ} where
  -- `xs[i]`, if there is one.
  abbrev pub get_elem? : List A → ℕ → Option A
  get_elem? [] i = none
  get_elem? (x ∷ xs) zero = some x
  get_elem? (x ∷ xs) (suc i) = get_elem? xs i

  -- Every item has the property.
  abbrev pub All {κ} : (A → Type κ) → List A → Type κ
  All P [] = Unit
  All P (x ∷ xs) = P x × All P xs

  pub All-append {κ} : (P : A → Type κ) (xs ys : List A) → All P xs → All P ys → All P (xs ++ ys)
  All-append P [] ys hx hy = hy
  All-append P (x ∷ xs) ys hx hy = (hx.0, All-append P xs ys hx.1 hy)

  pub All-mem {κ} : (P : A → Type κ) (xs : List A) → All P xs → (a : A) → Memᴰ a xs → P a
  All-mem P [] h a m = absurd (Memᴰ.not-nil m)
  All-mem P (x ∷ xs) h a (head e) = subst P (sym e) h.0
  All-mem P (x ∷ xs) h a (tail m) = All-mem P xs h.1 a m
