-- ===== src/Prelude/Precedes.antt =====
-- The order of two items in a list.
use mathlib.Core.Path.{◌≡◌}
use mathlib.Core.Logic.{◌⊎◌, inl, inr}
use mathlib.Core.Bool.{Bool, true}
use mathlib.Core.List.{List, [], ◌∷◌, Memᴰ}
use cream_bots.Prelude.Tests.{Bool-cases}
use cream_bots.Prelude.Lists.{select, mem_of_select}
use cream_bots.Prelude.Sort.{IsSorted}

-- `a` stands in the list, and `b` somewhere behind it.
pub data Precedes {ℓ} {A : Type ℓ} (a b : A) : List A → Type ℓ where
  first : {x : A} {xs : List A} → a ≡ x → Memᴰ b xs → Precedes a b (x ∷ xs)
  later : {x : A} {xs : List A} → Precedes a b xs → Precedes a b (x ∷ xs)

module _ {ℓ} {A : Type ℓ} where
  not-Precedes-nil : {a b : A} → ¬ Precedes a b []
  not-Precedes-nil h = elim h [ ]

  Precedes-cases :
      {a b x : A} {xs : List A} → Precedes a b (x ∷ xs) → (a ≡ x) × Memᴰ b xs ⊎ Precedes a b xs
  Precedes-cases (first e m) = inl (e, m)
  Precedes-cases (later p) = inr p

  pub Precedes-of_select :
      {a b : A} (test : A → Bool) (xs : List A) → Precedes a b (select test xs) → Precedes a b xs
  unfolding select
  Precedes-of_select test [] p = p
  Precedes-of_select {a} {b} test (x ∷ xs) p = elim (Bool-cases (test x)) [
    | inl t ↦
        let p' : Precedes a b (x ∷ select test xs) = rw t at p in
        elim (Precedes-cases p') [
          | inl (e, m) ↦ first e (mem_of_select test xs m).0
          | inr q ↦ later (Precedes-of_select test xs q)
        ]
    | inr t ↦ later (Precedes-of_select test xs (rw t at p))
  ]

  pub before_of_Precedes :
      {a b : A} (before : A → A → Bool) (xs : List A)
      → IsSorted before xs
      → Precedes a b xs
      → before a b ≡ true
  before_of_Precedes before [] s p = absurd (not-Precedes-nil p)
  before_of_Precedes {a} {b} before (x ∷ xs) s p = elim (Precedes-cases p) [
    | inl (e, m) ↦ rw e (s.0 b m)
    | inr q ↦ before_of_Precedes before xs s.1 q
  ]

  pub mem_of_Precedes : {a b : A} (xs : List A) → Precedes a b xs → Memᴰ a xs × Memᴰ b xs
  mem_of_Precedes [] p = absurd (not-Precedes-nil p)
  mem_of_Precedes (x ∷ xs) p = elim (Precedes-cases p) [
    | inl (e, m) ↦ (Memᴰ.head e, Memᴰ.tail m)
    | inr q ↦ let (m, n) = mem_of_Precedes xs q in (Memᴰ.tail m, Memᴰ.tail n)
  ]
