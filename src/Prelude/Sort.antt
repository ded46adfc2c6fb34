-- ===== src/Prelude/Sort.antt =====
-- Python's `sorted`: a stable sort. `before x y` says that `x` may stand in front of `y`; of two
-- items that may stand either way, the one that came first stays first.
use mathlib.Core.Path.{◌≡◌, refl}
use mathlib.Core.Logic.{◌⊎◌, inl, inr}
use mathlib.Core.Bool.{Bool, true, false}
use mathlib.Core.List.{List, [], ◌∷◌, Memᴰ, Perm}
use mathlib.Core.List.Memᴰ
use mathlib.Core.List.Memᴰ.{head, tail}
use mathlib.Core.List.Perm
use native.Mathlib.Omega.{arith}
use cream_bots.Prelude.Tests.{if◌then◌else◌, Bool-cases}
use cream_bots.Prelude.Lists.{select}

module _ {ℓ} {A : Type ℓ} (before : A → A → Bool) where
  unfoldable pub insert : A → List A → List A
  insert x [] = x ∷ []
  insert x (y ∷ ys) = if before x y then x ∷ y ∷ ys else y ∷ insert x ys

  unfoldable pub sorted : List A → List A
  unfolding insert
  sorted [] = []
  sorted (x ∷ xs) = insert x (sorted xs)

  -- Each item may stand in front of all that follow.
  abbrev pub IsSorted : List A → Type ℓ
  IsSorted [] = Unit
  IsSorted (x ∷ xs) = ((y : A) → Memᴰ y xs → before x y ≡ true) × IsSorted xs

  insert-perm : (x : A) (ys : List A) → Perm (insert x ys) (x ∷ ys)
  unfolding insert
  insert-perm x [] = Perm.rfl
  insert-perm x (y ∷ ys) = elim (Bool-cases (before x y)) [
    | inl p ↦ rw p Perm.rfl
    | inr p ↦ rw p (Perm.trans (Perm.cons y (insert-perm x ys)) (Perm.swap x y ys))
  ]

  -- A sort only changes the order.
  pub sorted-perm : (xs : List A) → Perm (sorted xs) xs
  unfolding sorted
  sorted-perm [] = Perm.rfl
  sorted-perm (x ∷ xs) = Perm.trans (insert-perm x (sorted xs)) (Perm.cons x (sorted-perm xs))

  mem_of_insert : (x : A) (ys : List A) {a : A} → Memᴰ a (insert x ys) → (a ≡ x) ⊎ Memᴰ a ys
  unfolding insert
  mem_of_insert x [] m = Memᴰ.cases_cons m
  mem_of_insert x (y ∷ ys) {a} m = elim (Bool-cases (before x y)) [
    | inl p ↦ let m' : Memᴰ a (x ∷ y ∷ ys) = rw p at m in Memᴰ.cases_cons m'
    | inr p ↦
        let m' : Memᴰ a (y ∷ insert x ys) = rw p at m in
        elim (Memᴰ.cases_cons m') [
          | inl e ↦ inr (head e)
          | inr n ↦ elim (mem_of_insert x ys n) [ inl e ↦ inl e | inr old ↦ inr (tail old) ]
        ]
  ]

  pub mem_of_sorted : (xs : List A) {a : A} → Memᴰ a (sorted xs) → Memᴰ a xs
  unfolding sorted
  mem_of_sorted [] m = m
  mem_of_sorted (x ∷ xs) m = elim (mem_of_insert x (sorted xs) m) [
    | inl e ↦ head e
    | inr old ↦ tail (mem_of_sorted xs old)
  ]

  mem-insert : (x : A) (ys : List A) {a : A} → (a ≡ x) ⊎ Memᴰ a ys → Memᴰ a (insert x ys)
  unfolding insert
  mem-insert x [] (inl e) = head e
  mem-insert x [] (inr m) = absurd (Memᴰ.not-nil m)
  mem-insert x (y ∷ ys) {a} m = elim (Bool-cases (before x y)) [
    | inl p ↦ rw p (elim m [ inl e ↦ head e | inr old ↦ tail old ])
    | inr p ↦ rw p (elim m [
      | inl e ↦ tail (mem-insert x ys (inl e))
      | inr old ↦ elim (Memᴰ.cases_cons old) [
        | inl e ↦ head e
        | inr n ↦ tail (mem-insert x ys (inr n))
      ]
    ])
  ]

  pub mem-sorted : (xs : List A) {a : A} → Memᴰ a xs → Memᴰ a (sorted xs)
  unfolding sorted
  mem-sorted [] m = m
  mem-sorted (x ∷ xs) (head e) = mem-insert x (sorted xs) (inl e)
  mem-sorted (x ∷ xs) (tail m) = mem-insert x (sorted xs) (inr (mem-sorted xs m))

  module _ (total : (x y : A) → before x y ≡ false → before y x ≡ true)
      (trans : (x y z : A) → before x y ≡ true → before y z ≡ true → before x z ≡ true) where
    insert-IsSorted : (x : A) (ys : List A) → IsSorted ys → IsSorted (insert x ys)
    unfolding insert
    insert-IsSorted x [] h = (λ y m. absurd (Memᴰ.not-nil m), tt)
    insert-IsSorted x (y ∷ ys) h = elim (Bool-cases (before x y)) [
      | inl p ↦
          rw p (
            λ z m. elim (Memᴰ.cases_cons m) [ inl e ↦ rw e p | inr n ↦ trans x y z p (h.0 z n) ],
            h,
          )
      | inr p ↦ rw p (
        λ z m. elim (mem_of_insert x ys m) [ inl e ↦ rw e (total x y p) | inr n ↦ h.0 z n ],
        insert-IsSorted x ys h.1,
      )
    ]

    pub sorted-IsSorted : (xs : List A) → IsSorted (sorted xs)
    unfolding sorted
    sorted-IsSorted [] = tt
    sorted-IsSorted (x ∷ xs) = insert-IsSorted x (sorted xs) (sorted-IsSorted xs)

  select-insert :
      (test : A → Bool) (x : A) (ys : List A)
      → ((y : A) → test x ≡ true → test y ≡ true → before x y ≡ true)
      → select test (insert x ys) ≡ select test (x ∷ ys)
  unfolding insert select
  select-insert test x [] tie = refl
  select-insert test x (y ∷ ys) tie = ground (arith, select-insert test x ys tie, tie y)

  -- A sort is stable: items that may stand either way keep their order.
  pub select-sorted :
      (test : A → Bool) (xs : List A)
      → ((x y : A) → test x ≡ true → test y ≡ true → before x y ≡ true)
      → select test (sorted xs) ≡ select test xs
  unfolding sorted select
  select-sorted test [] tie = refl
  select-sorted test (x ∷ xs) tie =
      rw (select-insert test x (sorted xs) (tie x), select) (rw (select-sorted test xs tie))
