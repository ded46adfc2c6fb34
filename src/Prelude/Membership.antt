-- ===== src/Prelude/Membership.antt =====
-- Python's `in`, `set.add` and `list.remove`, at items with a decidable equality.
use mathlib.Core.Path.{◌≡◌, refl, ap}
use mathlib.Core.Logic.{◌⊎◌, inl, inr, ◌≢◌}
use mathlib.Core.Bool.{Bool, true, false, not}
use mathlib.Core.List.{List, [], ◌∷◌, ◌++◌, Memᴰ, append_assoc}
use mathlib.Core.List.Memᴰ
use mathlib.Core.List.Memᴰ.{head, tail}
use cream_bots.Prelude.Tests.{if◌then◌else◌, Bool-cases}
use cream_bots.Prelude.Lists.{any, any_of_mem, mem_of_any, select}
use cream_bots.Prelude.Equality.{holds, holds_of, of_holds}
use cream_bots.Prelude.Outcome.{Result, ok, raise, value_error, ◌>>=◌}

module _ {ℓ} {A : Type ℓ} (dec : Discrete A) where
  -- `a in xs`
  unfoldable pub contains : List A → A → Bool
  unfolding any
  contains xs a = any (λ x. holds (dec a x)) xs

  pub contains_of_mem : (xs : List A) {a : A} → Memᴰ a xs → contains xs a ≡ true
  unfolding contains
  contains_of_mem xs {a} m = any_of_mem _ xs m (holds_of (dec a a) refl)

  pub mem_of_contains : (xs : List A) (a : A) → contains xs a ≡ true → Memᴰ a xs
  unfolding contains
  mem_of_contains xs a h =
      let (x, m, same) = mem_of_any _ xs h in Memᴰ.cast (of_holds (dec a x) same) m

  pub not-mem_of_contains : (xs : List A) {a : A} → contains xs a ≡ false → ¬ Memᴰ a xs
  not-mem_of_contains xs h m = cc (h, contains_of_mem xs m)

  -- `s.add(a)`, on a set as the list of its items.
  unfoldable pub add : A → List A → List A
  unfolding contains
  add a xs = if contains xs a then xs else xs ++ a ∷ []

  pub mem-add_self : (a : A) (xs : List A) → Memᴰ a (add a xs)
  unfolding add
  mem-add_self a xs = elim (Bool-cases (contains xs a)) [
    | inl old ↦ rw old (mem_of_contains xs a old)
    | inr new ↦ rw new (Memᴰ.append_right xs (head refl))
  ]

  pub mem-add : (a : A) (xs : List A) {b : A} → Memᴰ b xs → Memᴰ b (add a xs)
  unfolding add
  mem-add a xs m = elim (Bool-cases (contains xs a)) [
    | inl old ↦ rw old m
    | inr new ↦ rw new (Memᴰ.append_left _ m)
  ]

  pub mem_of_add : (a : A) (xs : List A) {b : A} → Memᴰ b (add a xs) → (b ≡ a) ⊎ Memᴰ b xs
  unfolding add
  mem_of_add a xs {b} m = elim (Bool-cases (contains xs a)) [
    | inl old ↦ inr (rw old at m)
    | inr new ↦
        let m' : Memᴰ b (xs ++ a ∷ []) = rw new at m in
        elim (Memᴰ.append_cases xs m') [ inl n ↦ inr n | inr n ↦ inl (Memᴰ.eq_of_singleton n) ]
  ]

  -- `xs.remove(a)`: drops the first item that equals `a`.
  unfoldable pub remove : A → List A → Result (List A)
  remove a [] = raise value_error
  remove a (x ∷ xs) =
      let rest = (do xs' ← remove a xs; ok (x ∷ xs')) in if holds (dec a x) then ok xs else rest

  -- `for a in gone: xs.remove(a)`
  unfoldable pub remove_all : List A → List A → Result (List A)
  unfolding remove
  remove_all [] xs = ok xs
  remove_all (a ∷ gone) xs = do xs' ← remove a xs; remove_all gone xs'

  remove_first :
      (a : A) (kept xs : List A)
      → ((y : A) → Memᴰ y kept → a ≢ y)
      → remove a (kept ++ a ∷ xs) ≡ ok (kept ++ xs)
  unfolding remove
  remove_first a [] xs other = rw (holds_of (dec a a) refl)
  remove_first a (y ∷ kept) xs other =
      elim (dec a y)
        as (λ d.
          (if holds d
            then ok (kept ++ a ∷ xs)
            else (do xs' ← remove a (kept ++ a ∷ xs); ok (y ∷ xs')))
          ≡ ok (y ∷ (kept ++ xs))) [
            | yes e ↦ absurd (other y (head refl) e)
            | no n ↦ rw (remove_first a kept xs (λ z m. other z (tail m)))
          ]

  remove_all-select_from :
      (test : A → Bool) (kept xs : List A)
      → ((y : A) → Memᴰ y kept → test y ≡ false)
      → remove_all (select test xs) (kept ++ xs) ≡ ok (kept ++ select (λ x. not (test x)) xs)
  unfolding remove_all select
  remove_all-select_from test kept [] fails = refl
  remove_all-select_from test kept (x ∷ xs) fails = elim (Bool-cases (test x)) [
    | inl p ↦
        let other : (y : A) → Memᴰ y kept → x ≢ y = λ y m e. cc (fails y m, p, ap test e) in
        rw (p, remove_first x kept xs other) (remove_all-select_from test kept xs fails)
    | inr p ↦
        let ih = remove_all-select_from test (kept ++ x ∷ []) xs (fails_snoc p) in
        rw p (simp append_assoc at ih)
  ]
    where
      fails_snoc : test x ≡ false → (y : A) → Memᴰ y (kept ++ x ∷ []) → test y ≡ false
      fails_snoc p y m = elim (Memᴰ.append_cases kept m) [
        | inl n ↦ fails y n
        | inr n ↦ rw (Memᴰ.eq_of_singleton n) p
      ]

  -- To remove what a comprehension picked out leaves the items that it did not pick, each in its
  -- place, also where items are equal.
  pub remove_all-select :
      (test : A → Bool) (xs : List A)
      → remove_all (select test xs) xs ≡ ok (select (λ x. not (test x)) xs)
  remove_all-select test xs = remove_all-select_from test [] xs (λ y m. absurd (Memᴰ.not-nil m))
