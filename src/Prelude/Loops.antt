-- ===== src/Prelude/Loops.antt =====
-- A `for` loop whose body may raise, and the lists that loops run over.
use mathlib.Core.Path.{◌≡◌, refl, ap, sym, ◌∙◌}
use mathlib.Core.Logic.{◌≢◌, ◌⊎◌, inl, inr}
use mathlib.Core.List.{List, [], ◌∷◌, ◌++◌, map, Memᴰ}
use mathlib.Core.List.Memᴰ
use mathlib.Core.List.Memᴰ.{head, tail}
use cream_bots.Prelude.Outcome.{Exception, Result, Result-cases, ok, raise, ◌>>=◌}

module _ {ℓ} {A D : Type ℓ} where
  unfoldable pub for_each : (A → D → Result D) → List A → D → Result D
  for_each f [] d = ok d
  for_each f (x ∷ xs) d = do d' ← f x d; for_each f xs d'

-- The code returns, and leads from P to Q.
abbrev pub Runs {ℓ} : {D : Type ℓ} → (D → Type ℓ) → (D → Type ℓ) → (D → Result D) → Type ℓ
Runs {D = D} P Q m = (d : D) → P d → (d' : D) × (m d ≡ ok d') × Q d'

-- The code returns with P, or ends by an exception with E.
abbrev pub Ending {ℓ} : {D : Type ℓ} → (D → Type ℓ) → (Exception → Type ℓ) → Result D → Type ℓ
Ending {D = D} P E r = ((d : D) × (r ≡ ok d) × P d) ⊎ ((e : Exception) × (r ≡ raise e) × E e)

module _ {ℓ} {A D : Type ℓ} (f : A → D → Result D) where
  pub for_each-Ending :
      (P : D → Type ℓ) (E : Exception → Type ℓ) (xs : List A)
      → ((a : A) → Memᴰ a xs → (d : D) → P d → Ending P E (f a d))
      → (d : D) → P d
      → Ending P E (for_each f xs d)
  unfolding for_each
  for_each-Ending P E [] step d p = inl (d, refl, p)
  for_each-Ending P E (x ∷ xs) step d p = elim (step x (head refl) d p) [
    | inl (d', done, q) ↦ rw done (for_each-Ending P E xs (λ a m. step a (tail m)) d' q)
    | inr (e, raised, why) ↦ rw raised (inr (e, refl, why))
  ]

  pub for_each-Runs :
      (P : D → Type ℓ) (xs : List A)
      → ((a : A) → Memᴰ a xs → Runs P P (f a))
      → Runs P P (for_each f xs)
  unfolding for_each
  for_each-Runs P [] step d p = (d, refl, p)
  for_each-Runs P (x ∷ xs) step d p =
      let (d₁, e₁, p₁) = step x (head refl) d p in
      let (d₂, e₂, p₂) = for_each-Runs P xs (λ a m. step a (tail m)) d₁ p₁ in (d₂, rw e₁ e₂, p₂)

  -- A round that always raises ends the loop.
  pub for_each-raises :
      (xs : List A) {x : A}
      → Memᴰ x xs
      → ((d : D) → (e : Exception) × (f x d ≡ raise e))
      → (d : D) → (e : Exception) × (for_each f xs d ≡ raise e)
  unfolding for_each
  for_each-raises [] m bad d = absurd (Memᴰ.not-nil m)
  for_each-raises (y ∷ xs) (head h) bad d = let (e, r) = (rw h at bad) d in (e, rw r refl)
  for_each-raises (y ∷ xs) (tail m) bad d = elim (Result-cases (f y d)) [
    | inl (d', r) ↦ rw r (for_each-raises xs m bad d')
    | inr (e, r) ↦ (e, rw r refl)
  ]

  -- What one round establishes and no round undoes.
  pub for_each-reaches :
      (P Q : D → Type ℓ) (xs : List A) {x : A}
      → ((a : A) → Memᴰ a xs → Runs P P (f a))
      → ((a : A) → Memᴰ a xs → Runs Q Q (f a))
      → Memᴰ x xs
      → Runs P Q (f x)
      → Runs P Q (for_each f xs)
  unfolding for_each
  for_each-reaches P Q [] keep stay m one d p = absurd (Memᴰ.not-nil m)
  for_each-reaches P Q (y ∷ xs) keep stay (head e) one d p =
      let (d₁, e₁, q₁) = (rw e at one) d p in
      let (d₂, e₂, q₂) = for_each-Runs Q xs (λ a m. stay a (tail m)) d₁ q₁ in (d₂, rw e₁ e₂, q₂)
  for_each-reaches P Q (y ∷ xs) keep stay (tail m) one d p =
      let (d₁, e₁, p₁) = keep y (head refl) d p in
      let (d₂, e₂, q₂) =
        for_each-reaches P Q xs (λ a n. keep a (tail n)) (λ a n. stay a (tail n)) m one d₁ p₁ in
      (d₂, rw e₁ e₂, q₂)

module _ {ℓ} {A B : Type ℓ} where
  pub mem-pairs :
      (x : A) (ys : List B) {a : A} {b : B}
      → a ≡ x
      → Memᴰ b ys
      → Memᴰ {A = A × B} (a, b) (map (λ y. (x, y)) ys)
  mem-pairs x ys e m = rw e (Memᴰ.map (λ y. (x, y)) m)

  -- itertools.product
  unfoldable pub product : List A → List B → List (A × B)
  product [] ys = []
  product (x ∷ xs) ys = map (λ y. (x, y)) ys ++ product xs ys

  pub mem-product :
      (xs : List A) (ys : List B) {a : A} {b : B}
      → Memᴰ a xs
      → Memᴰ b ys
      → Memᴰ (a, b) (product xs ys)
  unfolding product
  mem-product [] ys m n = absurd (Memᴰ.not-nil m)
  mem-product (x ∷ xs) ys {a} {b} (head e) n = Memᴰ.append_left _ (mem-pairs x _ e n)
  mem-product (x ∷ xs) ys (tail m) n = Memᴰ.append_right _ (mem-product xs ys m n)

  pub mem_of_product :
      (xs : List A) (ys : List B) {p : A × B} → Memᴰ p (product xs ys) → Memᴰ p.0 xs × Memᴰ p.1 ys
  unfolding product
  mem_of_product [] ys m = absurd (Memᴰ.not-nil m)
  mem_of_product (x ∷ xs) ys m = elim (Memᴰ.append_cases (map (λ y. (x, y)) ys) m) [
    | inl l ↦
        let (y, n, e) = Memᴰ.of_map (λ y. (x, y)) ys l in
        (head (ap (λ q. q.0) (sym e)), Memᴰ.cast (ap (λ q. q.1) (sym e)) n)
    | inr r ↦ let (left, right) = mem_of_product xs ys r in (tail left, right)
  ]

module _ {ℓ} {A : Type ℓ} where
  -- itertools.combinations(xs, 2)
  unfoldable pub combinations : List A → List (A × A)
  combinations [] = []
  combinations (x ∷ xs) = map (λ y. (x, y)) xs ++ combinations xs

  pub mem-combinations :
      (xs : List A) {a b : A}
      → Memᴰ a xs
      → Memᴰ b xs
      → a ≢ b
      → Memᴰ (a, b) (combinations xs) ⊎ Memᴰ (b, a) (combinations xs)
  unfolding combinations
  mem-combinations [] m n apart = absurd (Memᴰ.not-nil m)
  mem-combinations (x ∷ xs) (head e) (head h) apart = absurd (apart (e ∙ sym h))
  mem-combinations (x ∷ xs) (head e) (tail n) apart = inl (Memᴰ.append_left _ (mem-pairs x _ e n))
  mem-combinations (x ∷ xs) (tail m) (head h) apart = inr (Memᴰ.append_left _ (mem-pairs x _ h m))
  mem-combinations (x ∷ xs) (tail m) (tail n) apart = elim (mem-combinations xs m n apart) [
    | inl l ↦ inl (Memᴰ.append_right _ l)
    | inr r ↦ inr (Memᴰ.append_right _ r)
  ]

  pub mem_of_combinations :
      (xs : List A) {p : A × A} → Memᴰ p (combinations xs) → Memᴰ p.0 xs × Memᴰ p.1 xs
  unfolding combinations
  mem_of_combinations [] m = absurd (Memᴰ.not-nil m)
  mem_of_combinations (x ∷ xs) m = elim (Memᴰ.append_cases (map (λ y. (x, y)) xs) m) [
    | inl l ↦
        let (y, n, e) = Memᴰ.of_map (λ y. (x, y)) xs l in
        (head (ap (λ q. q.0) (sym e)), tail (Memᴰ.cast (ap (λ q. q.1) (sym e)) n))
    | inr r ↦ let (left, right) = mem_of_combinations xs r in (tail left, tail right)
  ]
