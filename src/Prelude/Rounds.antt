-- ===== src/Prelude/Rounds.antt =====
-- A `for` loop whose body works on a state.
use mathlib.Core.Path.{◌≡◌, refl, sym, ap, ◌∙◌}
use mathlib.Core.Logic.{◌≢◌}
use mathlib.Core.List.{List, [], ◌∷◌, Memᴰ}
use mathlib.Core.List.Memᴰ
use mathlib.Core.List.Memᴰ.{head, tail}
use cream_bots.Prelude.Outcome.{ok}
use cream_bots.Prelude.Exec.{Exec, pure, ◌>>=◌}

module _ {S A : Type 0} where
  unfoldable pub rounds : (A → Exec S (Unit {0})) → List A → Exec S (Unit {0})
  unfolding pure ◌>>=◌
  rounds f [] = pure tt
  rounds f (x ∷ xs) = do _ ← f x; rounds f xs

-- The code returns, and leads from P to Q.
abbrev pub Returns : {S : Type 0} → (S → Type 0) → (S → Type 0) → Exec S (Unit {0}) → Type 0
Returns {S = S} P Q m = (s : S) → P s → (s' : S) × (m s ≡ (s', ok tt)) × Q s'

module _ {S : Type 0} (P Q R : S → Type 0) where
  -- One after the other.
  pub bind-Returns :
      (m n : Exec S (Unit {0})) → Returns P Q m → Returns Q R n → Returns P R (m >>= λ _. n)
  unfolding ◌>>=◌
  bind-Returns m n first second s p =
      let (s₁, e₁, q) = first s p in let (s₂, e₂, r) = second s₁ q in (s₂, rw e₁ e₂, r)

module _ {S A : Type 0} (f : A → Exec S (Unit {0})) where
  pub rounds-Returns :
      (P : S → Type 0) (xs : List A)
      → ((a : A) → Memᴰ a xs → Returns P P (f a))
      → Returns P P (rounds f xs)
  unfolding rounds pure
  rounds-Returns P [] step = λ s p. (s, refl, p)
  rounds-Returns P (x ∷ xs) step =
      bind-Returns P P P (f x) (rounds f xs) (step x (head refl))
        (rounds-Returns P xs (λ a m. step a (tail m)))

  -- What one round establishes and no round undoes.
  pub rounds-reaches :
      (P Q : S → Type 0) (xs : List A) {x : A}
      → ((a : A) → Memᴰ a xs → Returns P P (f a))
      → ((a : A) → Memᴰ a xs → Returns Q Q (f a))
      → Memᴰ x xs
      → Returns P Q (f x)
      → Returns P Q (rounds f xs)
  unfolding rounds
  rounds-reaches P Q [] keep stay m one = absurd (Memᴰ.not-nil m)
  rounds-reaches P Q (y ∷ xs) keep stay (head e) one =
      bind-Returns P Q Q (f y) (rounds f xs) (rw e at one)
        (rounds-Returns Q xs (λ a n. stay a (tail n)))
  rounds-reaches P Q (y ∷ xs) keep stay (tail m) one =
      bind-Returns P P Q (f y) (rounds f xs) (keep y (head refl))
        (rounds-reaches P Q xs (λ a n. keep a (tail n)) (λ a n. stay a (tail n)) m one)

-- No two items have one key.
abbrev pub NodupBy : {A K : Type 0} → (A → K) → List A → Type 0
NodupBy key [] = Unit {0}
NodupBy key (x ∷ xs) = ((y : _) → Memᴰ y xs → key x ≢ key y) × NodupBy key xs

module _ {S A K : Type 0} (f : A → Exec S (Unit {0})) (key : A → K) where
  -- The round of one item, between those of the items with other keys.
  pub rounds-one :
      (P Q : S → Type 0) (xs : List A) (x : A)
      → NodupBy key xs
      → Memᴰ x xs
      → ((a : A) → Memᴰ a xs → key a ≢ key x → Returns P P (f a))
      → ((a : A) → Memᴰ a xs → key a ≢ key x → Returns Q Q (f a))
      → Returns P Q (f x)
      → Returns P Q (rounds f xs)
  unfolding rounds
  rounds-one P Q [] x nodup m before after one = absurd (Memᴰ.not-nil m)
  rounds-one P Q (y ∷ xs) x (apart, nodup) (head e) before after one =
      bind-Returns P Q Q (f y) (rounds f xs) (rw e at one) (
        rounds-Returns f Q xs
          (λ a n. after a (tail n) (λ same. apart a n (ap key (sym e) ∙ sym same))))
  rounds-one P Q (y ∷ xs) x (apart, nodup) (tail m) before after one =
      bind-Returns P P Q (f y) (rounds f xs) (before y (head refl) (apart x m))
        (rounds-one P Q xs x nodup m (λ a n. before a (tail n)) (λ a n. after a (tail n)) one)
