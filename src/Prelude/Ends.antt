-- ===== src/Prelude/Ends.antt =====
-- Where code on a state may end: by a result or by an exception.
use mathlib.Core.List.{List, [], ◌∷◌, Memᴰ}
use mathlib.Core.List.Memᴰ
use mathlib.Core.List.Memᴰ.{head, tail}
use mathlib.Core.Path.{◌≡◌, refl, subst}
use mathlib.Core.Logic.{inl, inr}
use cream_bots.Prelude.Outcome.{Result, ok, raise}
use cream_bots.Prelude.Exec.{Exec, pure, lift, resume, ◌>>=◌}
use cream_bots.Prelude.Rounds.{rounds}

module _ {S A : Type 0} where
  -- What holds of the state after a result, and after an exception.
  abbrev pub Ends : (A → S → Type 0) → (S → Type 0) → S × Result A → Type 0
  Ends Q E (s, ok a) = Q a s
  Ends Q E (s, raise _) = E s

  -- Weaker ends.
  pub weaken-Ends :
      (Q R : A → S → Type 0) (E F : S → Type 0) (out : S × Result A)
      → Ends Q E out
      → ((a : A) (s : S) → Q a s → R a s)
      → ((s : S) → E s → F s)
      → Ends R F out
  weaken-Ends Q R E F (s, ok a) q on_result on_error = on_result a s q
  weaken-Ends Q R E F (s, raise _) e on_result on_error = on_error s e

module _ {S A B : Type 0} where
  pub bind-Ends :
      (Q : A → S → Type 0) (R : B → S → Type 0) (E : S → Type 0) (m : Exec S A) (k : A → Exec S B)
      (s : S)
      → Ends Q E (m s)
      → ((a : A) (s' : S) → Q a s' → Ends R E (k a s'))
      → Ends R E ((m >>= k) s)
  unfolding ◌>>=◌
  bind-Ends Q R E m k s h next = let (s', r) = m s in go s' r h
    where
      go : (s' : S) (r : Result A) → Ends Q E (s', r) → Ends R E (resume s' r k)
      go s' (ok a) q = next a s' q
      go s' (raise e) q = q

  -- A value that is at hand first.
  pub lift-Ends :
      (R : B → S → Type 0) (E : S → Type 0) (r : Result A) (k : A → Exec S B) (s : S)
      → E s
      → ((a : A) → r ≡ ok a → Ends R E (k a s))
      → Ends R E ((lift r >>= k) s)
  unfolding ◌>>=◌ lift
  lift-Ends R E (ok a) k s e next = next a refl
  lift-Ends R E (raise x) k s e next = e

-- A round keeps what earlier ones have established, and establishes what its item covers.
abbrev pub Round :
    {S K : Type 0} (I : S → Type 0) (Q : K → S → Type 0) → S → S → (K → Type 0) → Type 0
Round {K = K} I Q s s' covered = I s' × ((k : K) → Q k s → Q k s') × ((k : K) → covered k → Q k s')

module _ {S A K : Type 0} (I : S → Type 0) (E : S → Type 0) (Q : K → S → Type 0)
    (f : A → Exec S (Unit {0})) (covers : A → K → Type 0) where
  pub rounds-Ends :
      (xs : List A)
      → ((a : A) → Memᴰ a xs → (s : S) → I s → Ends (λ _ s'. Round I Q s s' (covers a)) E (f a s))
      → (s : S) → I s
      → Ends (λ _ s'. Round I Q s s' (λ k. (a : A) × Memᴰ a xs × covers a k)) E (rounds f xs s)
  unfolding rounds pure
  rounds-Ends [] step s i = (i, λ k q. q, λ k (a, m, c). absurd (Memᴰ.not-nil m))
  rounds-Ends (x ∷ xs) step s i =
      bind-Ends (λ _ s'. Round I Q s s' (covers x))
        (λ _ s'. Round I Q s s' (λ k. (a : A) × Memᴰ a (x ∷ xs) × covers a k)) E (f x)
        (λ _. rounds f xs) s (step x (head refl) s i)
        (λ _ s₁ (i₁, keep₁, new₁).
          later s₁ keep₁ new₁ (rounds f xs s₁) (rounds-Ends xs (λ a m. step a (tail m)) s₁ i₁))
    where
      later :
          (s₁ : S)
          → ((k : K) → Q k s → Q k s₁)
          → ((k : K) → covers x k → Q k s₁)
          → (out : S × Result (Unit {0}))
          → Ends (λ _ s'. Round I Q s₁ s' (λ k. (a : A) × Memᴰ a xs × covers a k)) E out
          → Ends (λ _ s'. Round I Q s s' (λ k. (a : A) × Memᴰ a (x ∷ xs) × covers a k)) E out
      later s₁ keep₁ new₁ (s₂, ok _) (i₂, keep₂, new₂) = (
        i₂,
        λ k q. keep₂ k (keep₁ k q),
        λ k (a, m, c). elim (Memᴰ.cases_cons m) [
          | inl same ↦ keep₂ k (new₁ k (subst (λ b. covers b k) same c))
          | inr n ↦ new₂ k (a, n, c)
        ],
      )
      later s₁ keep₁ new₁ (s₂, raise _) e = e
