-- ===== src/Prelude/Exec.antt =====
-- Code that works on a state and may raise: what it wrote before it raised stays written.
use mathlib.Core.Path.{◌≡◌, refl}
use cream_bots.Prelude.Tests.{if◌then◌else◌}
use mathlib.Core.Bool.{Bool, true, false}
use cream_bots.Prelude.Outcome.{Exception, Result, ok, raise}

abbrev pub Exec {ℓ} : Type ℓ → Type ℓ → Type ℓ
Exec S A = S → S × Result A

module _ {ℓ} {S A : Type ℓ} where
  unfoldable pub pure : A → Exec S A
  pure a s = (s, ok a)

  unfoldable pub fail : Exception → Exec S A
  fail e s = (s, raise e)

  unfoldable pub lift : Result A → Exec S A
  lift r s = (s, r)

  unfoldable pub gets : (S → A) → Exec S A
  gets f s = (s, ok (f s))

  -- `try` with the exception as a value, for the `except` clauses to look at.
  unfoldable pub attempt : Exec S A → Exec S (Result A)
  attempt m s = let (s', r) = m s in (s', ok r)

module _ {ℓ} {S A B : Type ℓ} where
  abbrev pub resume : S → Result A → (A → Exec S B) → S × Result B
  resume s (ok a) k = k a s
  resume s (raise e) k = (s, raise e)

  infixl 10 ◌>>=◌ ◌>>◌
  unfoldable pub ◌>>=◌ : Exec S A → (A → Exec S B) → Exec S B
  unfolding pure fail lift gets attempt
  ◌>>=◌ m k s = let (s', r) = m s in resume s' r k

  abbrev pub ◌>>◌ : Exec S A → Exec S B → Exec S B
  m >> k = m >>= λ _. k

-- Whether it returns or raises, the code keeps what held before it.
pub record Keeps {ℓ} {A S : Type ℓ} (P : S → Type ℓ) (m : Exec S A) : Type ℓ where
  pub after : (s : S) (p : P s) → P (m s).0

module _ {ℓ} {S : Type ℓ} {P : S → Type ℓ} {A : Type ℓ} where
  pub Keeps-gets : (f : S → A) → Keeps P (gets f)
  unfolding gets
  Keeps-gets f = record { after = λ _ p. p }

  pub Keeps-fail : (e : Exception) → Keeps P (fail {A = A} e)
  unfolding fail
  Keeps-fail e = record { after = λ _ p. p }

  pub Keeps-attempt : (m : Exec S A) → Keeps P m → Keeps P (attempt m)
  unfolding attempt
  Keeps-attempt m km = record { after = λ s p. km.after s p }

  pub Keeps-pure : (x : A) → Keeps P (pure x)
  unfolding pure
  Keeps-pure x = record { after = λ _ p. p }

  pub Keeps-if :
      (test : Bool) (m n : Exec S A) → Keeps P m → Keeps P n → Keeps P (if test then m else n)
  Keeps-if false m n km kn = kn
  Keeps-if true m n km kn = km

  pub Keeps-lift : (r : Result A) → Keeps P (lift r)
  unfolding lift
  Keeps-lift r = record { after = λ _ p. p }

module _ {ℓ} {S : Type ℓ} {P : S → Type ℓ} {A B : Type ℓ} where
  Keeps-resume :
      (s : S) (r : Result A) (k : A → Exec S B)
      → P s
      → ((a : A) → Keeps P (k a))
      → P (resume s r k).0
  Keeps-resume s (ok a) k p kk = (kk a).after s p
  Keeps-resume s (raise e) k p kk = p

  pub Keeps-bind :
      (m : Exec S A) (k : A → Exec S B) (km : Keeps P m) (kk : (a : A) → Keeps P (k a))
      → Keeps P (m >>= k)
  unfolding ◌>>=◌
  Keeps-bind m k km kk = record {
    after = λ s p. let (s', r) = m s in Keeps-resume s' r k (km.after s p) kk;
  }

  -- After a value that is at hand, the rest may use where it came from.
  pub Keeps-bind-lift :
      (r : Result A) (k : A → Exec S B) (kk : (a : A) (e : r ≡ ok a) → Keeps P (k a))
      → Keeps P (lift r >>= k)
  unfolding ◌>>=◌
  Keeps-bind-lift (ok a) k kk = record { after = λ s p. (kk a refl).after s p }
  Keeps-bind-lift (raise e) k kk = record { after = λ _ p. p }

pub ruleset keeps_rules =
    (Keeps-gets, Keeps-lift, Keeps-bind, Keeps-attempt, Keeps-if, Keeps-pure, Keeps-fail)
