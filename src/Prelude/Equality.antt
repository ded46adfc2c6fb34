-- ===== src/Prelude/Equality.antt =====
-- Decidable equality of texts, computed by the native comparison.
use Prim.Native.String.{String}
use mathlib.Core.Path.{◌≡◌, refl}
use mathlib.Core.Bool.{Bool, true, false}
use text.Mathlib.Text.{◌==◌}
use text.Mathlib.TextEquality.{eq_iff}

decide_text : (s t : String) (b : Bool) → (s == t) ≡ b → Dec (s ≡ t)
decide_text s t true h = yes ((eq_iff s t).0 h)
decide_text s t false h = no (λ e. cc (h, (eq_iff s t).1 e))

-- `s == t` on Python's `str`.
unfoldable pub String_discrete : Discrete String
unfolding decide_text
String_discrete s t = decide_text s t (s == t) refl

-- A decision as a condition.
abbrev pub holds {ℓ} : {P : Type ℓ} → Dec P → Bool
holds (yes _) = true
holds (no _) = false

pub holds_of {ℓ} : {P : Type ℓ} (d : Dec P) → P → holds d ≡ true
holds_of (yes _) p = refl
holds_of (no n) p = absurd (n p)

pub of_holds {ℓ} : {P : Type ℓ} (d : Dec P) → holds d ≡ true → P
of_holds (yes p) h = p
of_holds (no n) h = cc

pub holds_not_of {ℓ} : {P : Type ℓ} (d : Dec P) → ¬ P → holds d ≡ false
holds_not_of (yes p) n = absurd (n p)
holds_not_of (no _) n = refl

-- Two texts that compare as different are different.
pub ne_of_compare : (s t : String) → (s == t) ≡ false → ¬ (s ≡ t)
ne_of_compare s t h e = cc (h, (eq_iff s t).1 e)
