-- ===== src/Prelude/Dict.antt =====
-- Python's `dict`: an association list in insertion order. A write to a key that is there keeps
-- its place; a new key goes to the end. Keys have a decidable equality.
use mathlib.Core.Path.{◌≡◌, refl, sym, ◌∙◌, ap, ap₂, subst}
use mathlib.Core.Logic.{◌≢◌, ite, if_pos, if_neg}
use mathlib.Core.Option.{Option, none, some, some-injective}
use mathlib.Core.List.{List, [], ◌∷◌, map}
use native.Mathlib.Omega.{arith}
use cream_bots.Prelude.Lists.{All, select}
use cream_bots.Prelude.Tests.{if◌then◌else◌}
use mathlib.Core.Bool.{Bool}

abbrev pub Dict {ℓ} : Type ℓ → Type ℓ → Type ℓ
Dict K V = List (K × V)

module _ {ℓ} {K V : Type ℓ} where
  -- d.keys() and d.values()
  abbrev pub keys : Dict K V → List K
  keys = map (λ e. e.0)

  abbrev pub values : Dict K V → List V
  values = map (λ e. e.1)

module _ {ℓ} {K V : Type ℓ} (dec : Discrete K) where
  -- d.get(k)
  unfoldable pub get : K → Dict K V → Option V
  get k [] = none
  get k ((j, v) ∷ d) = ite (dec j k) (some v) (get k d)

  -- d[k] = v
  unfoldable pub put : K → V → Dict K V → Dict K V
  put k v [] = (k, v) ∷ []
  put k v ((j, w) ∷ d) = ite (dec j k) ((j, v) ∷ d) ((j, w) ∷ put k v d)

  pub get-put :
      (k j : K) (v : V) (d : Dict K V) → get j (put k v d) ≡ ite (dec k j) (some v) (get j d)
  unfolding get put
  get-put k j v [] = refl
  get-put k j v ((i, w) ∷ d) = ground (arith, get-put k j v d)

  pub get-put_self : (k : K) (v : V) (d : Dict K V) → get k (put k v d) ≡ some v
  get-put_self k v d = ground (arith, get-put k k v d)

  pub get-put_ne : (k j : K) (v : V) (d : Dict K V) → k ≢ j → get j (put k v d) ≡ get j d
  get-put_ne k j v d h = ground (arith, get-put k j v d)

  -- The entries whose keys pass a test.
  pub get-select :
      (test : K → Bool) (k : K) (d : Dict K V)
      → get k (select (λ e. test e.0) d) ≡ (if test k then get k d else none)
  unfolding get select
  get-select test k [] = ground arith
  get-select test k ((j, w) ∷ d) = ground (arith, get-select test k d, ap test)

  -- What every entry has, every value that is read has.
  pub get-All :
      (P : K × V → Type ℓ) (d : Dict K V) → All P d → (k : K) (v : V) → get k d ≡ some v → P (k, v)
  unfolding get
  get-All P [] h k v e = cc
  get-All P ((j, w) ∷ d) h k v e = elim (dec j k) [
    | yes same ↦
        let is : w ≡ v = some-injective w v (rw (if_pos (dec j k) same (some w) (get k d)) at e) in
        subst P (ap₂ (λ (a : K) (b : V). (a, b)) same is) h.0
    | no other ↦ get-All P d h.1 k v (rw (if_neg (dec j k) other (some w) (get k d)) at e)
  ]

  -- What the entries have, the entries have after a write of an entry that has it.
  pub get-put_all :
      (P : K → V → Type ℓ) (k : K) (v : V) (d : Dict K V)
      → P k v
      → ((j : K) (w : V) → get j d ≡ some w → P j w)
      → (j : K) (w : V) → get j (put k v d) ≡ some w
      → P j w
  get-put_all P k v d here there j w e = elim (dec k j) [
    | no n ↦ there j w (sym (get-put_ne k j v d n) ∙ e)
    | yes same ↦
        let is : v ≡ w =
          some-injective v w (sym (get-put_self k v d) ∙ ap (λ x. get x (put k v d)) same ∙ e) in
        subst (λ x. P x w) same (subst (P k) is here)
  ]

  -- A write removes no key.
  pub get-put_kept :
      (k j : K) (v : V) (d : Dict K V)
      → ((w : V) × (get j d ≡ some w))
      → (w : V) × (get j (put k v d) ≡ some w)
  get-put_kept k j v d (w, e) = elim (dec k j) [
    | no n ↦ (w, get-put_ne k j v d n ∙ e)
    | yes same ↦ (v, ap (λ x. get j (put x v d)) same ∙ get-put_self j v d)
  ]
