-- ===== src/Prelude/Items.antt =====
-- Dictionaries by their items: a dict comprehension whose keys and values may raise, and the
-- look-up of an item in a dictionary that has no key twice.
use mathlib.Core.Path.{◌≡◌, refl, sym, ap, ◌∙◌, subst}
use mathlib.Core.Logic.{◌≢◌, ◌⊎◌, inl, inr, if_pos, if_neg}
use mathlib.Core.Option.{some, some-injective}
use mathlib.Core.List.{List, [], ◌∷◌, map, Memᴰ}
use mathlib.Core.List.Memᴰ
use mathlib.Core.List.Memᴰ.{head, tail}
use cream_bots.Prelude.Outcome.{Result, ok, ◌>>=◌}
use mathlib.Core.Bool.{Bool}
use cream_bots.Prelude.Tests.{Bool-cases}
use cream_bots.Prelude.Lists.{select, mem_of_select}
use cream_bots.Prelude.Loops.{for_each}
use cream_bots.Prelude.Rounds.{NodupBy}
use cream_bots.Prelude.Dict.{Dict, get, put, get-put_self, get-put_ne}

module _ {K V : Type 0} (dec : Discrete K) where
  pub get_of_mem :
      (d : Dict K V) {k : K} {v : V} → NodupBy (λ e. e.0) d → Memᴰ (k, v) d → get dec k d ≡ some v
  unfolding get
  get_of_mem [] nodup m = absurd (Memᴰ.not-nil m)
  get_of_mem ((j, w) ∷ d) {k} {v} (apart, nodup) m = elim (Memᴰ.cases_cons m) [
    | inl e ↦
        if_pos (dec j k) (ap (λ (x : K × V). x.0) (sym e)) (some w) (get dec k d)
        ∙ ap (λ (x : K × V). some x.1) (sym e)
    | inr n ↦ if_neg (dec j k) (apart (k, v) n) (some w) (get dec k d) ∙ get_of_mem d nodup n
  ]

  pub mem_of_get : (d : Dict K V) {k : K} {v : V} → get dec k d ≡ some v → Memᴰ (k, v) d
  unfolding get
  mem_of_get [] h = cc
  mem_of_get ((j, w) ∷ d) {k} {v} h = elim (dec j k) [
    | yes e ↦
        let same : w ≡ v =
          some-injective w v (sym (if_pos (dec j k) e (some w) (get dec k d)) ∙ h) in
        head (ap (λ x. (k, x)) (sym same) ∙ ap (λ x. (x, w)) (sym e))
    | no n ↦ tail (mem_of_get d (sym (if_neg (dec j k) n (some w) (get dec k d)) ∙ h))
  ]

module _ {I K V : Type 0} (dec : Discrete K) (item : I → Result (K × V)) where
  unfoldable pub store_item : I → Dict K V → Result (Dict K V)
  unfolding put
  store_item x d = do y ← item x; ok (put dec y.0 y.1 d)

  -- `{k: v for x in xs}` on top of the items of `d`.
  unfoldable pub dict_of : List I → Dict K V → Result (Dict K V)
  unfolding store_item for_each
  dict_of xs d = for_each store_item xs d

  -- If each item has a key of its own and a value, the comprehension returns, and has them all.
  pub dict_of-items :
      (key : I → K) (P : I → V → Type 0) (xs : List I) (d : Dict K V)
      → ((x : I) → Memᴰ x xs → (v : V) × (item x ≡ ok (key x, v)) × P x v)
      → NodupBy key xs
      → (out : Dict K V) × (dict_of xs d ≡ ok out)
        × ((x : I) → Memᴰ x xs → (v : V) × (get dec (key x) out ≡ some v) × P x v)
        × ((k : K) → ((x : I) → Memᴰ x xs → key x ≢ k) → get dec k out ≡ get dec k d)
  unfolding dict_of for_each store_item
  dict_of-items key P [] d each nodup = (d, refl, λ x m. absurd (Memᴰ.not-nil m), λ k n. refl)
  dict_of-items key P (x ∷ xs) d each (apart, nodup) =
      let (v, e, p) = each x (head refl) in
      let (out, runs, found, others) =
        dict_of-items key P xs (put dec (key x) v d) (λ y m. each y (tail m)) nodup in
      (
        out,
        rw e runs,
        λ y m. elim (Memᴰ.cases_cons m) [
          | inl same ↦
              subst (λ z. (w : V) × (get dec (key z) out ≡ some w) × P z w) (sym same)
                (v, others (key x) (λ z n h. apart z n (sym h)) ∙ get-put_self dec (key x) v d, p)
          | inr n ↦ found y n
        ],
        λ k ne. others k (λ z n. ne z (tail n)) ∙ get-put_ne dec (key x) k v d (ne x (head refl)),
      )

module _ {A B K : Type 0} (f : A → B) (key : B → K) (key_before : A → K)
    (same : (x : A) → key (f x) ≡ key_before x) where
  -- A map that keeps the keys keeps them apart.
  pub NodupBy-map : (xs : List A) → NodupBy key_before xs → NodupBy key (map f xs)
  NodupBy-map [] nodup = tt
  NodupBy-map (x ∷ xs) (apart, nodup) = (
    λ y m h.
        let (z, n, e) = Memᴰ.of_map f xs m in
        apart z n (sym (same x) ∙ h ∙ sym (ap key e) ∙ same z),
    NodupBy-map xs nodup,
  )

module _ {A K : Type 0} (key : A → K) (test : A → Bool) where
  pub select-NodupBy : (xs : List A) → NodupBy key xs → NodupBy key (select test xs)
  unfolding select
  select-NodupBy [] nodup = tt
  select-NodupBy (x ∷ xs) (apart, nodup) = elim (Bool-cases (test x)) [
    | inl p ↦ rw p ((λ y m. apart y (mem_of_select test xs m).0), select-NodupBy xs nodup)
    | inr p ↦ rw p (select-NodupBy xs nodup)
  ]

module _ {K V : Type 0} (dec : Discrete K) where
  -- The item of a write is its own or an old one.
  put_cases :
      (k : K) (v : V) (d : Dict K V) {y : K × V} → Memᴰ y (put dec k v d) → (k ≡ y.0) ⊎ Memᴰ y d
  unfolding put
  put_cases k v [] m = inl (ap (λ (x : K × V). x.0) (sym (Memᴰ.eq_of_singleton m)))
  put_cases k v ((j, w) ∷ d) {y} m = elim (dec j k) [
    | yes e ↦
        let m' : Memᴰ y ((j, v) ∷ d) =
          rw (if_pos (dec j k) e ((j, v) ∷ d) ((j, w) ∷ put dec k v d)) at m in
        elim (Memᴰ.cases_cons m') [
          | inl h ↦ inl (sym e ∙ ap (λ (x : K × V). x.0) (sym h))
          | inr n ↦ inr (tail n)
        ]
    | no ne ↦
        let m' : Memᴰ y ((j, w) ∷ put dec k v d) =
          rw (if_neg (dec j k) ne ((j, v) ∷ d) ((j, w) ∷ put dec k v d)) at m in
        elim (Memᴰ.cases_cons m') [
          | inl h ↦ inr (head h)
          | inr n ↦ elim (put_cases k v d n) [ inl h ↦ inl h | inr old ↦ inr (tail old) ]
        ]
  ]

  pub put-NodupBy :
      (k : K) (v : V) (d : Dict K V) → NodupBy (λ e. e.0) d → NodupBy (λ e. e.0) (put dec k v d)
  unfolding put
  put-NodupBy k v [] nodup = ((λ y m. absurd (Memᴰ.not-nil m)), tt)
  put-NodupBy k v ((j, w) ∷ d) (apart, nodup) = elim (dec j k) [
    | yes e ↦ rw (if_pos (dec j k) e ((j, v) ∷ d) ((j, w) ∷ put dec k v d)) (apart, nodup)
    | no ne ↦ rw (if_neg (dec j k) ne ((j, v) ∷ d) ((j, w) ∷ put dec k v d)) (
      λ y m h. elim (put_cases k v d m) [ inl is ↦ ne (h ∙ sym is) | inr n ↦ apart y n h ],
      put-NodupBy k v d nodup,
    )
  ]
