-- ===== src/Pools/Helpers/Unique.antt =====
-- Which addresses are collected.
use cream_bots.Prelude.{
  String, String_discrete, Bool, Bool-cases, true, false, List, [], ◌∷◌, ◌≡◌, ◌↔◌, ◌⊎◌, inl, inr,
  refl, sym, ap, ◌∙◌, subst, Memᴰ, add, mem-add, mem-add_self, mem_of_add,
}
use mathlib.Core.List.Memᴰ
use mathlib.Core.List.Memᴰ.{head, tail}
use cream_bots.Prelude.Dict.{Dict, get}
use cream_bots.Builders.LpFetcher.{Lp}
use cream_bots.Pools.{ArbData, is_missing}
use cream_bots.Pools.Helpers.{add_path_pools, unique_pool_addresses}

module _ (pool_data : Dict String Lp) where
  abbrev pub Loaded : String → Type 0
  Loaded a = is_missing (get String_discrete a pool_data) ≡ false

  add_path_pools-mem :
      (path addresses : List String) {a : String}
      → Memᴰ a addresses ⊎ (Memᴰ a path × Loaded a)
      → Memᴰ a (add_path_pools pool_data path addresses)
  unfolding add_path_pools
  add_path_pools-mem [] addresses (inl m) = m
  add_path_pools-mem [] addresses (inr (m, l)) = absurd (Memᴰ.not-nil m)
  add_path_pools-mem (b ∷ path) addresses {a} h =
      elim (Bool-cases (is_missing (get String_discrete b pool_data))) [
        | inl missing ↦ rw missing (
            add_path_pools-mem path addresses (elim h [
              | inl m ↦ inl m
              | inr (m, l) ↦ elim (Memᴰ.cases_cons m) [
                | inl e ↦ absurd (
                    not_both _ (ap (λ x. is_missing (get String_discrete x pool_data)) e ∙ missing)
                      l)
                | inr n ↦ inr (n, l)
              ]
            ]))
        | inr there ↦ rw there (
            add_path_pools-mem path (add String_discrete b addresses) (elim h [
              | inl m ↦ inl (mem-add String_discrete b addresses m)
              | inr (m, l) ↦ elim (Memᴰ.cases_cons m) [
                | inl e ↦ inl (
                    subst (λ x. Memᴰ x (add String_discrete b addresses)) (sym e)
                      (mem-add_self String_discrete b addresses))
                | inr n ↦ inr (n, l)
              ]
            ]))
      ]
    where
      not_both : (b : Bool) → b ≡ true → b ≡ false → ⊥
      not_both b t f = cc

  mem_of_add_path_pools :
      (path addresses : List String) {a : String}
      → Memᴰ a (add_path_pools pool_data path addresses)
      → Memᴰ a addresses ⊎ (Memᴰ a path × Loaded a)
  unfolding add_path_pools
  mem_of_add_path_pools [] addresses m = inl m
  mem_of_add_path_pools (b ∷ path) addresses {a} m =
      elim (Bool-cases (is_missing (get String_discrete b pool_data))) [
        | inl missing ↦ elim (mem_of_add_path_pools path addresses (rw missing at m)) [
          | inl n ↦ inl n
          | inr (n, l) ↦ inr (tail n, l)
        ]
        | inr there ↦
            elim (mem_of_add_path_pools path (add String_discrete b addresses) (rw there at m)) [
              | inl n ↦ elim (mem_of_add String_discrete b addresses n) [
                | inl e ↦
                    inr (head e, ap (λ x. is_missing (get String_discrete x pool_data)) e ∙ there)
                | inr old ↦ inl old
              ]
              | inr (n, l) ↦ inr (tail n, l)
            ]
      ]

  -- An arbitrage whose path has the pool.
  abbrev pub OnPath : List ArbData → String → Type 0
  OnPath arbs a = (arb : ArbData) × Memᴰ arb arbs × Memᴰ a arb.path

  mem_unique :
      (arbs : List ArbData) (addresses : List String) {a : String}
      → Memᴰ a addresses ⊎ (OnPath arbs a × Loaded a)
      → Memᴰ a (unique_pool_addresses pool_data arbs addresses)
  unfolding unique_pool_addresses
  mem_unique [] addresses (inl m) = m
  mem_unique [] addresses (inr ((arb, m, n), l)) = absurd (Memᴰ.not-nil m)
  mem_unique (b ∷ arbs) addresses (inl m) =
      mem_unique arbs _ (inl (add_path_pools-mem b.path addresses (inl m)))
  mem_unique (b ∷ arbs) addresses {a} (inr ((arb, head e, n), l)) = mem_unique arbs _ (
      inl
        (add_path_pools-mem b.path addresses (inr (subst (λ (x : ArbData). Memᴰ a x.path) e n, l))))
  mem_unique (b ∷ arbs) addresses (inr ((arb, tail m, n), l)) =
      mem_unique arbs _ (inr ((arb, m, n), l))

  mem_of_unique :
      (arbs : List ArbData) (addresses : List String) {a : String}
      → Memᴰ a (unique_pool_addresses pool_data arbs addresses)
      → Memᴰ a addresses ⊎ (OnPath arbs a × Loaded a)
  unfolding unique_pool_addresses
  mem_of_unique [] addresses m = inl m
  mem_of_unique (b ∷ arbs) addresses m =
      elim (mem_of_unique arbs (add_path_pools pool_data b.path addresses) m) [
        | inr ((arb, n, p), l) ↦ inr ((arb, tail n, p), l)
        | inl n ↦ elim (mem_of_add_path_pools b.path addresses n) [
          | inl old ↦ inl old
          | inr (p, l) ↦ inr ((b, head refl, p), l)
        ]
      ]

  -- The set of unique addresses has exactly the loaded pools on the paths of the arbitrages.
  pub mem-unique_pool_addresses :
      (arbs : List ArbData) (a : String)
      → Memᴰ a (unique_pool_addresses pool_data arbs []) ↔ (OnPath arbs a × Loaded a)
  mem-unique_pool_addresses arbs a = (
    λ m. elim (mem_of_unique arbs [] m) [ inl n ↦ absurd (Memᴰ.not-nil n) | inr h ↦ h ],
    λ h. mem_unique arbs [] (inr h),
  )
