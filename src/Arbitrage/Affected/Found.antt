-- ===== src/Arbitrage/Affected/Found.antt =====
-- Which cycles find_affected_arbs finds.
use mathlib.Core.List.Memᴰ
use mathlib.Core.List.Memᴰ.{head, tail}
use cream_bots.Prelude.{
  String, true, some, List, [], ◌∷◌, map, ◌≡◌, refl, ◌↔◌, ◌⊎◌, inl, inr, arith, length, get_elem?,
  String_discrete, holds, holds_of, of_holds, mem-select, mem_of_select, Memᴰ, Bool-cases, sym, ap,
  ◌∙◌,
}
use mathlib.Core.Bool.{false≢true}
use mathlib.Core.Option.{some-injective}
use cream_bots.Prelude.Dict.{values}
use cream_bots.Degenbot.{Degenbot}
use cream_bots.Arbitrage.Types.{AllArbs}
use cream_bots.Arbitrage.Affected.{affects, find_affected_arbs}

module _ (lib : Degenbot) (pool_address : String) where
  open lib use {Pool, address, Cycle, swap_pools}

  -- One of two pools has the address, or the middle one of three.
  abbrev pub IsHit : List Pool → Type 0
  IsHit pools =
      (length pools ≡ 2) × ((p : Pool) × Memᴰ p pools × (address p ≡ pool_address))
      ⊎ (length pools ≡ 3)
        × ((p : Pool) × (get_elem? pools 1 ≡ some p) × (address p ≡ pool_address))

  IsHit-of_affects : (pools : List Pool) → affects lib pool_address pools ≡ true → IsHit pools
  unfolding affects
  IsHit-of_affects [] h = cc
  IsHit-of_affects (p ∷ []) h = cc
  IsHit-of_affects (p ∷ q ∷ []) h =
      elim (Bool-cases (holds (String_discrete (address p) pool_address))) [
        | inl e ↦ inl (refl, (p, head refl, of_holds (String_discrete (address p) pool_address) e))
        | inr e ↦ inl (
          refl,
          (q, tail (head refl), of_holds (String_discrete (address q) pool_address) (rw e at h)),
        )
      ]
  IsHit-of_affects (p ∷ q ∷ r ∷ []) h =
      inr (refl, (q, refl, of_holds (String_discrete (address q) pool_address) h))
  IsHit-of_affects (p ∷ q ∷ r ∷ s ∷ pools) h = cc

  affects_of_IsHit : (pools : List Pool) → IsHit pools → affects lib pool_address pools ≡ true
  unfolding affects
  affects_of_IsHit [] (inl h) = absurd (omega arith)
  affects_of_IsHit [] (inr h) = absurd (omega arith)
  affects_of_IsHit (p ∷ []) (inl h) = absurd (omega arith)
  affects_of_IsHit (p ∷ []) (inr h) = absurd (omega arith)
  affects_of_IsHit (p ∷ q ∷ []) (inl (_, (x, m, e))) =
      elim (Bool-cases (holds (String_discrete (address p) pool_address))) [
        | inl is_p ↦ rw is_p
        | inr not_p ↦ elim (Memᴰ.cases_cons m) [
          | inl same ↦ absurd (
              false≢true (
                sym not_p
                ∙ holds_of (String_discrete (address p) pool_address) (sym (ap address same) ∙ e)))
          | inr n ↦ rw not_p (
              holds_of (String_discrete (address q) pool_address)
                (sym (ap address (Memᴰ.eq_of_singleton n)) ∙ e))
        ]
      ]
  affects_of_IsHit (p ∷ q ∷ []) (inr h) = absurd (omega arith)
  affects_of_IsHit (p ∷ q ∷ r ∷ []) (inl h) = absurd (omega arith)
  affects_of_IsHit (p ∷ q ∷ r ∷ []) (inr (_, (x, at, e))) =
      holds_of (String_discrete (address q) pool_address) (ap address (some-injective q x at) ∙ e)
  affects_of_IsHit (p ∷ q ∷ r ∷ s ∷ pools) (inl h) = absurd (omega arith)
  affects_of_IsHit (p ∷ q ∷ r ∷ s ∷ pools) (inr h) = absurd (omega arith)

  -- A cycle is found exactly if it is the cycle of an entry of `all_arbs` and the address is that
  -- of one of its pools, if it has two, or of the middle one, if it has three.
  pub find_affected_arbs_iff :
      (all_arbs : AllArbs Cycle) (c : Cycle)
      → Memᴰ c (find_affected_arbs lib all_arbs pool_address)
        ↔ (Memᴰ c (map (λ d. d.lp_cycle) (values all_arbs)) × IsHit (swap_pools c))
  unfolding find_affected_arbs
  find_affected_arbs_iff all_arbs c = (
    λ m. let (old, hit) = mem_of_select _ _ m in (old, IsHit-of_affects (swap_pools c) hit),
    λ (m, h). mem-select _ _ m (affects_of_IsHit (swap_pools c) h),
  )
