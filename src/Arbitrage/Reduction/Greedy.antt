-- ===== src/Arbitrage/Reduction/Greedy.antt =====
-- What the loop leaves: cycles that share no pool, and a better one for each that was dropped.
use mathlib.Core.List.Memᴰ
use mathlib.Core.List.Memᴰ.{head, tail}
use cream_bots.Prelude.{
  ℕ, zero, suc, ◌≤◌, ◌≡◌, refl, ◌≢◌, ◌⊎◌, inl, inr, true, not, List, [], ◌∷◌, arith, select, length,
  length-select-le, mem-select, mem_of_select, mem_of_any, any_of_mem, contains_of_mem,
  mem_of_contains, add, mem-add, mem-add_self, mem_of_add, remove_all-select, Result, ok,
  Bool-cases, Memᴰ, sym, ap, ◌∙◌,
}
use cream_bots.Prelude.Precedes.{Precedes, first, later, Precedes-of_select}
use cream_bots.Degenbot.{Degenbot}
use cream_bots.Arbitrage.Reduction.{share_pool, conflicting, reduction, arbs_without_overlap}

module _ (lib : Degenbot) where
  open lib use {Pool, pool_discrete, Cycle, cycle_discrete, swap_pools}

  -- The two cycles have a pool in common.
  abbrev pub Overlap : Cycle → Cycle → Type 0
  Overlap c d = (p : Pool) × Memᴰ p (swap_pools c) × Memᴰ p (swap_pools d)

  pub Overlap-of_share :
      (c d : Cycle) → share_pool lib (swap_pools c) (swap_pools d) ≡ true → Overlap c d
  unfolding share_pool
  Overlap-of_share c d h =
      let (p, m, held) = mem_of_any _ (swap_pools c) h in
      (p, m, mem_of_contains pool_discrete (swap_pools d) p held)

  pub share_of_Overlap :
      (c d : Cycle) → Overlap c d → share_pool lib (swap_pools c) (swap_pools d) ≡ true
  unfolding share_pool
  share_of_Overlap c d (p, m, n) =
      any_of_mem _ (swap_pools c) m (contains_of_mem pool_discrete (swap_pools d) n)

  Overlap-symm : (c d : Cycle) → Overlap c d → Overlap d c
  Overlap-symm c d (p, m, n) = (p, n, m)

  -- `out` is a choice among `cycles` on top of `chosen`.
  pub record IsReduced (chosen cycles out : List Cycle) : Type 0 where
    pub kept : (c : Cycle) → Memᴰ c chosen → Memᴰ c out
    pub drawn : (c : Cycle) → Memᴰ c out → Memᴰ c chosen ⊎ Memᴰ c cycles
    pub disjoint : (c d : Cycle) → Memᴰ c out → Memᴰ d out → c ≢ d → ¬ Overlap c d
    pub covered :
        (d : Cycle)
        → Memᴰ d cycles
        → Memᴰ d out ⊎ ((c : Cycle) × Memᴰ c out × Precedes c d cycles × Overlap c d)

  -- The invariant at the loop's head.
  record IsApart (chosen cycles : List Cycle) : Type 0 where
    among : (c d : Cycle) → Memᴰ c chosen → Memᴰ d chosen → c ≢ d → ¬ Overlap c d
    ahead : (c d : Cycle) → Memᴰ c chosen → Memᴰ d cycles → ¬ Overlap c d

  abbrev survivors : Cycle → List Cycle → List Cycle
  survivors best rest = select (λ c. not (share_pool lib (swap_pools best) (swap_pools c))) rest

  abbrev go_on : ℕ → List Cycle → List Cycle → Result (List Cycle)
  go_on fuel [] chosen = ok chosen
  go_on fuel (next ∷ more) chosen = reduction lib fuel next more chosen

  reduction-suc :
      (fuel : ℕ) (best : Cycle) (rest chosen : List Cycle)
      → reduction lib (suc fuel) best rest chosen
        ≡ go_on fuel (survivors best rest) (add cycle_discrete best chosen)
  unfolding reduction conflicting
  reduction-suc fuel best rest chosen =
      rw
        (remove_all-select cycle_discrete (λ c. share_pool lib (swap_pools best) (swap_pools c))
          rest)
        (split (survivors best rest))
    where
      split :
          (left : List Cycle)
          → elim left as (λ _. Result (List Cycle)) [
            | [] ↦ ok (add cycle_discrete best chosen)
            | next ∷ more ↦ reduction lib fuel next more (add cycle_discrete best chosen)
          ]
            ≡ go_on fuel left (add cycle_discrete best chosen)
      split [] = refl
      split (next ∷ more) = refl

  module _ (best : Cycle) (rest chosen : List Cycle) where
    apart_of_survivor : (d : Cycle) → Memᴰ d (survivors best rest) → Memᴰ d rest × ¬ Overlap best d
    apart_of_survivor d m =
        let (old, kept) = mem_of_select _ rest m in
        (old, λ o. cc (kept, ap not (share_of_Overlap best d o)))

    IsApart-add :
        IsApart chosen (best ∷ rest)
        → IsApart (add cycle_discrete best chosen) (survivors best rest)
    IsApart-add h = record {
      among = λ c d mc md ne o. elim (mem_of_add cycle_discrete best chosen mc) [
        | inl ec ↦ elim (mem_of_add cycle_discrete best chosen md) [
          | inl ed ↦ ne (ec ∙ sym ed)
          | inr old ↦ h.ahead d c old (head ec) (Overlap-symm c d o)
        ]
        | inr old ↦ elim (mem_of_add cycle_discrete best chosen md) [
          | inl ed ↦ h.ahead c d old (head ed) o
          | inr older ↦ h.among c d old older ne o
        ]
      ];
      ahead = λ c d mc md o.
          let (old, apart) = apart_of_survivor d md in
          elim (mem_of_add cycle_discrete best chosen mc) [
            | inl e ↦ apart (rw e at o)
            | inr m ↦ h.ahead c d m (tail old) o
          ];
    }

    IsReduced-step :
        {out : List Cycle}
        → IsReduced (add cycle_discrete best chosen) (survivors best rest) out
        → IsReduced chosen (best ∷ rest) out
    IsReduced-step h = record {
      kept = λ c m. h.kept c (mem-add cycle_discrete best chosen m);
      drawn = λ c m. elim (h.drawn c m) [
        | inl new ↦ elim (mem_of_add cycle_discrete best chosen new) [
          | inl e ↦ inr (head e)
          | inr old ↦ inl old
        ]
        | inr left ↦ inr (tail (apart_of_survivor c left).0)
      ];
      disjoint = h.disjoint;
      covered = λ d m. elim (Memᴰ.cases_cons m) [
        | inl e ↦ inl (rw e (h.kept best (mem-add_self cycle_discrete best chosen)))
        | inr old ↦ elim (Bool-cases (share_pool lib (swap_pools best) (swap_pools d))) [
          | inl hit ↦ inr (
            best,
            h.kept best (mem-add_self cycle_discrete best chosen),
            first refl old,
            Overlap-of_share best d hit,
          )
          | inr miss ↦ elim (h.covered d (mem-select _ rest old (ap not miss))) [
            | inl there ↦ inl there
            | inr (c, mc, p, o) ↦ inr (c, mc, later (Precedes-of_select _ rest p), o)
          ]
        ]
      ];
    }

  IsReduced-nil : {chosen : List Cycle} → IsApart chosen [] → IsReduced chosen [] chosen
  IsReduced-nil h = record {
    kept = λ c m. m;
    drawn = λ c m. inl m;
    disjoint = h.among;
    covered = λ d m. absurd (Memᴰ.not-nil m);
  }

  reduction-IsReduced :
      (fuel : ℕ) (cycles chosen : List Cycle)
      → length cycles ≤ fuel
      → IsApart chosen cycles
      → (out : List Cycle) × (go_on fuel cycles chosen ≡ ok out) × IsReduced chosen cycles out
  reduction-IsReduced fuel [] chosen enough h = (chosen, refl, IsReduced-nil h)
  reduction-IsReduced zero (best ∷ rest) chosen enough h = absurd (omega arith)
  reduction-IsReduced (suc fuel) (best ∷ rest) chosen enough h =
      let (out, runs, reduced) =
        reduction-IsReduced fuel (survivors best rest) (add cycle_discrete best chosen)
          (omega (
            arith,
            length-select-le (λ c. not (share_pool lib (swap_pools best) (swap_pools c))) rest,
          ))
          (IsApart-add best rest chosen h) in
      (out, reduction-suc fuel best rest chosen ∙ runs, IsReduced-step best rest chosen reduced)

  -- The loop ends, and it leaves a choice among the given cycles in which no two share a pool. A
  -- cycle is left out only if it shares a pool with a chosen one that stands in front of it.
  pub arbs_without_overlap-IsReduced :
      (best : Cycle) (rest : List Cycle)
      → (out : List Cycle) × (arbs_without_overlap lib best rest ≡ ok out)
        × IsReduced [] (best ∷ rest) out
  unfolding arbs_without_overlap
  arbs_without_overlap-IsReduced best rest =
      reduction-IsReduced (suc (length rest)) (best ∷ rest) [] (omega arith) (record {
        among = λ c d m. absurd (Memᴰ.not-nil m);
        ahead = λ c d m. absurd (Memᴰ.not-nil m);
      })
