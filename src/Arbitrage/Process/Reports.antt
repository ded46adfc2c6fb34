-- ===== src/Arbitrage/Process/Reports.antt =====
-- The table `all_arbs` with its keys, and what is to be reported on it.

use cream_bots.Prelude.{
  String, String_discrete, some, List, ◌≡◌, ◌≢◌, ◌⊎◌, true, Memᴰ, sym, ap, ◌∙◌,
}
use cream_bots.Prelude.Int.{◌≤ℤ◌}
use cream_bots.Prelude.Dict.{get}
use cream_bots.Degenbot.{Degenbot}
use cream_bots.Arbitrage.Types.{ArbDetails, AllArbs}
use cream_bots.Arbitrage.Ranking.{is_profitable}
use cream_bots.Arbitrage.Reduction.Greedy.{Overlap}
use cream_bots.Arbitrage.Process.{Report}
use cream_bots.Arbitrage.Process.Matching.{arb_of, CycleOf}

module _ (lib : Degenbot) (all_arbs : AllArbs (Degenbot.Cycle lib)) where
  open lib use {Cycle, cycle_id, Calculation, calculation_id, profit_amount}

  -- The key of an entry of `all_arbs` is the id of its cycle: load_pools builds it so.
  abbrev pub IsKeyed : Type 0
  IsKeyed =
      (k : String) (d : ArbDetails Cycle)
      → get String_discrete k all_arbs ≡ some d
      → cycle_id d.lp_cycle ≡ k

  -- No two different results carry one id.
  abbrev pub IdsDiffer : List Calculation → Type 0
  IdsDiffer results =
      (r s : Calculation)
      → Memᴰ r results
      → Memᴰ s results
      → calculation_id r ≡ calculation_id s
      → r ≡ s

  -- What is reported for `results`.
  pub record IsSettled (results : List Calculation) (reports : List (Report lib)) : Type 0 where
    -- A report is of a profitable result, and of the arbitrage that has the result's id.
    pub sound :
        (p : Report lib)
        → Memᴰ p reports
        → Memᴰ p.result results
          × (is_profitable lib p.result ≡ true)
          × ((d : ArbDetails Cycle) × (p.details ≡ some d)
              × (arb_of lib all_arbs p.result ≡ some d))
    -- Two reported arbitrages share no pool.
    pub disjoint :
        (p q : Report lib) (d e : ArbDetails Cycle)
        → Memᴰ p reports
        → Memᴰ q reports
        → p.details ≡ some d
        → q.details ≡ some e
        → calculation_id p.result ≢ calculation_id q.result
        → ¬ Overlap lib d.lp_cycle e.lp_cycle
    -- A profitable arbitrage is reported, or shares a pool with a reported one that pays as much.
    pub covered :
        (r : Calculation) (d : ArbDetails Cycle)
        → Memᴰ r results
        → is_profitable lib r ≡ true
        → arb_of lib all_arbs r ≡ some d
        → (p : Report lib) × Memᴰ p reports
          × (profit_amount r ≤ℤ profit_amount p.result)
          × ((p.result ≡ r)
              ⊎ ((e : ArbDetails Cycle) × (p.details ≡ some e) × Overlap lib e.lp_cycle d.lp_cycle))

  pub calculation_id-eq_of_CycleOf :
      IsKeyed
      → {r : Calculation} {c : Cycle} → CycleOf lib all_arbs r c
      → calculation_id r ≡ cycle_id c
  calculation_id-eq_of_CycleOf keyed {r} (d, hit, is) =
      sym (keyed (calculation_id r) d hit) ∙ ap cycle_id is

  pub arb_of_same_id :
      {r s : Calculation}
      → calculation_id r ≡ calculation_id s
      → arb_of lib all_arbs r ≡ arb_of lib all_arbs s
  arb_of_same_id e = ap (λ k. get String_discrete k all_arbs) e

  pub lp_cycle-eq :
      (r : Calculation) {d : ArbDetails Cycle} {c : Cycle}
      → arb_of lib all_arbs r ≡ some d
      → CycleOf lib all_arbs r c
      → d.lp_cycle ≡ c
  lp_cycle-eq r {d} {c} e (d', hit, is) = same (cc (e, hit)) is
    where
      same : d ≡ d' → d'.lp_cycle ≡ c → d.lp_cycle ≡ c
      same e is = ap (λ (x : ArbDetails Cycle). x.lp_cycle) e ∙ is
