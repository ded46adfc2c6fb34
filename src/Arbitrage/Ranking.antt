-- ===== src/Arbitrage/Ranking.antt =====
-- app/core/arbitrage_service.py: the ranking of the calculation results by profit.
use cream_bots.Prelude.{Bool, List, select}
use cream_bots.Prelude.Int.{pos, leb_ℤ}
use cream_bots.Prelude.Sort.{sorted}
use cream_bots.Degenbot.{Degenbot}

module _ (lib : Degenbot) where
  open lib use {Calculation, profit_amount}

  -- `calc_result.profit_amount >= 0`
  abbrev pub is_profitable : Calculation → Bool
  is_profitable r = leb_ℤ (pos 0) (profit_amount r)

  -- `reverse=True`: the larger profit first, and equal profits in the order in which they came.
  abbrev pub pays_at_least : Calculation → Calculation → Bool
  pays_at_least r s = leb_ℤ (profit_amount s) (profit_amount r)

  -- `all_profitable_calc_results`
  unfoldable pub ranked : List Calculation → List Calculation
  unfolding sorted select
  ranked results = sorted pays_at_least (select is_profitable results)
