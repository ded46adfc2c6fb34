-- ===== src/Arbitrage/Affected.antt =====
-- app/core/arbitrage_service.py: find_affected_arbs.
pub mod Found
use cream_bots.Prelude.{
  String, Bool, true, false, ◌||◌, List, [], ◌∷◌, map, holds, String_discrete, select,
}
use cream_bots.Prelude.Dict.{values}
use cream_bots.Degenbot.{Degenbot}
use cream_bots.Arbitrage.Types.{ArbDetails, AllArbs}

module _ (lib : Degenbot) where
  open lib use {Pool, address, Cycle, swap_pools}

  -- The test of the loop, by the number of pools of the cycle.
  unfoldable pub affects : String → List Pool → Bool
  unfolding String_discrete
  affects pool_address (p ∷ q ∷ []) =
      holds (String_discrete (address p) pool_address)
      || holds (String_discrete (address q) pool_address)
  affects pool_address (p ∷ q ∷ r ∷ []) = holds (String_discrete (address q) pool_address)
  affects pool_address _ = false

  unfoldable pub find_affected_arbs : AllArbs Cycle → String → List Cycle
  unfolding affects select
  find_affected_arbs all_arbs pool_address =
      select (λ c. affects pool_address (swap_pools c)) (map (λ d. d.lp_cycle) (values all_arbs))
