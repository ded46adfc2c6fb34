-- ===== src/Arbitrage/Reduction.antt =====
-- app/core/arbitrage_service.py: the `while True` loop of process_onchain_arbs and
-- process_backrun_arbs, which keeps the most profitable cycle and drops those that share a pool.
pub mod Greedy
use cream_bots.Prelude.{
  ℕ, zero, suc, Bool, List, [], ◌∷◌, any, select, length, contains, add, remove_all, Result, ok,
  raise, out_of_fuel, ◌>>=◌,
}
use cream_bots.Degenbot.{Degenbot}

module _ (lib : Degenbot) where
  open lib use {Pool, pool_discrete, Cycle, cycle_discrete, swap_pools}

  -- `set(ps) & set(qs)`, as a condition.
  unfoldable pub share_pool : List Pool → List Pool → Bool
  unfolding any contains
  share_pool ps qs = any (contains pool_discrete qs) ps

  -- `conflicting_arbs`
  unfoldable pub conflicting : Cycle → List Cycle → List Cycle
  unfolding share_pool select
  conflicting best rest = select (λ c. share_pool (swap_pools best) (swap_pools c)) rest

  -- The loop, from behind `pop(0)`: `best` is the popped cycle, `rest` the working list, `chosen`
  -- the set `arbs_without_overlap`. A round is one unit of fuel.
  unfoldable pub reduction : ℕ → Cycle → List Cycle → List Cycle → Result (List Cycle)
  unfolding conflicting add remove_all
  reduction zero best rest chosen = raise out_of_fuel
  reduction (suc fuel) best rest chosen = do
    rest' ← remove_all cycle_discrete (conflicting best rest) rest
    elim rest' [
      | [] ↦ ok (add cycle_discrete best chosen)
      | next ∷ more ↦ reduction fuel next more (add cycle_discrete best chosen)
    ]

  -- As many rounds as there are cycles: each round drops one at least.
  unfoldable pub arbs_without_overlap : Cycle → List Cycle → Result (List Cycle)
  unfolding reduction
  arbs_without_overlap best rest = reduction (suc (length rest)) best rest []
