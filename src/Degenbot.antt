-- ===== src/Degenbot.antt =====
-- The package degenbot, as far as the arbitrage service uses it. Pools, cycles and calculation
-- results are its objects, with its own equality; profits are computed by its code.
use cream_bots.Prelude.{String, List, Result, Option}
use cream_bots.Prelude.Int.{ℤ}
use mathlib.Core.List.{Perm}

pub record Degenbot : Type 1 where
  -- A liquidity pool, up to `__eq__`, and its attribute `address`.
  pub Pool : Type 0
  pub pool_discrete : Discrete Pool
  pub address : Pool → String
  -- `UniswapLpCycle`, with `id` and `swap_pools`.
  pub Cycle : Type 0
  pub cycle_discrete : Discrete Cycle
  pub cycle_id : Cycle → String
  pub swap_pools : Cycle → List Pool
  -- `ArbitrageCalculationResult`, with `id` and `profit_amount`.
  pub Calculation : Type 0
  pub calculation_id : Calculation → String
  pub profit_amount : Calculation → ℤ

-- The process pool behind `calculate_with_pool`: a call raises or hands out a future; `outcome` is
-- what awaiting the future gives. The futures complete in an order of the executor's own.
pub record Executor (lib : Degenbot) : Type 1 where
  pub Override : Type 0
  pub Future : Type 0
  pub calculate_with_pool : Option Override → Degenbot.Cycle lib → Result Future
  pub outcome : Future → Result (Degenbot.Calculation lib)
  pub as_completed : List Future → List Future
  pub as_completed_perm : (futures : List Future) → Perm (as_completed futures) futures
