-- ===== src/Arbitrage/Types.antt =====
-- app/core/arbitrage_service.py: the class ArbDetails, and the table `bot_state.all_arbs`.
use cream_bots.Prelude.{String}
use cream_bots.Prelude.Dict.{Dict}

pub record ArbDetails (Cycle : Type 0) : Type 0 where
  pub lp_cycle : Cycle
  pub status : String

-- `bot_state.all_arbs`, keyed by the arbitrage id.
abbrev pub AllArbs : Type 0 → Type 0
AllArbs Cycle = Dict String (ArbDetails Cycle)
