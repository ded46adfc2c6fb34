-- ===== src/Arbitrage/Service.antt =====
-- app/core/arbitrage_service.py: the class ArbitrageService, its loop find_onchain_arbs over the
-- queue `pools_to_process`, and process_backrun_arbs.
pub mod Queue
use cream_bots.Prelude.{
  ℕ, zero, suc, ◌-◌, String, Option, none, some, List, [], ◌∷◌, ◌++◌, Result, ok, raise,
  attribute_error, key_error, String_discrete, ◌>>=◌,
}
use cream_bots.Prelude.Dict.{get}
use cream_bots.Json.{Value, Object}
use cream_bots.Degenbot.{Degenbot, Executor}
use cream_bots.Arbitrage.Types.{AllArbs}
use cream_bots.Arbitrage.Affected.{find_affected_arbs}
use cream_bots.Arbitrage.Process.{Report, calculation_results, settle}

module _ (lib : Degenbot) where
  open lib use {Cycle}

  -- What the loop works on: the queue's items, its count of unfinished items, and the argument of
  -- each task that was created.
  pub record Loop : Type 0 where
    pub pools_to_process : List String
    pub unfinished : ℕ
    pub tasks : List (List Cycle)

  -- `if affected_arbs: asyncio.create_task(...)`
  unfoldable pub spawn : List Cycle → Loop → Loop
  spawn [] s = s
  spawn (c ∷ cs) s = record s { tasks = s.tasks ++ (c ∷ cs) ∷ [] }

  -- `task_done()`
  unfoldable pub task_done : Loop → Loop
  task_done s = record s { unfinished = s.unfinished - 1 }

  -- A round of `while True`; with an empty queue `get()` waits.
  unfoldable pub find_onchain_arbs_round : AllArbs Cycle → Loop → Loop
  unfolding spawn task_done find_affected_arbs
  find_onchain_arbs_round all_arbs s = elim s.pools_to_process [
    | [] ↦ s
    | a ∷ rest ↦
        task_done (spawn (find_affected_arbs lib all_arbs a) (record s { pools_to_process = rest }))
  ]

  unfoldable pub find_onchain_arbs : ℕ → AllArbs Cycle → Loop → Loop
  unfolding find_onchain_arbs_round
  find_onchain_arbs zero all_arbs s = s
  find_onchain_arbs (suc rounds) all_arbs s =
      find_onchain_arbs rounds all_arbs (find_onchain_arbs_round all_arbs s)

  -- The attributes of an ArbitrageService. `app_state` is no attribute unless something sets it.
  pub record ArbitrageService : Type 0 where
    pub bot_state : AllArbs Cycle
    pub app_state : Option (AllArbs Cycle)

  -- `__init__`
  unfoldable pub init : AllArbs Cycle → ArbitrageService
  init bot_state = record { bot_state = bot_state; app_state = none }

  module _ (exec : Executor lib) where
    open exec use {Override}

    -- `self.app_state.all_arbs` and so on
    abbrev app_arbs : Option (AllArbs Cycle) → Result (AllArbs Cycle)
    app_arbs none = raise attribute_error
    app_arbs (some all_arbs) = ok all_arbs

    -- From `num_arbs = len(arb_helpers)` on.
    unfoldable pub backrun :
        AllArbs Cycle → Option Override → List Cycle → Result (List (Report lib))
    unfolding calculation_results settle
    backrun all_arbs override [] = ok []
    backrun all_arbs override (h ∷ hs) =
        settle lib all_arbs (calculation_results lib exec override (h ∷ hs))

    -- `pending_transaction["hash"]`
    abbrev hash_of : Option Value → Result Value
    hash_of none = raise key_error
    hash_of (some hash) = ok hash

    -- `get_raw_transaction` is the node's: none if it raises TransactionNotFound, any other
    -- exception is its own. The attributes `http_session` and `executor` of `app_state` are taken
    -- to be there with `all_arbs`.
    unfoldable pub process_backrun_arbs :
        (get_raw_transaction : Value → Result (Option String))
        → ArbitrageService
        → (pending_transaction : Object) → Option Override
        → List Cycle
        → Result (List (Report lib))
    unfolding backrun get String_discrete
    process_backrun_arbs get_raw_transaction service pending_transaction override helpers = do
      all_arbs ← app_arbs service.app_state
      transaction_hash ← hash_of (get String_discrete "hash" pending_transaction)
      raw_transaction ← get_raw_transaction transaction_hash
      elim raw_transaction [ none ↦ ok [] | some _ ↦ backrun all_arbs override helpers ]
