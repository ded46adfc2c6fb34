-- ===== src/Pools/Helpers.antt =====
-- create_pool_helpers: which pools the arbitrages need, and their helpers.
pub mod Asked
pub mod Served
pub mod Unique
use cream_bots.Prelude.{
  ℕ, String, String_discrete, Bool, Option, none, some, List, [], ◌∷◌, ◌++◌, ◌+◌, Exception, Result,
  ok, raise, key_error, manager_error, holds, if◌then◌else◌, add,
}
use cream_bots.Prelude.Int.{ℤ}
use cream_bots.Prelude.Dict.{Dict, get}
use cream_bots.Prelude.Exec.{Exec, pure, fail, lift, attempt, ◌>>=◌}
use cream_bots.Prelude.Rounds.{rounds}
use cream_bots.Json.{Value, Value_discrete}
use cream_bots.Builders.LpFetcher.{Lp}
use cream_bots.Pools.{ArbData, is_missing}
use cream_bots.Pools.Managers.{first_state_block}

-- The addresses of `arb["path"]` that pass the test, into the set.
unfoldable pub add_path_pools : Dict String Lp → List String → List String → List String
unfolding add get String_discrete
add_path_pools pool_data [] addresses = addresses
add_path_pools pool_data (a ∷ path) addresses = add_path_pools pool_data path (
    if is_missing (get String_discrete a pool_data)
    then addresses
    else add String_discrete a addresses)

-- `self.unique_pool_addresses`
unfoldable pub unique_pool_addresses : Dict String Lp → List ArbData → List String → List String
unfolding add_path_pools
unique_pool_addresses pool_data [] addresses = addresses
unique_pool_addresses pool_data (arb ∷ arb_paths) addresses =
    unique_pool_addresses pool_data arb_paths (add_path_pools pool_data arb.path addresses)

-- The arguments of `get_pool`: those of a v2 pool, which updates externally, and of a v3 pool.
pub data PoolRequest : Type 0 where
  v2_request : (pool_address : String) → (state_block : ℤ) → PoolRequest
  v3_request : (pool_address : String) → (state_block : ℤ) → (fee : Option ℕ) → PoolRequest

-- degenbot's managers: `get_pool`, and `isinstance(helper, V3LiquidityPool)`.
pub record PoolLib : Type 1 where
  pub Store : Type 0
  pub Manager : Type 0
  pub Helper : Type 0
  pub get_pool : Manager → PoolRequest → Store → Store × Result Helper
  pub is_v3 : Helper → Bool

module _ (lib : PoolLib) where
  -- What the methods read of `bot_state`; a factory stands for its address.
  pub record Setup : Type 0 where
    pub pool_managers : Dict Value lib.Manager
    pub v2_factories : Dict String Value
    pub v3_factories : Dict String Value
    pub first_event : Value
    pub liquidity_pool_data : Dict String Lp

  -- The counters, and what `get_pool` was asked for, of which manager.
  pub record HelpersState : Type 0 where
    pub store : lib.Store
    pub v2_pools : ℕ
    pub v3_pools : ℕ
    pub asked : List (lib.Manager × PoolRequest)

  -- `d[key]`
  abbrev pub item_at : {A : Type 0} → Option A → Result A
  item_at none = raise key_error
  item_at (some a) = ok a

  abbrev pub ask : lib.Manager → PoolRequest → Exec HelpersState lib.Helper
  ask manager request s =
      let (store, r) = lib.get_pool manager request s.store in
      (record s { store = store; asked = s.asked ++ (manager, request) ∷ [] }, r)

  -- `except ManagerError`
  abbrev pub unless_manager_error : Result lib.Helper → Exec HelpersState (Option lib.Helper)
  unless_manager_error (ok helper) s = (s, ok (some helper))
  unless_manager_error (raise manager_error) s = (s, ok none)
  unless_manager_error (raise e) s = (s, raise e)

  abbrev pub count_helper : Option lib.Helper → Exec HelpersState (Unit {0})
  count_helper none s = (s, ok tt)
  count_helper (some helper) s =
      if lib.is_v3 helper
      then (record s { v3_pools = s.v3_pools + 1 }, ok tt)
      else (record s { v2_pools = s.v2_pools + 1 }, ok tt)

  module _ (setup : Setup) where
    abbrev pub managed : Result Value → Result lib.Manager
    managed (ok factory_address) = item_at (get Value_discrete factory_address setup.pool_managers)
    managed (raise e) = raise e

    -- `pool_managers[factories[pool_exchange]["factory_address"]]`
    unfoldable pub manager_at : Dict String Value → (pool_exchange : String) → Result lib.Manager
    unfolding get String_discrete Value_discrete
    manager_at factories pool_exchange =
        managed (item_at (get String_discrete pool_exchange factories))

    -- The `try` block.
    unfoldable pub get_pool_of :
        Dict String Value
        → (pool_exchange : String) → (ℤ → PoolRequest)
        → Exec HelpersState lib.Helper
    unfolding manager_at lift ◌>>=◌
    get_pool_of factories pool_exchange request = do
      pool_manager ← lift (manager_at factories pool_exchange)
      state_block ← lift (first_state_block setup.first_event)
      ask pool_manager (request state_block)

    unfoldable pub create_pool_helper :
        (pool_address : String) → Lp → Exec HelpersState (Option lib.Helper)
    unfolding get_pool_of attempt pure String_discrete ◌>>=◌
    create_pool_helper pool_address pool =
        if holds (String_discrete pool.type "UniswapV2")
        then (do
          r ← attempt (get_pool_of setup.v2_factories pool.exchange (v2_request pool_address))
          unless_manager_error r)
        else if holds (String_discrete pool.type "UniswapV3")
        then (do
          r ← attempt (
              get_pool_of setup.v3_factories pool.exchange
                (λ block. v3_request pool_address block pool.fee))
          unless_manager_error r)
        else pure none

    -- The body of the loop.
    unfoldable pub create_and_count : (pool_address : String) → Exec HelpersState (Unit {0})
    unfolding create_pool_helper get lift String_discrete ◌>>=◌
    create_and_count pool_address = do
      pool ← lift (item_at (get String_discrete pool_address setup.liquidity_pool_data))
      helper ← create_pool_helper pool_address pool
      count_helper helper

    unfoldable pub create_pool_helpers :
        (unique_pool_addresses : List String) → Exec HelpersState (Unit {0})
    unfolding create_and_count rounds
    create_pool_helpers addresses = rounds create_and_count addresses
