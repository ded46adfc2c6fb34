-- ===== src/Pools/Helpers/Asked.antt =====
-- create_pool_helpers as a whole: what it asks for, and how it ends.
use cream_bots.Prelude.{
  String, String_discrete, some, List, [], ◌∷◌, ◌++◌, ◌≡◌, ◌≢◌, Result, ok, raise, manager_error,
}
use cream_bots.Prelude.Int.{ℤ}
use cream_bots.Prelude.Dict.{Dict, get}
use cream_bots.Json.{Value, Value_discrete}
use cream_bots.Builders.LpFetcher.{Lp}
use cream_bots.Pools.Managers.{first_state_block}
use cream_bots.Pools.Helpers.{PoolRequest, v2_request, v3_request, PoolLib, Setup, HelpersState}
use cream_bots.Pools.Helpers.Served.{Request, IsServed}

module _ (lib : PoolLib) where
  module _ (setup : Setup lib) (block : ℤ) where
    -- The manager of the factory of an exchange.
    pub record IsManager (factories : Dict String Value) (pool_exchange : String) (m : lib.Manager)
        : Type 0 where
      pub factory_address : Value
      pub has_factory : get String_discrete pool_exchange factories ≡ some factory_address
      pub has_manager : get Value_discrete factory_address setup.pool_managers ≡ some m

    -- What is to be asked for at an address: of the manager of its exchange, the pool at the block,
    -- a v3 pool with its fee, and of another type nothing.
    pub data IsWanted (a : String) : List (Request lib) → Type 0 where
      wants_v2 :
          (pool : Lp) (m : lib.Manager)
          → get String_discrete a setup.liquidity_pool_data ≡ some pool
          → pool.type ≡ "UniswapV2"
          → IsManager setup.v2_factories pool.exchange m
          → IsWanted a ((m, v2_request a block) ∷ [])
      wants_v3 :
          (pool : Lp) (m : lib.Manager)
          → get String_discrete a setup.liquidity_pool_data ≡ some pool
          → pool.type ≡ "UniswapV3"
          → IsManager setup.v3_factories pool.exchange m
          → IsWanted a ((m, v3_request a block pool.fee) ∷ [])
      wants_nothing :
          (pool : Lp)
          → get String_discrete a setup.liquidity_pool_data ≡ some pool
          → pool.type ≢ "UniswapV2"
          → pool.type ≢ "UniswapV3"
          → IsWanted a []

    pub data AreWanted : List String → List (Request lib) → Type 0 where
      none_left : AreWanted [] []
      one_more :
          (a : String) (addresses : List String) (xs ys : List (Request lib))
          → IsWanted a xs
          → AreWanted addresses ys
          → AreWanted (a ∷ addresses) (xs ++ ys)

    -- A round of the loop; an exception that ends it is not a ManagerError.
    abbrev IsRound : String → HelpersState lib → HelpersState lib × Result (Unit {0}) → Type 0
    IsRound a s (s', ok _) = (rs : List (Request lib)) × IsWanted a rs × IsServed lib rs s s'
    IsRound a s (s', raise e) = e ≢ manager_error

    -- All addresses were served, or those in front of one whose round raised the exception.
    abbrev pub IsRun :
        List String → HelpersState lib → HelpersState lib × Result (Unit {0}) → Type 0
    IsRun addresses s (s', ok _) =
        (rs : List (Request lib)) × AreWanted addresses rs × IsServed lib rs s s'
    IsRun addresses s (s', raise e) =
        (e ≢ manager_error)
        × ((done : List String) × (a : String) × (rest : List String) × (rs : List (Request lib))
            × (s₁ : HelpersState lib) × (addresses ≡ done ++ a ∷ rest)
            × AreWanted done rs
            × IsServed lib rs s s₁)

    module _ (has_block : first_state_block setup.first_event ≡ ok block) where
      abbrev asking : lib.Manager → PoolRequest → lib.Store → HelpersState lib → HelpersState lib
      asking m q store s = record s { store = store; asked = s.asked ++ (m, q) ∷ [] }
