-- ===== src/Pools/Loading.antt =====
-- The method load_pools as a whole: its files, the wait for the first event, the helpers, the table
-- of the cycles and the two flags at its end.
pub mod Data
pub mod Table
pub mod Live
use cream_bots.Prelude.{
  String, String_discrete, Bool, true, Option, none, some, List, [], ◌∷◌, ◌++◌, map, Result, ok,
  raise, attribute_error, if◌then◌else◌,
}
use cream_bots.Prelude.Dict.{Dict, keys}
use cream_bots.Prelude.Exec.{Exec, pure, lift, gets, ◌>>=◌, ◌>>◌}
use cream_bots.Prelude.Rounds.{rounds}
use cream_bots.Json.{Value, truthy}
use cream_bots.Degenbot.{Degenbot}
use cream_bots.Arbitrage.Types.{AllArbs}
use cream_bots.Builders.LpFetcher.{Lp}
use cream_bots.Blacklist.{Blacklists}
use cream_bots.Pools.{ArbData, Cycles, liquidity_pool_data, arb_paths, add_arb}
use cream_bots.Pools.Helpers.{
  PoolLib, Setup, HelpersState, unique_pool_addresses, create_pool_helpers,
}

-- The content of the data files: of an exchange, under the number of its version, and of the paths
-- of two and of three pools.
pub record DataDir : Type 0 where
  pub lp_file : (factory_name version : String) → Result (List Lp)
  pub arb_paths_2 : Result (Dict String ArbData)
  pub arb_paths_3 : Result (Dict String ArbData)

-- `chain_data.get("factories").get(version)`, by the names of the exchanges.
abbrev pub VersionFactories : Type 0
VersionFactories = Option (Dict String Value)

-- `factories.keys()`
abbrev pub factories_of : VersionFactories → Result (Dict String Value)
factories_of none = raise attribute_error
factories_of (some factories) = ok factories

-- `lp_filepaths`, as the names of exchanges with their version.
abbrev pub paths_of : (v2_factories v3_factories : Dict String Value) → List (String × String)
paths_of v2_factories v3_factories =
    map (λ name. (name, "2")) (keys v2_factories) ++ map (λ name. (name, "3")) (keys v3_factories)

-- The wait for the first event reads an attribute that the service does not have.
abbrev pub wait_for_event : Value → Result (Unit {0})
wait_for_event first_event = if truthy first_event then ok tt else raise attribute_error

-- The pools of degenbot's tables are those of the managers that stand in `store`; Erc20Token at the
-- chain's wrapped token, which may raise.
module _ (lib : Degenbot) (pools : PoolLib) (cycles_of : PoolLib.Store pools → Cycles lib)
    (wrapped_token : Result (Unit {0})) where
  open lib use {Cycle}

  pub record LoadState : Type 0 where
    pub helpers : HelpersState pools
    pub liquidity_pool_data : Dict String Lp
    pub unique_pool_addresses : List String
    pub all_arbs : AllArbs Cycle
    pub pools_loaded : Bool
    pub live : Bool

  -- What the method reads of `bot_state`.
  pub record LoadSetup : Type 0 where
    pub blacklists : Blacklists
    pub v2_factories : VersionFactories
    pub v3_factories : VersionFactories
    pub pool_managers : Dict Value (PoolLib.Manager pools)
    pub first_event : Value

  module _ (data_dir : DataDir) (setup : LoadSetup) where
    abbrev pub clear_pool_data : Exec LoadState (Unit {0})
    clear_pool_data s = (record s { liquidity_pool_data = [] }, ok tt)

    -- The body of the loop over the files.
    unfoldable pub load_file : String × String → Exec LoadState (Unit {0})
    unfolding cream_bots.Pools.liquidity_pool_data lift ◌>>=◌
    load_file (factory_name, version) = do
      content ← lift (data_dir.lp_file factory_name version)
      λ s. (
        record s {
          liquidity_pool_data =
              cream_bots.Pools.liquidity_pool_data setup.blacklists content s.liquidity_pool_data;
        },
        ok tt,
      )

    -- The loop over the two path files, with the pools at hand.
    unfoldable pub load_arb_paths : Exec LoadState (List ArbData)
    unfolding arb_paths lift gets pure ◌>>=◌
    load_arb_paths = do
      pool_data ← gets (λ s. s.liquidity_pool_data)
      two ← lift data_dir.arb_paths_2
      three ← lift data_dir.arb_paths_3
      pure (arb_paths setup.blacklists pool_data two ++ arb_paths setup.blacklists pool_data three)

    unfoldable pub set_unique : List ArbData → Exec LoadState (Unit {0})
    unfolding cream_bots.Pools.Helpers.unique_pool_addresses
    set_unique arbs s = (
      record s {
        unique_pool_addresses =
            cream_bots.Pools.Helpers.unique_pool_addresses s.liquidity_pool_data arbs [];
      },
      ok tt,
    )

    abbrev pub helper_setup :
        (v2_factories v3_factories : Dict String Value) → LoadState → Setup pools
    helper_setup v2_factories v3_factories s = record {
      pool_managers = setup.pool_managers;
      v2_factories = v2_factories;
      v3_factories = v3_factories;
      first_event = setup.first_event;
      liquidity_pool_data = s.liquidity_pool_data;
    }

    unfoldable pub make_helpers :
        (v2_factories v3_factories : Dict String Value) → Exec LoadState (Unit {0})
    unfolding create_pool_helpers
    make_helpers v2_factories v3_factories s =
        let (helpers, r) =
          create_pool_helpers pools (helper_setup v2_factories v3_factories s)
            s.unique_pool_addresses s.helpers in
        (record s { helpers = helpers }, r)

    abbrev pub keep_arbs : LoadState → Result (AllArbs Cycle) → LoadState × Result (Unit {0})
    keep_arbs s (ok all_arbs) = (record s { all_arbs = all_arbs }, ok tt)
    keep_arbs s (raise e) = (s, raise e)

    -- The body of the loop over the arbitrages.
    unfoldable pub load_arb : ArbData → Exec LoadState (Unit {0})
    unfolding add_arb
    load_arb arb s =
        keep_arbs s (add_arb lib (cycles_of s.helpers.store) setup.blacklists arb s.all_arbs)

    abbrev pub set_live : Exec LoadState (Unit {0})
    set_live s = (record s { pools_loaded = true; live = true }, ok tt)

    -- The parts of the method, and the method.
    unfoldable pub load_data :
        (v2_factories v3_factories : Dict String Value) → Exec LoadState (List ArbData)
    unfolding load_file load_arb_paths rounds ◌>>=◌
    load_data v2_factories v3_factories = do
      _ ← clear_pool_data
      _ ← rounds load_file (paths_of v2_factories v3_factories)
      load_arb_paths

    unfoldable pub build_table : List ArbData → Exec LoadState (Unit {0})
    unfolding load_arb rounds ◌>>=◌
    build_table arbs = rounds load_arb arbs >> set_live

    unfoldable pub build_cycles :
        (v2_factories v3_factories : Dict String Value) → List ArbData → Exec LoadState (Unit {0})
    unfolding make_helpers build_table lift ◌>>=◌
    build_cycles v2_factories v3_factories arbs = do
      _ ← make_helpers v2_factories v3_factories
      _ ← lift wrapped_token
      build_table arbs

    unfoldable pub load_cycles :
        (v2_factories v3_factories : Dict String Value) → List ArbData → Exec LoadState (Unit {0})
    unfolding set_unique build_cycles lift ◌>>=◌
    load_cycles v2_factories v3_factories arbs = do
      _ ← set_unique arbs
      _ ← lift (wait_for_event setup.first_event)
      build_cycles v2_factories v3_factories arbs

    unfoldable pub load_pools_method : Exec LoadState (Unit {0})
    unfolding load_data load_cycles lift ◌>>=◌
    load_pools_method = do
      v2_factories ← lift (factories_of setup.v2_factories)
      v3_factories ← lift (factories_of setup.v3_factories)
      arbs ← load_data v2_factories v3_factories
      load_cycles v2_factories v3_factories arbs
