-- ===== src/Bots/Initialize.antt =====
-- app/bots/arb_bot.py: initialize, which runs the set-up of three services on one `bot_state`.
use cream_bots.Prelude.{
  attribute_error, raise, String, String_discrete, Bool, Option, none, some, map, Result, ok,
}
use cream_bots.Prelude.Dict.{Dict, get}
use cream_bots.Prelude.Exec.{Exec, lift, ◌>>=◌}
use cream_bots.Bots.{Watched}
use cream_bots.Json.{Value, null, text}
use cream_bots.Degenbot.{Degenbot}
use cream_bots.Blacklist.{Service, load_blacklists}
use cream_bots.Exchange.{FactoryInfo, Factories, ChainData, add_deployments}
use cream_bots.Exchange as Exchange
use cream_bots.Pools.{Cycles}
use cream_bots.Pools.Managers.{Managers, ManagersState, FactoryData, create_pool_managers}
use cream_bots.Pools.Helpers.{PoolLib, PoolRequest}
use cream_bots.Pools.Loading.{DataDir, VersionFactories, LoadState, LoadSetup, load_pools_method}

-- Code that works on a part of the state.
unfoldable pub zoom : {S T A : Type 0} → (T → S) → (S → T → T) → Exec S A → Exec T A
zoom part with_part m t = let (s, r) = m (part t) in (with_part s t, r)

-- degenbot's managers, and `get_pool` of a manager, on one store.
pub record Kit : Type 1 where
  pub managers : Managers
  pub Helper : Type 0
  pub get_pool :
      Managers.Manager managers
      → PoolRequest
      → Managers.Store managers
      → Managers.Store managers × Result Helper
  pub is_v3 : Helper → Bool

abbrev pub pools_of : Kit → PoolLib
pools_of kit = record {
  Store = Managers.Store kit.managers;
  Manager = Managers.Manager kit.managers;
  Helper = kit.Helper;
  get_pool = kit.get_pool;
  is_v3 = kit.is_v3;
}

-- The factories of the chain's data, as the pool service reads them.
abbrev pub address_value : Option String → Value
address_value none = null
address_value (some a) = text a

abbrev pub addresses_of : Factories → Dict String Value
addresses_of factories = map (λ e. (e.0, address_value (e.1).factory_address)) factories

abbrev pub factory_data_of : Option (Dict String Factories) → FactoryData
factory_data_of none = none
factory_data_of (some versions) = some (map (λ e. (e.0, addresses_of e.1)) versions)

-- `chain_data.get("factories").get(version)`; without "factories" it raises like a version without
-- factories does.
unfoldable pub version_factories : (version : String) → FactoryData → VersionFactories
unfolding get String_discrete
version_factories version none = none
version_factories version (some versions) = get String_discrete version versions

module _ (exchange : Exchange.Degenbot) (kit : Kit) (lib : Degenbot)
    (cycles_of : Managers.Store kit.managers → Cycles lib) (wrapped_token : Result (Unit {0})) where
  -- `bot_state`, by the services that work on it.
  pub record BotState : Type 0 where
    pub deployments : Exchange.State exchange
    pub managers : ManagersState kit.managers
    pub blacklist : Service
    pub load : LoadState lib (pools_of kit) cycles_of wrapped_token

  module _ (data_dir : DataDir) (chain : ChainData) (first_event : Value) where
    abbrev pub setup_of : BotState → LoadSetup lib (pools_of kit) cycles_of wrapped_token
    setup_of s = record {
      blacklists = (s.blacklist).blacklists;
      v2_factories = version_factories "v2" (factory_data_of chain.factories);
      v3_factories = version_factories "v3" (factory_data_of chain.factories);
      pool_managers = (s.managers).pool_managers;
      first_event = first_event;
    }

    -- The store is the one that the managers stand in.
    abbrev pub load_of : BotState → LoadState lib (pools_of kit) cycles_of wrapped_token
    load_of s = record s.load { helpers = record (s.load).helpers { store = (s.managers).store } }

    abbrev pub with_load :
        LoadState lib (pools_of kit) cycles_of wrapped_token → BotState → BotState
    with_load l s = record s {
      load = l;
      managers = record s.managers { store = (l.helpers).store };
    }

    unfoldable pub load_step : Exec BotState (Unit {0})
    unfolding zoom load_pools_method version_factories
    load_step s =
        zoom load_of with_load
          (load_pools_method lib (pools_of kit) cycles_of wrapped_token data_dir (setup_of s)) s

    unfoldable pub deployments_step : Exec BotState (Unit {0})
    unfolding zoom add_deployments
    deployments_step =
        zoom (λ s. s.deployments) (λ d s. record s { deployments = d })
          (add_deployments exchange chain)

    unfoldable pub managers_step : Exec BotState (Unit {0})
    unfolding zoom create_pool_managers
    managers_step =
        zoom (λ s. s.managers) (λ m s. record s { managers = m })
          (create_pool_managers kit.managers (some (factory_data_of chain.factories)) first_event)

    unfoldable pub blacklists_step : Exec BotState (Unit {0})
    unfolding load_blacklists
    blacklists_step s = (record s { blacklist = load_blacklists s.blacklist }, ok tt)

    unfoldable pub initialize : Exec BotState (Unit {0})
    unfolding deployments_step managers_step blacklists_step load_step ◌>>=◌
    initialize = do _ ← deployments_step; _ ← managers_step; _ ← blacklists_step; load_step

  -- `bot_state.first_event`
  abbrev pub first_event_of : Option Watched → Result Value
  first_event_of none = raise attribute_error
  first_event_of (some watched) = ok watched.first_event

  -- `SniperBot.bootstrap`, where the call of load_pools is a comment, on a state with the watched
  -- attributes or without them. The wait for the first event reads one of them.
  unfoldable pub bootstrap : DataDir → ChainData → Option Watched → Exec BotState (Unit {0})
  unfolding deployments_step managers_step blacklists_step lift ◌>>=◌
  bootstrap data_dir chain watched = do
    _ ← deployments_step data_dir chain null
    first_event ← lift (first_event_of watched)
    _ ← managers_step data_dir chain first_event
    blacklists_step data_dir chain first_event
