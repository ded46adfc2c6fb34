-- ===== src/Exchange.antt =====
-- app/core/exchange_service.py: ExchangeService registers the factories of the chain in degenbot.
pub mod Registered
pub mod Built
pub mod Complete
pub mod Routers
use cream_bots.Prelude.{
  String, String_discrete, Bool, Option, none, some, List, [], ◌∷◌, ◌++◌, Result, ok, holds,
  if◌then◌else◌,
}
use cream_bots.Prelude.Int.{ℤ}
use cream_bots.Prelude.Dict.{Dict}
use cream_bots.Prelude.Exec.{Exec, pure, lift, gets, ◌>>=◌, ◌>>◌}
use cream_bots.Prelude.Rounds.{rounds}
use cream_bots.Prelude.Text.{spaced}

-- A factory in the chain's data; a key that is missing is None.
pub record FactoryInfo : Type 0 where
  pub factory_address : Option String
  pub pool_init_hash : Option String
  pub tick_lens : Option String

-- The factories of a version, and the versions.
abbrev pub Factories : Type 0
Factories = Dict String FactoryInfo

pub record ChainData : Type 0 where
  pub chain_id : ℤ
  pub name : String
  pub factories : Option (Dict String Factories)

-- The pool ABIs of degenbot.
pub data PoolAbi : Type 0 where
  uniswap_v2_abi uniswap_v3_abi pancakeswap_v3_abi : PoolAbi

-- UniswapV2ExchangeDeployment, without a tick lens, and UniswapV3ExchangeDeployment.
pub record Deployment : Type 0 where
  pub name : String
  pub chain_id : ℤ
  pub address : String
  pub pool_init_hash : Option String
  pub pool_abi : PoolAbi
  pub tick_lens : Option String

-- degenbot's deployments: `setdefault(chain_id, {})` on both dictionaries, `address in
-- FACTORY_DEPLOYMENTS[chain_id]`, and register_exchange, which may raise; and to_checksum_address.
pub record Degenbot : Type 1 where
  pub Deployments : Type 0
  pub setdefault : ℤ → Deployments → Deployments
  pub has_factory : ℤ → String → Deployments → Bool
  pub register_exchange : Deployment → Deployments → Deployments × Result (Unit {0})
  pub checksum : Option String → Result String

module _ (lib : Degenbot) where
  -- degenbot's deployments, the variable `factory_deployment`, if it is bound, and the deployments
  -- that register_exchange was called with.
  pub record State : Type 0 where
    pub deployments : lib.Deployments
    pub factory_deployment : Option Deployment
    pub given : List Deployment

  abbrev pub bind_deployment : Deployment → Exec State (Unit {0})
  bind_deployment d s = (record s { factory_deployment = some d }, ok tt)

  -- The call of register_exchange in its `try`, where a variable that is not bound is an exception
  -- too; both are logged.
  abbrev pub register_bound : Option Deployment → Exec State (Unit {0})
  register_bound none s = (s, ok tt)
  register_bound (some d) s = (
    record s { deployments = (lib.register_exchange d s.deployments).0; given = s.given ++ d ∷ [] },
    ok tt,
  )

  unfoldable pub register_factory : Exec State (Unit {0})
  register_factory s = register_bound s.factory_deployment s

  module _ (chain : ChainData) where
    -- The deployments that are built for a factory.
    unfoldable pub v2_deployment : (exchange_name address : String) → FactoryInfo → Deployment
    unfolding spaced
    v2_deployment exchange_name address factory_info = record {
      name = spaced chain.name exchange_name "v2";
      chain_id = chain.chain_id;
      address = address;
      pool_init_hash = factory_info.pool_init_hash;
      pool_abi = uniswap_v2_abi;
      tick_lens = none;
    }

    unfoldable pub v3_deployment :
        PoolAbi → (exchange_name address tick_lens : String) → FactoryInfo → Deployment
    unfolding spaced
    v3_deployment pool_abi exchange_name address tick_lens factory_info = record {
      name = spaced chain.name exchange_name "v3";
      chain_id = chain.chain_id;
      address = address;
      pool_init_hash = factory_info.pool_init_hash;
      pool_abi = pool_abi;
      tick_lens = some tick_lens;
    }

    -- `if version == "v2"`
    unfoldable pub add_v2 : (exchange_name address : String) → FactoryInfo → Exec State (Unit {0})
    unfolding v2_deployment register_factory ◌>>=◌
    add_v2 exchange_name address factory_info =
        bind_deployment (v2_deployment exchange_name address factory_info) >> register_factory

    -- The name of the exchange selects the ABI; of any other name, nothing is bound.
    unfoldable pub bind_v3 :
        (exchange_name address tick_lens : String) → FactoryInfo → Exec State (Unit {0})
    unfolding v3_deployment pure String_discrete
    bind_v3 exchange_name address tick_lens factory_info =
        if holds (String_discrete exchange_name "uniswap")
        then bind_deployment
            (v3_deployment uniswap_v3_abi exchange_name address tick_lens factory_info)
        else if holds (String_discrete exchange_name "pancakeswap")
        then bind_deployment
            (v3_deployment pancakeswap_v3_abi exchange_name address tick_lens factory_info)
        else pure tt

    -- `if version == "v3"`
    unfoldable pub add_v3 : (exchange_name address : String) → FactoryInfo → Exec State (Unit {0})
    unfolding bind_v3 register_factory lift ◌>>=◌
    add_v3 exchange_name address factory_info = do
      tick_lens ← lift (lib.checksum factory_info.tick_lens)
      _ ← bind_v3 exchange_name address tick_lens factory_info
      register_factory

    unfoldable pub add_unknown :
        (version exchange_name address : String) → FactoryInfo → Exec State (Unit {0})
    unfolding add_v2 add_v3 pure String_discrete
    add_unknown version exchange_name address factory_info =
        if holds (String_discrete version "v2")
        then add_v2 exchange_name address factory_info
        else if holds (String_discrete version "v3")
        then add_v3 exchange_name address factory_info
        else pure tt

    -- The body of the inner loop.
    unfoldable pub add_factory : (version : String) → String × FactoryInfo → Exec State (Unit {0})
    unfolding add_unknown gets lift pure ◌>>=◌
    add_factory version (exchange_name, factory_info) = do
      factory_address ← lift (lib.checksum factory_info.factory_address)
      known ← gets (λ s. lib.has_factory chain.chain_id factory_address s.deployments)
      (if known then pure tt else add_unknown version exchange_name factory_address factory_info)

    unfoldable pub add_version : String × Factories → Exec State (Unit {0})
    unfolding add_factory rounds
    add_version (version, factories) = rounds (add_factory version) factories

    -- None is a missing key; the null value, on which `.items()` raises, is left out.
    abbrev pub factory_data : Option (Dict String Factories) → Dict String Factories
    factory_data none = []
    factory_data (some versions) = versions

    abbrev pub set_defaults : Exec State (Unit {0})
    set_defaults s = (record s { deployments = lib.setdefault chain.chain_id s.deployments }, ok tt)

    unfoldable pub add_deployments : Exec State (Unit {0})
    unfolding add_version rounds ◌>>=◌
    add_deployments = set_defaults >> rounds add_version (factory_data chain.factories)
