-- ===== src/Exchange/Routers.antt =====
-- app/core/exchange_service.py: add_routers and add_aggregators.

use cream_bots.Prelude.{
  String, String_discrete, Bool, Option, none, some, List, [], ◌∷◌, ◌++◌, Result, ok, raise,
  attribute_error, if◌then◌else◌,
}
use cream_bots.Prelude.Int.{ℤ}
use cream_bots.Prelude.Dict.{Dict, put}
use cream_bots.Prelude.Exec.{Exec, pure, lift, gets, ◌>>=◌, ◌>>◌}
use cream_bots.Prelude.Rounds.{rounds}

-- UniswapRouterDeployment, whose exchanges are always [].
pub record RouterDeployment : Type 0 where
  pub address : String
  pub chain_id : ℤ
  pub name : Option String

-- degenbot's routers: `setdefault(chain_id, {})`, `address in ROUTER_DEPLOYMENTS[chain_id]` and
-- register_router, which may raise; to_checksum_address, and the contracts of web3.
pub record RouterLib : Type 1 where
  pub Deployments : Type 0
  pub setdefault : ℤ → Deployments → Deployments
  pub has_router : ℤ → String → Deployments → Bool
  pub register_router : RouterDeployment → Deployments → Deployments × Result (Unit {0})
  pub checksum : String → Result String
  pub Abi : Type 0
  pub Contract : Type 0
  pub contract : (address : String) → Abi → Result Contract

module _ (lib : RouterLib) where
  -- What the chain's data says of a router.
  pub record RouterDetails : Type 0 where
    pub name : Option String
    pub abi : Option lib.Abi

  -- The chain's data; "aggregators" is None if it is there as null, and empty if it is not there.
  pub record RouterChain : Type 0 where
    pub routers : Dict String RouterDetails
    pub aggregators : Option (List String)

  -- degenbot's routers, what register_router was called with, the two lists of the bot's state,
  -- each if it has that attribute, the contracts that were put in the details of a router, and the
  -- commands for redis that were made: nothing awaits them.
  pub record RouterState : Type 0 where
    pub deployments : lib.Deployments
    pub given : List RouterDeployment
    pub router_addresses : Option (List String)
    pub aggregator_addresses : Option (List String)
    pub contracts : Dict String lib.Contract
    pub commands : List (String × Option (List String))

  -- A list with one more item, if there is the list.
  abbrev pub appended : String → Option (List String) → Option (List String)
  appended a none = none
  appended a (some l) = some (l ++ a ∷ [])

  -- The value of an attribute of the bot's state.
  abbrev pub attribute : (RouterState → Option (List String)) → Exec RouterState (List String)
  attribute read s = (s, present (read s))
    where
      present : Option (List String) → Result (List String)
      present none = raise attribute_error
      present (some l) = ok l

  unfoldable pub append_router : String → Exec RouterState (Unit {0})
  append_router address s =
      (record s { router_addresses = appended address s.router_addresses }, ok tt)

  -- `register_router` in its `try`.
  unfoldable pub hand_over : RouterDeployment → Exec RouterState (Unit {0})
  hand_over d s = (
    record s { deployments = (lib.register_router d s.deployments).0; given = s.given ++ d ∷ [] },
    ok tt,
  )

  -- `router_details["w3"]` in its `try`.
  abbrev pub contract_of : Option lib.Abi → String → Option lib.Contract
  contract_of none address = none
  contract_of (some abi) address = elim (lib.contract address abi) [
    | ok c ↦ some c
    | raise _ ↦ none
  ]

  unfoldable pub store_contract :
      String → Option lib.Contract → Dict String lib.Contract → Dict String lib.Contract
  unfolding put String_discrete
  store_contract key none contracts = contracts
  store_contract key (some c) contracts = put String_discrete key c contracts

  unfoldable pub add_contract : (key address : String) → RouterDetails → Exec RouterState (Unit {0})
  unfolding store_contract
  add_contract key address details s = (
    record s { contracts = store_contract key (contract_of details.abi address) s.contracts },
    ok tt,
  )

  unfoldable pub add_new : ℤ → (key address : String) → RouterDetails → Exec RouterState (Unit {0})
  unfolding hand_over add_contract ◌>>=◌
  add_new chain_id key address details =
      hand_over (record { address = address; chain_id = chain_id; name = details.name })
      >> add_contract key address details

  -- The body of the loop.
  unfoldable pub add_router : ℤ → String × RouterDetails → Exec RouterState (Unit {0})
  unfolding append_router add_new lift gets pure ◌>>=◌
  add_router chain_id (key, details) = do
    router_address ← lift (lib.checksum key)
    _ ← append_router router_address
    known ← gets (λ s. lib.has_router chain_id router_address s.deployments)
    (if known then pure tt else add_new chain_id key router_address details)

  abbrev pub set_router_default : ℤ → Exec RouterState (Unit {0})
  set_router_default chain_id s =
      (record s { deployments = lib.setdefault chain_id s.deployments }, ok tt)

  abbrev pub command_routers : Exec RouterState (Unit {0})
  command_routers s =
      (record s { commands = s.commands ++ ("router_addresses", s.router_addresses) ∷ [] }, ok tt)

  abbrev pub command_aggregators : Exec RouterState (Unit {0})
  command_aggregators s = (
    record s { commands = s.commands ++ ("aggregator_addresses", s.aggregator_addresses) ∷ [] },
    ok tt,
  )

  unfoldable pub add_routers_of : Option RouterChain × ℤ → Exec RouterState (Unit {0})
  unfolding add_router rounds pure ◌>>=◌
  add_routers_of (none, chain_id) = pure tt
  add_routers_of (some chain, chain_id) = do
    _ ← set_router_default chain_id
    _ ← rounds (add_router chain_id) chain.routers
    command_routers

  -- The method get_chain_data is nowhere in the repository: its result is a parameter.
  unfoldable pub add_routers :
      (get_chain_data : Result (Option RouterChain × ℤ)) → Exec RouterState (Unit {0})
  unfolding add_routers_of lift ◌>>=◌
  add_routers get_chain_data = do
    _ ← attribute (λ s. s.router_addresses)
    chain ← lift get_chain_data
    add_routers_of chain

  -- The body of the loop: the address is checked, and appended as it is.
  unfoldable pub add_aggregator : String → Exec RouterState (Unit {0})
  unfolding lift ◌>>=◌
  add_aggregator aggregator_address = do
    _ ← lift (lib.checksum aggregator_address)
    λ s. (
      record s { aggregator_addresses = appended aggregator_address s.aggregator_addresses },
      ok tt,
    )

  abbrev pub each_aggregator : Option (List String) → Exec RouterState (Unit {0})
  unfolding add_aggregator rounds pure
  each_aggregator none = pure tt
  each_aggregator (some addresses) = rounds add_aggregator addresses

  unfoldable pub add_aggregators_of : Option RouterChain × ℤ → Exec RouterState (Unit {0})
  unfolding add_aggregator rounds pure ◌>>=◌
  add_aggregators_of (none, chain_id) = pure tt
  add_aggregators_of (some chain, chain_id) =
      each_aggregator chain.aggregators >> command_aggregators

  unfoldable pub add_aggregators :
      (get_chain_data : Result (Option RouterChain × ℤ)) → Exec RouterState (Unit {0})
  unfolding add_aggregators_of lift ◌>>=◌
  add_aggregators get_chain_data = do
    _ ← attribute (λ s. s.aggregator_addresses)
    chain ← lift get_chain_data
    add_aggregators_of chain
