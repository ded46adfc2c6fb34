-- ===== src/Builders/Fetchers.antt =====
-- builders/lp_fetcher_v2.py and builders/lp_fetcher_v3.py as scripts: the chains that they are run
-- for, the exchanges of each chain, and the data files.
pub mod Answered
use cream_bots.Prelude.{
  ℕ, String, String_discrete, Bool, Option, none, some, List, [], ◌∷◌, Result, ok, raise, key_error,
  attribute_error, holds, if◌then◌else◌,
}
use cream_bots.Prelude.Dict.{Dict, get, put}
use cream_bots.Prelude.Exec.{Exec, lift, ◌>>=◌}
use cream_bots.Prelude.Rounds.{rounds}
use cream_bots.Builders.LpFetcher.{
  Lp, PairCreated, PoolCreated, v2_entry, v3_entry, Progress, Ending, failed, fetch_exchange,
}

-- What the scripts read of an exchange in the data of its chain.
pub record ExchangeDetails : Type 0 where
  pub factory_address : String
  pub factory_deployment_block : ℕ
  pub fee : Option ℕ

-- `chain_data.get("factories").get(version)` of each chain.
abbrev pub Chains : Type 0
Chains = Dict String (Option (Dict String ExchangeDetails))

-- The data files of the version, by chain and exchange.
unfoldable pub key_discrete : Discrete (String × String)
unfolding String_discrete
key_discrete = hlevel String_discrete

abbrev pub DataFiles : Type 0
DataFiles = Dict (String × String) (List Lp)

-- The node of a chain: its height, when an exchange's turn comes, and the logs of a factory; and
-- the flag `keep_running`, as the rounds of an exchange and the line behind them read it.
pub record FetchNode (Event : Type 0) : Type 0 where
  pub block_number : (chain_name exchange_name : String) → Result ℕ
  pub get_logs : (chain_name factory_address : String) → ℕ → ℕ → Result (List Event)
  pub keep_running : (chain_name exchange_name : String) → ℕ → Bool
  pub running_after : (chain_name exchange_name : String) → Bool

-- `{args.chain_name: cream_chains_data[args.chain_name]}`
abbrev pub one_chain : String → Option (Option (Dict String ExchangeDetails)) → Result Chains
one_chain name none = raise key_error
one_chain name (some factories) = ok ((name, factories) ∷ [])

-- `chains_to_process`
unfoldable pub chains_to_process : Option String → Chains → Result Chains
unfolding get String_discrete
chains_to_process none chains = ok chains
chains_to_process (some name) chains =
    if holds (String_discrete name "")
    then ok chains
    else one_chain name (get String_discrete name chains)

-- `factories.items()`
abbrev pub exchanges_of :
    Option (Dict String ExchangeDetails) → Result (Dict String ExchangeDetails)
exchanges_of none = raise attribute_error
exchanges_of (some factories) = ok factories

-- The file after the work on an exchange, if there is one then.
unfoldable pub write_data : String × String → Option (List Lp) → DataFiles → DataFiles
unfolding put key_discrete
write_data key none files = files
write_data key (some lp_data) files = put key_discrete key lp_data files

-- An exception ends the script; what was written stays.
abbrev pub after_exchange : String × String → Progress × Ending → Exec DataFiles (Unit {0})
unfolding write_data
after_exchange key (p, failed e) files = (write_data key p.file files, raise e)
after_exchange key (p, _) files = (write_data key p.file files, ok tt)

module _ {Event : Type 0} (entry : ExchangeDetails → (exchange_name : String) → Event → Lp)
    (node : FetchNode Event) where
  -- The body of the inner loop.
  unfoldable pub fetch_factory :
      (chain_name : String) → String × ExchangeDetails → Exec DataFiles (Unit {0})
  unfolding after_exchange fetch_exchange get key_discrete lift ◌>>=◌
  fetch_factory chain_name (exchange_name, details) = do
    current_block ← lift (node.block_number chain_name exchange_name)
    λ files.
        after_exchange (chain_name, exchange_name)
          (fetch_exchange (node.get_logs chain_name details.factory_address)
            (entry details exchange_name) (node.keep_running chain_name exchange_name) current_block
            details.factory_deployment_block (node.running_after chain_name exchange_name)
            (get key_discrete (chain_name, exchange_name) files))
          files

  -- The body of the outer loop.
  unfoldable pub fetch_chain :
      String × Option (Dict String ExchangeDetails) → Exec DataFiles (Unit {0})
  unfolding fetch_factory rounds lift ◌>>=◌
  fetch_chain (chain_name, factories) = do
    exchanges ← lift (exchanges_of factories)
    rounds (fetch_factory chain_name) exchanges

  unfoldable pub fetch_chains : (chain_name : Option String) → Chains → Exec DataFiles (Unit {0})
  unfolding chains_to_process fetch_chain rounds lift ◌>>=◌
  fetch_chains chain_name chains = do
    selected ← lift (chains_to_process chain_name chains)
    rounds fetch_chain selected

-- `main` of the two scripts.
unfoldable pub fetch_v2 :
    FetchNode PairCreated → (chain_name : Option String) → Chains → Exec DataFiles (Unit {0})
unfolding fetch_chains v2_entry
fetch_v2 = fetch_chains (λ details. v2_entry details.fee)

unfoldable pub fetch_v3 :
    FetchNode PoolCreated → (chain_name : Option String) → Chains → Exec DataFiles (Unit {0})
unfolding fetch_chains v3_entry
fetch_v3 = fetch_chains (λ details. v3_entry)
