-- ===== src/Lib.antt =====
-- A model of cream_bots, the arbitrage bots under src/cream_bots.
--
-- Parts. A builder script fetches the pools of each exchange into data files
-- (builders/lp_fetcher_v2.py, lp_fetcher_v3.py), another one the liquidity events of the v3 pools
-- (builders/liquidity_fetcher.py). A running bot has services that share one object, `bot_state`.
-- EventService (app/core/event_service.py) listens to a channel of chain events, updates the pools
-- and puts their addresses into the queue `pools_to_process`. ArbitrageService
-- (app/core/arbitrage_service.py) takes an address from the queue, looks up the arbitrage cycles
-- that it affects, has their profits calculated, and keeps the best ones that share no pool.
--
-- CallbackTransactionService (app/bots/callback_bot/callback_transaction_service.py) reads the
-- pending transactions, simulates each, and prints those of an aggregator that it finds by
-- AggregatorService (app/core/aggregator_service.py). BootstrapService
-- (app/core/bootstrap_service.py) copies the state that another program publishes into `bot_state`,
-- and BlacklistService (app/core/blacklist_service.py) keeps four lists in files. ExchangeService
-- (app/core/exchange_service.py) registers the configured factories in degenbot.
--
-- builders/arbs_2pool.py and arbs_3pool.py compute the arbitrage paths of two and of three pools
-- from the data files. PoolService (app/core/pool_service.py) makes the managers of the pools and
-- the helpers of the pools that the arbitrages need, and fills the table of the cycles,
-- `bot_state.all_arbs`.
--
-- Files.
-- Prelude: the names shared by all, and below it Python's lists, sets, dicts (association lists in
--   insertion order), `sorted` (stable), signed integers, exceptions as values (Outcome), code on a
--   state that may raise (Exec) and `for` loops (Loops, Rounds).
-- Degenbot: what the arbitrage service uses of the package degenbot and of the process pool.
-- Arbitrage: app/core/arbitrage_service.py. Types has ArbDetails; Affected has find_affected_arbs;
--   Ranking, Process and Reduction have the parts of process_onchain_arbs; Service has the queue
--   loop find_onchain_arbs and process_backrun_arbs. What the methods print is their result, a list
--   of Report, in the order in which the cycles were chosen; the source goes through them as a set,
--   so that its order is not specified.
-- Builders: LpFetcher has the work on one exchange of both fetchers, which differ in the entries
--   they store, and Fetchers their loops over chains and exchanges; Liquidity has the collection of
--   Mint and Burn events, Snapshot their merge into the snapshot, and SnapshotFile the file and the
--   loop over the chains (liquidity_fetcher.py); TwoPool has the index of the pools by token and
--   the search for paths (arbs_2pool.py), ThreePool the graph of the tokens and the search for
--   triangles (arbs_3pool.py).
-- Pools: app/core/pool_service.py. Pools has the filters of load_pools by the blacklists and its
--   table of the cycles, on contents of files, Loading the method with its state; Managers has
--   create_pool_managers, Helpers the unique addresses and create_pool_helpers.
-- Events: app/core/event_service.py. Decoding reads a message, Updates has the handlers of Burn,
--   Mint, Sync and Swap, NewPools those of PairCreated and PoolCreated, Listening the table _EVENTS
--   and the loop process_uniswap_events. `bot_state` is the record State. The helper functions that
--   a handler shares with another one in the model are written out twice in the source.
-- Blacklist: app/core/blacklist_service.py. Sets are lists of their items; the files are a function
--   from the type of a list to its content.
-- Json: channel messages and the JSON values in them.
-- Aggregator: app/core/aggregator_service.py.
-- Bootstrap: app/core/bootstrap_service.py. The attributes of `bot_state` are a dictionary.
-- Callback: app/bots/callback_bot/callback_transaction_service.py. Callback has clean_transaction,
--   Transactions the loop and the printing; State keeps what was simulated and what was printed.
-- Exchange: app/core/exchange_service.py. Exchange has add_deployments; State has the variable
--   `factory_deployment`, which lives through all the rounds, and what was given to
--   register_exchange. Routers has add_routers and add_aggregators, with get_chain_data, which the
--   repository does not define, as a parameter; the two lists of the bot's state that they read may
--   be missing in the model, as they are in every bot.
-- Anvil: app/core/anvil_service.py, which runs a transaction on a fork of the chain.
-- Bots: app/bots and main.py. Bots has the states that the bots begin with, Initialize the set-up
--   of the services on one state, Run how the program runs a bot and closes it.
-- Tests: runs on small inputs.
-- The child modules of a component have its lemmas and theorems.
--
-- Other packages. degenbot, the process pool, the node, networkx, the hash of web3, eth_abi,
-- eth_utils, ujson and `int(text, 16)` are parameters: records of operations that may raise. The
-- executor completes its futures in any order. degenbot's objects of the event service are
-- references to a store that each of its calls may change.
--
-- Bounds. The reduction of overlapping cycles has one unit of fuel for each cycle, since a round
-- drops one at least; a scan of an exchange has one for each block of the range; both are shown to
-- be enough. The collection of liquidity events has its fuel as an argument, and the theorem on it
-- says how much is enough once the node's answers do not fail any more. Queue and channel are
-- lists: the loops over them end with the list, where the program waits for the next item.
--
-- Not modelled. In add_deployments a null in place of the factories; log lines, timing, argument
-- parsers and connections; the event loop in which the method run of a bot starts its services as
-- tasks; the aggregator service of the callback bot, whose handler is empty; the helpers for redis
-- in config/helpers.py, which no modelled code calls; constants.
pub mod Prelude
pub mod Degenbot
pub mod Arbitrage
pub mod Builders
pub mod Events
pub mod Pools
pub mod Blacklist
pub mod Json
pub mod Aggregator
pub mod Bootstrap
pub mod Callback
pub mod Exchange
pub mod Anvil
pub mod Bots
mod Tests
