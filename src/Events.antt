-- ===== src/Events.antt =====
-- app/core/event_service.py: the handlers and the loop of process_uniswap_events. This file has
-- what they work on: the decoded event, the packages they call, and the bot's state.
pub mod Decoding
pub mod Updates
pub mod NewPools
pub mod Listening
pub mod Framing
pub mod Received
pub mod Registered
pub mod Queued
pub mod Stalled
pub mod Synced
pub mod Burned
use cream_bots.Prelude.{
  ℕ, String, Option, none, some, List, ◌∷◌, [], ◌++◌, Result, ok, raise, key_error,
}
use cream_bots.Prelude.Int.{ℤ}
use cream_bots.Prelude.Dict.{Dict}
use cream_bots.Prelude.Exec.{Exec}

-- `event["params"]["result"]`; a field is missing where the lookup raises a KeyError.
pub record EventLog : Type 0 where
  pub address : Option String
  pub block_number : Option String
  pub event_data : Option String
  pub topics : Option (List String)

-- A message of the channel: its type, what `message["params"]["result"]["blockNumber"]` finds, and
-- its data, missing where there is none or it is empty.
pub record Message : Type 0 where
  pub type_name : String
  pub first_block : Option String
  pub event_data : Option String

-- eth_utils, eth_abi, web3, ujson and `int(text, 16)`. The decoders take the hexadecimal text
-- and include `bytes.fromhex(text[2:])`; they are named for the fields the service reads.
pub record Codec : Type 0 where
  pub to_checksum_address : String → Result String
  pub int_16 : String → Result ℤ
  pub loads : String → Result EventLog
  pub keccak : String → String
  pub decode_int24 : String → Result ℤ
  -- uint128, uint256, uint256: the first
  pub decode_burn : String → Result ℕ
  -- address, uint128, uint256, uint256: the second
  pub decode_mint : String → Result ℕ
  -- uint112, uint112
  pub decode_sync : String → Result (ℕ × ℕ)
  -- int256, int256, uint160, uint128, int24: the last three
  pub decode_swap : String → Result (ℕ × ℕ × ℤ)
  -- address, uint256: the first
  pub decode_pair_created : String → Result String
  -- int24, address: the second
  pub decode_pool_created : String → Result String

-- degenbot's UniswapV3PoolExternalUpdate, with the fields that each of the two uses sets.
pub data ExternalUpdate : Type 0 where
  liquidity_change : (block_number : ℤ) (liquidity tick_lower tick_upper : ℤ) → ExternalUpdate
  price_change : (block_number : ℤ) (liquidity : ℕ) (tick : ℤ) (sqrt_price_x96 : ℕ) → ExternalUpdate

-- degenbot's pool managers, pool helpers and liquidity snapshot. They are objects: a value is a
-- reference, and a call changes the store of all of them, returns or raises.
pub record PoolStore : Type 1 where
  pub Store : Type 0
  pub Manager : Type 0
  pub Helper : Type 0
  pub helper_address : Helper → String
  pub get_pool : Manager → (pool_address : String) → (state_block : Option ℤ) → Exec Store Helper
  pub delitem : Manager → String → Exec Store (Unit {0})
  pub v2_manager : (factory_address : String) → Exec Store Manager
  pub v3_manager : (factory_address : String) → Exec Store Manager
  pub external_update : Helper → ExternalUpdate → Exec Store (Unit {0})
  pub update_reserves :
      Helper → (reserves0 reserves1 : ℕ) → (update_block : ℤ) → Exec Store (Unit {0})
  pub update_snapshot : (pool : String) → Helper → Exec Store (Unit {0})

module _ (lib : PoolStore) where
  open lib use {Store, Manager}

  -- What the service uses of `bot_state`; `puts` are the items of the tasks
  -- `pools_to_process.put(...)`, in the order of their creation.
  pub record State : Type 0 where
    pub store : Store
    pub pool_managers : Dict String Manager
    pub puts : List String
    pub first_event : Option String

  -- A call of degenbot.
  unfoldable pub call : {A : Type 0} → Exec Store A → Exec State A
  call f s = let (store', r) = f s.store in (record s { store = store' }, r)

  -- `asyncio.create_task(self.bot_state.pools_to_process.put(address))`
  unfoldable pub put_pool : String → Exec State (Unit {0})
  put_pool address s = (record s { puts = s.puts ++ address ∷ [] }, ok tt)

-- A lookup by a key that may be missing.
abbrev pub item : {A : Type 0} → Option A → Result A
item none = raise key_error
item (some a) = ok a
