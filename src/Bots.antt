-- ===== src/Bots.antt =====
-- app/bots/ and main.py: the states that the bots begin with, and how the program runs a bot.
pub mod Initialize
pub mod Prepared
pub mod Started
pub mod Run
use cream_bots.Prelude.{
  String, String_discrete, Bool, true, false, Option, none, some, List, [], ◌∷◌, Result, ok, raise,
  key_error, type_error, value_error, ◌>>=◌, holds, if◌then◌else◌,
}
use cream_bots.Prelude.Dict.{Dict, get}
use cream_bots.Json.{Value, null, text, Object}

-- `chain_data[key]` and `chain_data.get(key)`
abbrev pub item_of : Option Value → Result Value
item_of none = raise key_error
item_of (some v) = ok v

unfoldable pub config_item : String → Object → Result Value
unfolding get String_discrete
config_item key chain_data = item_of (get String_discrete key chain_data)

abbrev pub value_or_null : Option Value → Value
value_or_null none = null
value_or_null (some v) = v

unfoldable pub config_value : String → Object → Value
unfolding get String_discrete
config_value key chain_data = value_or_null (get String_discrete key chain_data)

-- The attributes that another program's messages set; a new bot has None in them.
pub record Watched : Type 0 where
  pub average_blocktime : Value
  pub base_fee_last : Value
  pub base_fee_next : Value
  pub first_block : Value
  pub first_event : Value
  pub newest_block : Value
  pub newest_block_timestamp : Value
  pub watching_blocks : Bool
  pub watching_events : Bool

abbrev pub unwatched : Watched
unwatched = record {
  average_blocktime = null;
  base_fee_last = null;
  base_fee_next = null;
  first_block = null;
  first_event = null;
  newest_block = null;
  newest_block_timestamp = null;
  watching_blocks = false;
  watching_events = false;
}

-- The data of the states; clients, sessions, queues, pools of processes and the tables that
-- services fill, which are empty at first, are left out. A state of the callback bot has no
-- factories, and one of the sniper bot no watched attributes.
pub record BotData : Type 0 where
  pub aggregators : Value
  pub chain_id : Value
  pub chain_name : String
  pub factories : Option Value
  pub http_uri : Value
  pub live : Bool
  pub node : Value
  pub routers : Value
  pub websocket_uri : Value
  pub watched : Option Watched

-- ArbBotState and CallbackBotState.
unfoldable pub bot_data :
    (factories : Option Value) → (chain_name : String) → Object → Result BotData
unfolding config_item config_value
bot_data factories chain_name chain_data = do
  chain_id ← config_item "chain_id" chain_data
  http_uri ← config_item "http_uri" chain_data
  node ← config_item "node" chain_data
  websocket_uri ← config_item "websocket_uri" chain_data
  ok (record {
    aggregators = config_value "aggregators" chain_data;
    chain_id = chain_id;
    chain_name = chain_name;
    factories = factories;
    http_uri = http_uri;
    live = false;
    node = node;
    routers = config_value "routers" chain_data;
    websocket_uri = websocket_uri;
    watched = some unwatched;
  })

unfoldable pub arb_bot_state : (chain_name : String) → Object → Result BotData
unfolding bot_data config_value
arb_bot_state chain_name chain_data =
    bot_data (some (config_value "factories" chain_data)) chain_name chain_data

unfoldable pub callback_bot_state : (chain_name : String) → Object → Result BotData
unfolding bot_data
callback_bot_state = bot_data none

-- `if not chain_data: raise ValueError`
abbrev pub with_chain : Option Object → (Object → Result BotData) → Result BotData
with_chain none make = raise value_error
with_chain (some []) make = raise value_error
with_chain (some (e ∷ chain_data)) make = make (e ∷ chain_data)

-- ArbBot and CallbackBot, from `cream_chains_data` on.
unfoldable pub new_arb_bot : (chain_name : String) → Dict String Object → Result BotData
unfolding arb_bot_state get String_discrete
new_arb_bot chain_name chains =
    with_chain (get String_discrete chain_name chains) (arb_bot_state chain_name)

unfoldable pub new_callback_bot : (chain_name : String) → Dict String Object → Result BotData
unfolding callback_bot_state get String_discrete
new_callback_bot chain_name chains =
    with_chain (get String_discrete chain_name chains) (callback_bot_state chain_name)

-- SniperBot reads the chain's data before it tests whether there is any.
abbrev pub sniper_lookup : Option Object → String → Result Value
unfolding config_item
sniper_lookup none key = raise type_error
sniper_lookup (some chain_data) key = config_item key chain_data

unfoldable pub sniper_bot_state :
    (chain_name : String) → (chain_id : Value) → Object → Result BotData
unfolding config_item
sniper_bot_state chain_name chain_id chain_data = do
  aggregators ← config_item "aggregators" chain_data
  factories ← config_item "factories" chain_data
  http_uri ← config_item "http_uri" chain_data
  node ← config_item "node" chain_data
  routers ← config_item "routers" chain_data
  websocket_uri ← config_item "websocket_uri" chain_data
  ok (record {
    aggregators = aggregators;
    chain_id = chain_id;
    chain_name = chain_name;
    factories = some factories;
    http_uri = http_uri;
    live = true;
    node = node;
    routers = routers;
    websocket_uri = websocket_uri;
    watched = none;
  })

unfoldable pub setup_bot_state : (chain_name : String) → Option Object → Result BotData
unfolding sniper_bot_state config_item
setup_bot_state chain_name chain_data = do
  chain_id ← sniper_lookup chain_data "chain_id"
  _ ← sniper_lookup chain_data "websocket_uri"
  with_chain chain_data (sniper_bot_state chain_name chain_id)

unfoldable pub new_sniper_bot : (chain_name : String) → Dict String Object → Result BotData
unfolding setup_bot_state get String_discrete
new_sniper_bot chain_name chains =
    setup_bot_state chain_name (get String_discrete chain_name chains)
