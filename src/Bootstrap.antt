-- ===== src/Bootstrap.antt =====
-- app/core/bootstrap_service.py: BootstrapService copies the state that another program publishes
-- into the attributes of `bot_state`.
pub mod Latest
use cream_bots.Prelude.{
  String, String_discrete, Bool, true, false, Option, none, some, List, [], ◌∷◌, Result, ok, raise,
  key_error, ◌>>=◌, holds, if◌then◌else◌,
}
use cream_bots.Prelude.Dict.{Dict, get, put}
use cream_bots.Json.{ChannelMessage, Value, Object}

-- `relevant_keys`
abbrev pub relevant_keys : List String
relevant_keys =
    "average_blocktime" ∷ "base_fee_last" ∷ "base_fee_next" ∷ "chain_id" ∷ "chain_name"
    ∷ "first_block" ∷ "first_event" ∷ "newest_block" ∷ "newest_block_timestamp" ∷ "live" ∷ "node"
    ∷ "watching_blocks" ∷ "watching_events" ∷ []

-- `if key in app_state: setattr(...)`
unfoldable pub set_attribute : String → Option Value → Object → Object
unfolding put String_discrete
set_attribute key none bot_state = bot_state
set_attribute key (some value) bot_state = put String_discrete key value bot_state

unfoldable pub update_attributes : List String → (app_state : Object) → Object → Object
unfolding set_attribute get String_discrete
update_attributes [] app_state bot_state = bot_state
update_attributes (key ∷ keys) app_state bot_state =
    update_attributes keys app_state
      (set_attribute key (get String_discrete key app_state) bot_state)

unfoldable pub update_bot_state : (app_state : Object) → Object → Object
unfolding update_attributes
update_bot_state = update_attributes relevant_keys

-- How the service ends: with the messages, or by an exception, which is logged. After it, no
-- message is read any more.
pub record Outcome : Type 0 where
  pub bot_state : Object
  pub ended_by_error : Bool

-- `ujson.loads(message["data"].decode("utf-8"))` is `loads`, at the data if there is any.
module _ (loads : String → Result Object) where
  abbrev pub read_state : Option String → Result Object
  read_state none = raise key_error
  read_state (some data_text) = loads data_text

  unfoldable pub receive_state : ChannelMessage → Object → Result Object
  unfolding update_bot_state String_discrete
  receive_state message bot_state =
      if holds (String_discrete message.type_name "message")
      then (do
        app_state ← read_state message.channel_data
        ok (update_bot_state app_state bot_state))
      else ok bot_state

  -- The next message, or the end by the exception.
  abbrev pub go_on : Object → Result Object → (Object → Outcome) → Outcome
  go_on bot_state (ok after) next = next after
  go_on bot_state (raise _) next = record { bot_state = bot_state; ended_by_error = true }

  -- `start`
  unfoldable pub start : List ChannelMessage → Object → Outcome
  unfolding receive_state
  start [] bot_state = record { bot_state = bot_state; ended_by_error = false }
  start (m ∷ rest) bot_state =
      go_on bot_state (receive_state m bot_state) (λ after. start rest after)
