-- ===== src/Events/Listening.antt =====
-- The table _EVENTS and the loop over the messages of the channel. A round of `while True` ends
-- with an exception; the next round goes on with the message after the one that raised it. The
-- end by a CancelledError, which no message causes, is the end of the list of messages.
use cream_bots.Prelude.{
  String, String_discrete, Option, none, some, List, [], ◌∷◌, ok, holds, if◌then◌else◌,
}
use cream_bots.Prelude.Dict.{Dict, get, put}
use cream_bots.Prelude.Exec.{Exec, pure, lift, gets, ◌>>=◌}
use cream_bots.Events.{EventLog, Message, Codec, PoolStore, State, item}
use cream_bots.Events.Decoding.{topic0}
use cream_bots.Events.Updates.{
  process_burn_event, process_mint_event, process_sync_event, process_swap_event,
}
use cream_bots.Events.NewPools.{process_new_v2_pool_event, process_new_v3_pool_event}

-- The functions that the table names.
pub data Handler : Type 0 where
  sync mint burn swap new_v2_pool new_v3_pool : Handler

module _ (codec : Codec) where
  -- `_EVENTS`
  unfoldable pub event_table : Dict String Handler
  unfolding put String_discrete
  event_table =
      let row : String → Handler → Dict String Handler → Dict String Handler =
        λ signature handler table. put String_discrete (codec.keccak signature) handler table in
      row "PoolCreated(address,address,uint24,int24,address)" new_v3_pool (
        row "PairCreated(address,address,address,uint256)" new_v2_pool (
          row "Swap(address,address,int256,int256,uint160,uint128,int24)" swap (
            row "Burn(address,int24,int24,uint128,uint256,uint256)" burn (
              row "Mint(address,address,int24,int24,uint128,uint256,uint256)" mint
                (row "Sync(uint112,uint112)" sync [])))))

  module _ (lib : PoolStore) where
    unfoldable pub process : Handler → EventLog → Exec (State lib) (Unit {0})
    unfolding process_burn_event process_mint_event process_sync_event process_swap_event
        process_new_v2_pool_event process_new_v3_pool_event
    process sync = process_sync_event lib codec
    process mint = process_mint_event lib codec
    process burn = process_burn_event lib codec
    process swap = process_swap_event lib codec
    process new_v2_pool = process_new_v2_pool_event lib codec
    process new_v3_pool = process_new_v3_pool_event lib codec

    -- `_EVENTS[topic0]`; the text of the log line needs `int(event_block, 16)`.
    unfoldable pub dispatch :
        (event_block : String) → EventLog → Option Handler → Exec (State lib) (Unit {0})
    unfolding process pure lift ◌>>=◌
    dispatch event_block event none = pure tt
    dispatch event_block event (some handler) = do
      _ ← process handler event
      _ ← lift (codec.int_16 event_block)
      pure tt

    -- The data of a message.
    unfoldable pub process_data : Option String → Exec (State lib) (Unit {0})
    unfolding event_table dispatch pure lift get String_discrete ◌>>=◌
    process_data none = pure tt
    process_data (some text) = do
      event ← lift (codec.loads text)
      event_block ← lift (item event.block_number)
      topics ← lift (item event.topics)
      topic ← lift (topic0 topics)
      dispatch event_block event (get String_discrete topic event_table)

    -- `self.bot_state.first_event = block`
    unfoldable pub store_first_event : String → Exec (State lib) (Unit {0})
    store_first_event block s = (record s { first_event = some block }, ok tt)

    -- `first_event` is set from the message if it is None.
    unfoldable pub set_first_event : Message → Option String → Exec (State lib) (Unit {0})
    unfolding store_first_event pure lift ◌>>=◌
    set_first_event message (some _) = pure tt
    set_first_event message none = do
      block ← lift (item message.first_block)
      store_first_event block

    unfoldable pub receive : Message → Exec (State lib) (Unit {0})
    unfolding set_first_event process_data gets pure String_discrete ◌>>=◌
    receive message =
        if holds (String_discrete message.type_name "message")
        then (do
          first ← gets (λ s. s.first_event)
          _ ← set_first_event message first
          process_data message.event_data)
        else pure tt

    -- `process_uniswap_events`, from the subscription on.
    unfoldable pub process_uniswap_events : List Message → State lib → State lib
    unfolding receive
    process_uniswap_events [] s = s
    process_uniswap_events (m ∷ rest) s = process_uniswap_events rest (receive m s).0
