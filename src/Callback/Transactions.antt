-- ===== src/Callback/Transactions.antt =====
-- process_pending_transactions and what it does with a cleaned transaction. An exception ends the
-- listening; the next round of `while True` goes on with the message behind the one that raised it.
use cream_bots.Prelude.{
  String, String_discrete, Option, none, some, List, [], ◌∷◌, ◌++◌, Result, ok, raise, key_error,
  type_error, holds, if◌then◌else◌, contains,
}
use cream_bots.Prelude.Int.{ℤ}
use cream_bots.Prelude.Dict.{get}
use cream_bots.Prelude.Exec.{Exec, pure, lift, gets, ◌>>=◌}
use cream_bots.Json.{ChannelMessage, Value, Value_discrete, null, text, Object}
use cream_bots.Aggregator.{is_key, get_aggregator_info}
use cream_bots.Callback.{State, Node, field, clean_transaction}

-- `message["data"]`
abbrev pub data_of : Option String → Result String
data_of none = raise key_error
data_of (some d) = ok d

-- `self.bot_state.newest_block + 1`
abbrev pub next_block : Option ℤ → Result ℤ
next_block none = raise type_error
next_block (some n) = ok n

module _ (node : Node) where
  -- `int(transaction[key], 16)`, and the same under `if key in transaction`.
  abbrev pub number_of : Result Value → Result ℤ
  number_of (ok v) = node.int_16 v
  number_of (raise e) = raise e

  unfoldable pub check_number : Option Value → Exec State (Unit {0})
  unfolding lift pure ◌>>=◌
  check_number none = pure tt
  check_number (some v) = do _ ← lift (node.int_16 v); pure tt

  -- The transaction is printed once all its lines could be made.
  unfoldable pub print_transaction_details : Object → Exec State (Unit {0})
  unfolding field check_number gets lift pure get String_discrete ◌>>=◌
  print_transaction_details transaction = do
    newest ← gets (λ s. s.newest_block)
    _ ← lift (next_block newest)
    _ ← lift (field "hash" transaction)
    _ ← lift (field "from" transaction)
    _ ← lift (field "to" transaction)
    _ ← lift (number_of (field "type" transaction))
    _ ← lift (field "input" transaction)
    _ ← check_number (get String_discrete "gasPrice" transaction)
    _ ← check_number (get String_discrete "maxFeePerGas" transaction)
    _ ← check_number (get String_discrete "maxPriorityFeePerGas" transaction)
    _ ← lift (number_of (field "nonce" transaction))
    _ ← lift (number_of (field "value" transaction))
    λ s. (record s { printed = s.printed ++ transaction ∷ [] }, ok tt)

  -- `if aggregator_info: if aggregator_info["aggregator"] == "oneinch"`
  unfoldable pub print_for : Object → Option Object → Exec State (Unit {0})
  unfolding print_transaction_details field lift pure Value_discrete ◌>>=◌
  print_for transaction none = pure tt
  print_for transaction (some []) = pure tt
  print_for transaction (some (e ∷ info)) = do
    aggregator ← lift (field "aggregator" (e ∷ info))
    (if holds (Value_discrete aggregator (text "oneinch"))
        then print_transaction_details transaction
        else pure tt)

  unfoldable pub process_aggregator_transaction : Object → Exec State (Unit {0})
  unfolding field get_aggregator_info print_for gets lift ◌>>=◌
  process_aggregator_transaction transaction = do
    address ← lift (field "to" transaction)
    aggregators ← gets (λ s. s.aggregators)
    info ← lift (get_aggregator_info node.checksum aggregators address)
    print_for transaction info

  unfoldable pub process_transaction : Object → Exec State (Unit {0})
  unfolding field is_key process_aggregator_transaction gets lift pure ◌>>=◌
  process_transaction transaction = do
    address ← lift (field "to" transaction)
    aggregators ← gets (λ s. s.aggregators)
    known ← lift (is_key address aggregators)
    (if known then process_aggregator_transaction transaction else pure tt)

  -- `if cleaned_transaction`; a contract deployment has no `to`.
  unfoldable pub process_cleaned : Option Object → Exec State (Unit {0})
  unfolding field process_transaction lift pure Value_discrete ◌>>=◌
  process_cleaned none = pure tt
  process_cleaned (some []) = pure tt
  process_cleaned (some (e ∷ fields)) = do
    address ← lift (field "to" (e ∷ fields))
    (if holds (Value_discrete address null) then pure tt else process_transaction (e ∷ fields))

  unfoldable pub process_pending : Object → Exec State (Unit {0})
  unfolding clean_transaction process_cleaned ◌>>=◌
  process_pending transaction = do
    cleaned ← clean_transaction node transaction
    process_cleaned cleaned

  -- A transaction whose hash is among the failed ones is skipped.
  unfoldable pub process_unless_failed : Value → Object → Exec State (Unit {0})
  unfolding contains process_pending gets pure Value_discrete ◌>>=◌
  process_unless_failed hash transaction = do
    skip ← gets (λ s. contains Value_discrete s.failed_transactions hash)
    (if skip then pure tt else process_pending transaction)

  unfoldable pub receive_transaction : ChannelMessage → Exec State (Unit {0})
  unfolding field process_unless_failed lift pure String_discrete ◌>>=◌
  receive_transaction message =
      if holds (String_discrete message.type_name "message")
      then (do
        transaction_data ← lift (data_of message.channel_data)
        transaction ← lift (node.loads transaction_data)
        hash ← lift (field "hash" transaction)
        process_unless_failed hash transaction)
      else pure tt

  -- The loop over the messages of "cream_pending_transactions", once the bot is live.
  unfoldable pub process_pending_transactions : List ChannelMessage → State → State
  unfolding receive_transaction
  process_pending_transactions [] s = s
  process_pending_transactions (m ∷ rest) s =
      process_pending_transactions rest (receive_transaction m s).0
