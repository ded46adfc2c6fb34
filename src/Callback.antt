-- ===== src/Callback.antt =====
-- app/bots/callback_bot/callback_transaction_service.py: CallbackTransactionService cleans and
-- simulates the pending transactions of a channel and prints those of the 1inch aggregator.
pub mod Cleaning
pub mod Cleaned
pub mod Transactions
pub mod Printing
pub mod Skipped
use cream_bots.Prelude.{
  ℕ, String, String_discrete, Bool, true, false, Option, none, some, List, [], ◌∷◌, ◌++◌, Result,
  ok, raise, key_error, type_error, holds, if◌then◌else◌, contains, add, remove_all, select, length,
  ◌==◌, ◌||◌,
}
use cream_bots.Prelude.Int.{ℤ, pos, negsuc}
use cream_bots.Prelude.Dict.{Dict, get, put}
use cream_bots.Prelude.Exec.{Exec, pure, fail, lift, gets, attempt, ◌>>=◌, ◌>>◌}
use cream_bots.Json.{Value, Value_discrete, null, text, truthy, Object}
use cream_bots.Aggregator.{Aggregators}

-- What the service uses of `bot_state`, and what it does to the outside: the transactions that it
-- gave to `eth.call`, and those that it printed, in this order.
pub record State : Type 0 where
  pub aggregators : Aggregators
  pub failed_transactions : List Value
  pub newest_block : Option ℤ
  pub calls : List Object
  pub printed : List Object

-- ujson, eth_utils, `int(value, 16)` and the node, whose answer may change from call to call.
pub record Node : Type 0 where
  pub loads : String → Result Object
  pub checksum : Value → Result Value
  pub int_16 : Value → Result ℤ
  pub eth_call : (call : ℕ) → Object → Result (Unit {0})

-- `transaction[key]`
abbrev pub found : Option Value → Result Value
found none = raise key_error
found (some v) = ok v

unfoldable pub field : String → Object → Result Value
unfolding get String_discrete
field key transaction = found (get String_discrete key transaction)

abbrev pub params_to_keep : List String
params_to_keep =
    "from" ∷ "to" ∷ "gas" ∷ "maxFeePerGas" ∷ "maxPriorityFeePerGas" ∷ "gasPrice" ∷ "value" ∷ "data"
    ∷ "input" ∷ "nonce" ∷ "type" ∷ "hash" ∷ []

abbrev pub legacy_removed : List String
legacy_removed = "maxFeePerGas" ∷ "maxPriorityFeePerGas" ∷ []

abbrev pub dynamic_removed : List String
dynamic_removed = "gasPrice" ∷ []

-- What is removed from it for a transaction type, if the type is known.
abbrev pub removed_params : ℤ → Option (List String)
removed_params (pos n) =
    if n == 0 || n == 1
    then some legacy_removed
    else if n == 2 || n == 3
    then some dynamic_removed
    else none
removed_params (negsuc _) = none

-- `{k: v for k, v in transaction.items() if k in params}`
unfoldable pub keep_fields : List String → Object → Object
unfolding select contains String_discrete
keep_fields params transaction = select (λ e. contains String_discrete params e.0) transaction

-- `self.bot_state.failed_transactions.add(...)`
unfoldable pub add_failed : Value → Exec State (Unit {0})
unfolding add Value_discrete
add_failed hash s =
    (record s { failed_transactions = add Value_discrete hash s.failed_transactions }, ok tt)

module _ (node : Node) where
  unfoldable pub store_address : String → Object → Result Value → Result Object
  unfolding put String_discrete
  store_address key transaction (ok address) = ok (put String_discrete key address transaction)
  store_address key transaction (raise e) = raise e

  -- A round of the loop over "from" and "to".
  unfoldable pub replace_address : String → Option Value → Object → Result Object
  unfolding truthy store_address
  replace_address key none transaction = ok transaction
  replace_address key (some v) transaction =
      if truthy v then store_address key transaction (node.checksum v) else ok transaction

  unfoldable pub checksum_field : String → Object → Result Object
  unfolding get String_discrete replace_address
  checksum_field key transaction =
      replace_address key (get String_discrete key transaction) transaction

  -- `w3.eth.call(...)`
  unfoldable pub simulate : Object → Exec State (Unit {0})
  simulate transaction s =
      (record s { calls = s.calls ++ transaction ∷ [] }, node.eth_call (length s.calls) transaction)

  -- The `try` block, for a type with its names to remove.
  unfoldable pub clean_known : Object → List String → Exec State (Option Object)
  unfolding keep_fields checksum_field simulate remove_all String_discrete pure lift ◌>>=◌
  clean_known transaction removed = do
    params ← lift (remove_all String_discrete removed params_to_keep)
    with_from ← lift (checksum_field "from" (keep_fields params transaction))
    transaction_to_test ← lift (checksum_field "to" with_from)
    _ ← simulate transaction_to_test
    pure (some transaction_to_test)

  unfoldable pub reject : Object → Exec State (Option Object)
  unfolding field add_failed pure lift ◌>>=◌
  reject transaction = do hash ← lift (field "hash" transaction); _ ← add_failed hash; pure none

  unfoldable pub clean_type : Object → Option (List String) → Exec State (Option Object)
  unfolding clean_known reject
  clean_type transaction none = reject transaction
  clean_type transaction (some removed) = clean_known transaction removed

  unfoldable pub try_clean : Object → Exec State (Option Object)
  unfolding field clean_type lift ◌>>=◌
  try_clean transaction = do
    type_text ← lift (field "type" transaction)
    transaction_type ← lift (node.int_16 type_text)
    clean_type transaction (removed_params transaction_type)

  -- Behind the `try`: every exception ends in a failed transaction.
  unfoldable pub after_try : Object → Result (Option Object) → Exec State (Option Object)
  unfolding reject pure
  after_try transaction (ok cleaned) = pure cleaned
  after_try transaction (raise _) = reject transaction

  unfoldable pub clean_transaction : Object → Exec State (Option Object)
  unfolding try_clean after_try attempt ◌>>=◌
  clean_transaction transaction = do
    cleaned ← attempt (try_clean transaction)
    after_try transaction cleaned
