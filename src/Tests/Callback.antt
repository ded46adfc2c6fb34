-- ===== src/Tests/Callback.antt =====
-- A node that accepts every transaction with a recipient, and the transactions "0x1" of the legacy
-- type and "0x2", which it refuses.

use mathlib.Core.List.Memᴰ.{head}
use cream_bots.Prelude.{
  String, String_discrete, some, List, [], ◌∷◌, ◌≡◌, refl, Result, ok, raise, value_error, holds,
  if◌then◌else◌,
}
use cream_bots.Prelude.Int.{ℤ, pos}
use cream_bots.Json.{ChannelMessage, Value, text, Object}
use cream_bots.Callback.{State, Node}
use cream_bots.Callback.Transactions.{process_pending_transactions}
use cream_bots.Callback.Skipped.{Skips, failed-Skips}

abbrev swap : Object
swap =
    ("hash", text "0x1")
    ∷ ("from", text "0xa")
    ∷ ("to", text "0xf")
    ∷ ("type", text "0x0")
    ∷ ("gasPrice", text "0x5")
    ∷ ("maxFeePerGas", text "0x6")
    ∷ ("input", text "0x")
    ∷ ("nonce", text "0x5")
    ∷ ("value", text "0x6")
    ∷ ("chainId", text "0x1")
    ∷ []

abbrev cleaned_swap : Object
cleaned_swap =
    ("hash", text "0x1")
    ∷ ("from", text "0xa")
    ∷ ("to", text "0xf")
    ∷ ("type", text "0x0")
    ∷ ("gasPrice", text "0x5")
    ∷ ("input", text "0x")
    ∷ ("nonce", text "0x5")
    ∷ ("value", text "0x6")
    ∷ []

abbrev refused_swap : Object
refused_swap = ("hash", text "0x2") ∷ ("to", text "0xf") ∷ ("type", text "0x9") ∷ []

abbrev loads : String → Result Object
unfolding String_discrete
loads t = if holds (String_discrete t "swap") then ok swap else ok refused_swap

abbrev int_16 : Value → Result ℤ
unfolding String_discrete
int_16 (text t) =
    if holds (String_discrete t "0x0")
    then ok (pos 0)
    else if holds (String_discrete t "0x5")
    then ok (pos 5)
    else if holds (String_discrete t "0x6")
    then ok (pos 6)
    else ok (pos 9)
int_16 _ = raise value_error

abbrev node : Node
node = record { loads = loads; checksum = λ v. ok v; int_16 = int_16; eth_call = λ call t. ok tt }

abbrev message : String → ChannelMessage
message t = record { type_name = "message"; channel_data = some t }

abbrev messages : List ChannelMessage
messages = message "swap" ∷ message "refused" ∷ message "refused" ∷ []

abbrev start : State
start = record {
  aggregators = some (("0xf", ("aggregator", text "oneinch") ∷ []) ∷ []);
  failed_transactions = [];
  newest_block = some (pos 7);
  calls = [];
  printed = [];
}

-- The refused transaction is remembered and the other one printed without the fields of other
-- types.
process_test : process_pending_transactions node messages start ≡ record start {
  failed_transactions = text "0x2" ∷ [];
  calls = cleaned_swap ∷ [];
  printed = cleaned_swap ∷ [];
}
unfolding process_pending_transactions String_discrete
process_test = refl

abbrev after_refusal : State
after_refusal = record start { failed_transactions = text "0x2" ∷ [] }

failed-Skips_example :
    Skips node
      (text "0x2")
      after_refusal.calls
      (process_pending_transactions node messages after_refusal)
failed-Skips_example = failed-Skips node (text "0x2") messages after_refusal (head refl)
