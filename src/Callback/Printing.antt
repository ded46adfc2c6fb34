-- ===== src/Callback/Printing.antt =====
-- What happens to a cleaned transaction changes nothing but what is printed.
use cream_bots.Prelude.{Option, none, some, [], ◌∷◌, ◌++◌, ok}
use cream_bots.Prelude.Exec.{Keeps, keeps_rules}
use cream_bots.Json.{Value, Object}
use cream_bots.Callback.{State, Node}
use cream_bots.Callback.Transactions.{
  check_number, print_transaction_details, print_for, process_aggregator_transaction,
  process_transaction, process_cleaned,
}

module _ (node : Node) where
  module _ (P : State → Type 0)
      (prints : (s : State) (t : Object)
        → P s
        → P (record s { printed = s.printed ++ t ∷ [] })) where
    check_number-Keeps : (o : Option Value) → Keeps P (check_number node o)
    unfolding check_number
    check_number-Keeps none = search keeps_rules
    check_number-Keeps (some v) = search keeps_rules

    print-Keeps : (t : Object) → Keeps P (λ s. (record s { printed = s.printed ++ t ∷ [] }, ok tt))
    print-Keeps t = record { after = λ s p. prints s t p }

    print_transaction_details-Keeps : (t : Object) → Keeps P (print_transaction_details node t)
    unfolding print_transaction_details
    print_transaction_details-Keeps t =
        search (keeps_rules, check_number-Keeps, print-Keeps) depth 20

    print_for-Keeps : (t : Object) (o : Option Object) → Keeps P (print_for node t o)
    unfolding print_for
    print_for-Keeps t none = search keeps_rules
    print_for-Keeps t (some []) = search keeps_rules
    print_for-Keeps t (some (e ∷ info)) = search (keeps_rules, print_transaction_details-Keeps)

    process_aggregator_transaction-Keeps :
        (t : Object) → Keeps P (process_aggregator_transaction node t)
    unfolding process_aggregator_transaction
    process_aggregator_transaction-Keeps t = search (keeps_rules, print_for-Keeps)

    process_transaction-Keeps : (t : Object) → Keeps P (process_transaction node t)
    unfolding process_transaction
    process_transaction-Keeps t = search (keeps_rules, process_aggregator_transaction-Keeps)

    -- What comes after the simulation changes no more than what is printed.
    pub process_cleaned-Keeps : (o : Option Object) → Keeps P (process_cleaned node o)
    unfolding process_cleaned
    process_cleaned-Keeps none = search keeps_rules
    process_cleaned-Keeps (some []) = search keeps_rules
    process_cleaned-Keeps (some (e ∷ fields)) = search (keeps_rules, process_transaction-Keeps)
