-- ===== src/Aggregator.antt =====
-- app/core/aggregator_service.py: AggregatorService looks up the aggregators of the chain's data.
use cream_bots.Prelude.{
  String, String_discrete, Bool, true, false, Option, none, some, [], ◌∷◌, Result, ok, raise,
  key_error, type_error, attribute_error, ◌>>=◌,
}
use cream_bots.Prelude.Dict.{Dict, get}
use cream_bots.Json.{Value, null, text, Object}

-- `bot_state.aggregators`: the data of each aggregator under its address, if the chain has any.
abbrev pub Aggregators : Type 0
Aggregators = Option (Dict String Object)

abbrev pub present : {A : Type 0} → Option A → Bool
present none = false
present (some _) = true

-- `address in aggregators`; nothing is in None.
unfoldable pub is_key : Value → Aggregators → Result Bool
unfolding get String_discrete
is_key address none = raise type_error
is_key (text a) (some d) = ok (present (get String_discrete a d))
is_key _ (some d) = ok false

-- `aggregators.get(address)`
unfoldable pub lookup : Value → Aggregators → Result (Option Object)
unfolding get String_discrete
lookup address none = raise attribute_error
lookup (text a) (some d) = ok (get String_discrete a d)
lookup _ (some d) = ok none

-- `info[key] if info else None`
unfoldable pub field_of : String → Option Object → Result Value
unfolding get String_discrete
field_of key none = ok null
field_of key (some []) = ok null
field_of key (some (e ∷ d)) = elim (get String_discrete key (e ∷ d)) [
  | none ↦ raise key_error
  | some v ↦ ok v
]

-- `Web3.to_checksum_address` is `checksum`.
module _ (checksum : Value → Result Value) (aggregators : Aggregators) where
  unfoldable pub get_aggregator_info : Value → Result (Option Object)
  unfolding lookup
  get_aggregator_info address = do address' ← checksum address; lookup address' aggregators

  unfoldable pub is_aggregator : Value → Result Bool
  unfolding is_key
  is_aggregator address = do address' ← checksum address; is_key address' aggregators

  unfoldable pub get_aggregator_abi : Value → Result Value
  unfolding get_aggregator_info field_of
  get_aggregator_abi address = do info ← get_aggregator_info address; field_of "abi" info

  unfoldable pub get_aggregator_name : Value → Result Value
  unfolding get_aggregator_info field_of
  get_aggregator_name address = do info ← get_aggregator_info address; field_of "name" info

  unfoldable pub get_aggregator_type : Value → Result Value
  unfolding get_aggregator_info field_of
  get_aggregator_type address = do info ← get_aggregator_info address; field_of "aggregator" info
