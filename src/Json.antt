-- ===== src/Json.antt =====
-- Messages of a redis channel, and the JSON values in them, as far as the services look into them.
use cream_bots.Prelude.{String, String_discrete, ℕ_discrete, Bool, true, false, not, Option, holds}
use cream_bots.Prelude.Int.{ℤ}
use cream_bots.Prelude.Dict.{Dict}

-- A message of `pubsub.listen()`: `message["type"]`, and `message["data"]` as a text, if it has
-- any.
pub record ChannelMessage : Type 0 where
  pub type_name : String
  pub channel_data : Option String

-- Of lists, dictionaries, Booleans and fractions only the text counts.
pub data Value : Type 0 where
  null : Value
  text : String → Value
  number : ℤ → Value
  other : String → Value

unfoldable pub Value_discrete : Discrete Value
unfolding String_discrete
Value_discrete = hlevel (String_discrete, ℕ_discrete)

-- `if value`; the other values that are empty do not occur where the services test one.
unfoldable pub truthy : Value → Bool
unfolding String_discrete
truthy null = false
truthy (text s) = not (holds (String_discrete s ""))
truthy _ = true

abbrev pub Object : Type 0
Object = Dict String Value
