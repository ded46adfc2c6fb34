-- ===== src/Tests/Bootstrap.antt =====
-- Two states, the second without the chain's id, and a message that cannot be read.
use cream_bots.Prelude.{
  String, String_discrete, true, none, some, List, [], ◌∷◌, ◌≡◌, refl, Result, ok, raise,
  value_error, holds, if◌then◌else◌,
}
use cream_bots.Prelude.Dict.{get}
use cream_bots.Prelude.Int.{pos}
use cream_bots.Json.{ChannelMessage, number, text, Object}
use cream_bots.Bootstrap.{start}
use cream_bots.Bootstrap.Latest.{states, latest, get-start}

abbrev first_state : Object
first_state = ("chain_id", number (pos 1)) ∷ ("newest_block", number (pos 7)) ∷ []

abbrev second_state : Object
second_state = ("newest_block", number (pos 8)) ∷ ("pools", text "no key of the bot") ∷ []

abbrev loads : String → Result Object
unfolding String_discrete
loads t =
    if holds (String_discrete t "first")
    then ok first_state
    else if holds (String_discrete t "second")
    then ok second_state
    else raise value_error

abbrev message : String → ChannelMessage
message t = record { type_name = "message"; channel_data = some t }

abbrev messages : List ChannelMessage
messages =
    record { type_name = "subscribe"; channel_data = none }
    ∷ message "first"
    ∷ message "second"
    ∷ message "bad"
    ∷ message "first"
    ∷ []

start_test : start loads messages [] ≡ record {
  bot_state = ("chain_id", number (pos 1)) ∷ ("newest_block", number (pos 8)) ∷ [];
  ended_by_error = true;
}
unfolding start String_discrete
start_test = refl

get-start_example :
    get String_discrete "newest_block" (start loads messages []).bot_state
    ≡ latest "newest_block" (states loads messages) (get String_discrete "newest_block" [])
get-start_example = get-start loads messages [] "newest_block"
