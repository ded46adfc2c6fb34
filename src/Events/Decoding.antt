-- ===== src/Events/Decoding.antt =====
-- The parts of the handlers that read the message.
use cream_bots.Prelude.{
  ℕ, String, List, [], ◌∷◌, Result, ok, raise, value_error, index_error, ◌>>=◌,
}
use cream_bots.Prelude.Int.{ℤ}
use cream_bots.Events.{EventLog, Codec, item}

-- The first three assignments of every handler.
pub record Header : Type 0 where
  pub event_address : String
  pub event_block : ℤ
  pub event_data : String

-- `_, _, lower, upper = topics`
abbrev pub last_two : List String → Result (String × String)
last_two (_ ∷ _ ∷ lower ∷ upper ∷ []) = ok (lower, upper)
last_two _ = raise value_error

-- `topics[0]`
abbrev pub topic0 : List String → Result String
topic0 [] = raise index_error
topic0 (t ∷ _) = ok t

module _ (codec : Codec) where
  unfoldable pub header : EventLog → Result Header
  header message = do
    raw ← item message.address
    address ← codec.to_checksum_address raw
    number ← item message.block_number
    block ← codec.int_16 number
    data_text ← item message.event_data
    ok (record { event_address = address; event_block = block; event_data = data_text })

  -- The ticks of a Mint or Burn event.
  unfoldable pub event_ticks : EventLog → Result (ℤ × ℤ)
  event_ticks message = do
    topics ← item message.topics
    texts ← last_two topics
    lower ← codec.decode_int24 texts.0
    upper ← codec.decode_int24 texts.1
    ok (lower, upper)

  -- The `try` blocks of the Burn and the Mint handler.
  unfoldable pub burn_change : EventLog → (event_data : String) → Result (ℕ × ℤ × ℤ)
  unfolding event_ticks
  burn_change message event_data = do
    ticks ← event_ticks message
    liquidity ← codec.decode_burn event_data
    ok (liquidity, ticks.0, ticks.1)

  unfoldable pub mint_change : EventLog → (event_data : String) → Result (ℕ × ℤ × ℤ)
  unfolding event_ticks
  mint_change message event_data = do
    ticks ← event_ticks message
    liquidity ← codec.decode_mint event_data
    ok (liquidity, ticks.0, ticks.1)
