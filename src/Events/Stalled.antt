-- ===== src/Events/Stalled.antt =====
-- The loop looks for the block of the first event in the message itself, where `listen()` gives
-- messages with the keys `type`, `pattern`, `channel` and `data` only.
use cream_bots.Prelude.{
  String_discrete, none, List, [], ◌∷◌, ◌≡◌, refl, All, holds, Bool-cases, inl, inr,
}
use cream_bots.Prelude.Exec.{pure, lift, gets, ◌>>=◌}
use cream_bots.Events.{Message, Codec, PoolStore, State}
use cream_bots.Events.Listening.{set_first_event, receive, process_uniswap_events}

module _ (codec : Codec) (lib : PoolStore) where
  receive_stalls :
      (m : Message) (s : State lib)
      → s.first_event ≡ none
      → m.first_block ≡ none
      → (receive codec lib m s).0 ≡ s
  unfolding receive set_first_event gets lift pure ◌>>=◌
  receive_stalls m s unset missing =
      elim (Bool-cases (holds (String_discrete m.type_name "message"))) [
        | inl e ↦ rw (e, unset, missing) refl
        | inr e ↦ rw e refl
      ]

  -- As long as `first_event` is None and no message has a block of its own, the loop does nothing
  -- with any message: the bot's state stays what it was.
  pub process_uniswap_events_stalls :
      (messages : List Message) (s : State lib)
      → s.first_event ≡ none
      → All (λ m. m.first_block ≡ none) messages
      → process_uniswap_events codec lib messages s ≡ s
  unfolding process_uniswap_events
  process_uniswap_events_stalls [] s unset missing = refl
  process_uniswap_events_stalls (m ∷ rest) s unset missing =
      rw (receive_stalls m s unset missing.0) (process_uniswap_events_stalls rest s unset missing.1)
