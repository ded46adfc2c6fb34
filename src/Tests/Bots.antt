-- ===== src/Tests/Bots.antt =====
-- An arb bot that is set up, and the states of the three bots on a chain and without one.
use cream_bots.Prelude.{
  attribute_error, none, ℕ, suc, String_discrete, Bool, true, false, [], ◌∷◌, ◌≡◌, refl, Result, ok,
  raise, type_error, value_error, key_error,
}
use cream_bots.Prelude.Int.{pos}
use cream_bots.Prelude.Ends.{Ends}
use cream_bots.Json.{Value_discrete, text, number, Object, truthy}
use cream_bots.Blacklist.{new_service}
use cream_bots.Pools.Helpers.{PoolRequest}
use cream_bots.Bots.{new_arb_bot, new_callback_bot, new_sniper_bot}
use cream_bots.Bots.Initialize.{Kit, BotState, initialize, bootstrap}
use cream_bots.Bots.Prepared.{IsAsleep}
use cream_bots.Bots.Started.{IsStarted, initialize-Ends}
use cream_bots.Tests.Toy.{toy}
use cream_bots.Tests.Pools.{toy_cycles}
use cream_bots.Tests.Loading.{data_dir}
use cream_bots.Tests.Exchange as Exchange
use cream_bots.Tests.Managers as Managers
use cream_bots.Tests.Blacklist as Blacklist

abbrev get_pool : ℕ → PoolRequest → ℕ → ℕ × Result Bool
get_pool manager request calls = (suc calls, ok true)

abbrev kit : Kit
kit = record { managers = Managers.lib; Helper = Bool; get_pool = get_pool; is_v3 = λ h. h }

abbrev start : BotState Exchange.lib kit toy (λ _. toy_cycles) (ok tt)
start = record {
  deployments = Exchange.before;
  managers = record { store = 0; pool_managers = []; pool_managers_ready = false };
  blacklist = new_service Blacklist.files;
  load = record {
    helpers = record { store = 0; v2_pools = 0; v3_pools = 0; asked = [] };
    liquidity_pool_data = [];
    unique_pool_addresses = [];
    all_arbs = [];
    pools_loaded = false;
    live = false;
  };
}

-- The pools of the only path are blacklisted: the bot is live with an empty table.
live_test :
    ((initialize Exchange.lib kit toy
      (λ _. toy_cycles)
      (ok tt)
      data_dir
      Exchange.chain
      (number (pos 8))
      start).0.load
    ).live
    ≡ true
unfolding initialize String_discrete Value_discrete truthy
live_test = refl

initialize-Ends_example :
    Ends
      (λ _ s.
        IsStarted Exchange.lib kit toy
          (λ _. toy_cycles)
          (ok tt)
          data_dir
          Exchange.chain
          (number (pos 8))
          start
          s)
      (λ s.
        IsAsleep Exchange.lib kit toy
          (λ _. toy_cycles)
          (ok tt)
          data_dir
          Exchange.chain
          (number (pos 8))
          start
          s)
      (initialize Exchange.lib kit toy
        (λ _. toy_cycles)
        (ok tt)
        data_dir
        Exchange.chain
        (number (pos 8))
        start)
initialize-Ends_example =
    initialize-Ends Exchange.lib kit toy (λ _. toy_cycles) (ok tt) data_dir Exchange.chain
      (number (pos 8)) start

abbrev ending : {S A : Type 0} → S × Result A → Result A
ending (s, r) = r

-- A state of the sniper bot has no `first_event`, so its set-up ends at the managers.
bootstrap_test :
    ending
      (bootstrap Exchange.lib kit toy (λ _. toy_cycles) (ok tt) data_dir Exchange.chain none start)
    ≡ raise attribute_error
unfolding bootstrap String_discrete
bootstrap_test = refl

-- Without data of the chain, two of the bots raise a ValueError and the third a TypeError.
unknown_arb_test : new_arb_bot "base" [] ≡ raise value_error
unfolding new_arb_bot
unknown_arb_test = refl

unknown_callback_test : new_callback_bot "base" [] ≡ raise value_error
unfolding new_callback_bot
unknown_callback_test = refl

unknown_sniper_test : new_sniper_bot "base" [] ≡ raise type_error
unfolding new_sniper_bot
unknown_sniper_test = refl

-- A chain without aggregators will do for the arb bot, not for the sniper bot.
abbrev base : Object
base =
    ("chain_id", number (pos 8453))
    ∷ ("http_uri", text "http")
    ∷ ("node", text "local")
    ∷ ("websocket_uri", text "ws")
    ∷ []

abbrev is_ok : {A : Type 0} → Result A → Bool
is_ok (ok _) = true
is_ok (raise _) = false

arb_test : is_ok (new_arb_bot "base" (("base", base) ∷ [])) ≡ true
unfolding new_arb_bot String_discrete
arb_test = refl

sniper_test : new_sniper_bot "base" (("base", base) ∷ []) ≡ raise key_error
unfolding new_sniper_bot String_discrete
sniper_test = refl
