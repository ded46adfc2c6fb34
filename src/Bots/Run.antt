-- ===== src/Bots/Run.antt =====
-- main.py: run_bot, main and run, and the method close of the bots.
use cream_bots.Prelude.{String, String_discrete, Result, holds, if◌then◌else◌}
use cream_bots.Prelude.Dict.{Dict}
use cream_bots.Prelude.Exec.{Exec, pure, lift, attempt, ◌>>=◌, ◌>>◌}
use cream_bots.Json.{Object}
use cream_bots.Bots.{BotData, new_arb_bot, new_callback_bot, new_sniper_bot}

-- What the bots do to the outside: their runs, and the ends of the redis client and of the session.
pub record Outside : Type 1 where
  pub World : Type 0
  pub run_arb : BotData → Exec World (Unit {0})
  pub run_callback : BotData → Exec World (Unit {0})
  pub run_sniper : BotData → Exec World (Unit {0})
  pub aclose : BotData → Exec World (Unit {0})
  pub close_session : BotData → Exec World (Unit {0})

module _ (outside : Outside) where
  open outside use {World}

  unfoldable pub close : BotData → Exec World (Unit {0})
  unfolding ◌>>=◌
  close bot = outside.aclose bot >> outside.close_session bot

  -- `finally` runs whichever way the bot ends; its own exception takes the place of the other.
  unfoldable pub run_bot :
      Result BotData → (BotData → Exec World (Unit {0})) → Exec World (Unit {0})
  unfolding close attempt lift ◌>>=◌
  run_bot new run = do bot ← lift new; ended ← attempt (run bot); _ ← close bot; lift ended

  module _ (chains : Dict String Object) where
    unfoldable pub main : (bot_type chain_name : String) → Exec World (Unit {0})
    unfolding run_bot new_arb_bot new_callback_bot new_sniper_bot pure String_discrete
    main bot_type chain_name =
        if holds (String_discrete bot_type "arb")
        then run_bot (new_arb_bot chain_name chains) outside.run_arb
        else if holds (String_discrete bot_type "callback")
        then run_bot (new_callback_bot chain_name chains) outside.run_callback
        else if holds (String_discrete bot_type "sniper")
        then run_bot (new_sniper_bot chain_name chains) outside.run_sniper
        else pure tt

    -- Every exception is printed.
    unfoldable pub run : (bot_type chain_name : String) → Exec World (Unit {0})
    unfolding main attempt pure ◌>>=◌
    run bot_type chain_name = do _ ← attempt (main bot_type chain_name); pure tt
