-- ===== src/Anvil.antt =====
-- app/core/anvil_service.py: AnvilService runs a transaction on a fork of the chain.
use cream_bots.Prelude.{
  ℕ, String, Bool, Option, none, some, List, [], ◌∷◌, Result, ok, raise, unbound_error, ◌==◌,
}
use cream_bots.Prelude.Int.{ℤ}

-- The arguments of `AnvilFork`.
pub record ForkSettings : Type 0 where
  pub fork_url : String
  pub fork_block : ℤ
  pub chain_id : ℤ
  pub base_fee : ℤ

-- degenbot's AnvilFork, its web3, and `receipt["status"]`; sending a transaction changes the fork.
pub record Simulator : Type 1 where
  pub Fork : Type 0
  pub Transaction : Type 0
  pub Hash : Type 0
  pub Receipt : Type 0
  pub fork : ForkSettings → Result Fork
  pub send_raw_transaction : Transaction → Fork → Fork × Result Hash
  pub wait_for_receipt : Hash → Fork → Result Receipt
  pub status : Receipt → Result ℕ

-- What the service reads of `bot_state`.
pub record Connection : Type 0 where
  pub http_uri : String
  pub chain_id : ℤ

abbrev pub fork_settings : Connection → (base_fee_next state_block : ℤ) → ForkSettings
fork_settings bot_state base_fee_next state_block = record {
  fork_url = bot_state.http_uri;
  fork_block = state_block;
  chain_id = bot_state.chain_id;
  base_fee = base_fee_next;
}

module _ (lib : Simulator) where
  -- The `try` block.
  abbrev pub wait_if_sent : lib.Fork → Result lib.Hash → Result lib.Receipt
  wait_if_sent simulator (ok transaction_hash) = lib.wait_for_receipt transaction_hash simulator
  wait_if_sent simulator (raise e) = raise e

  unfoldable pub run_transaction : lib.Transaction → lib.Fork → Result lib.Receipt
  run_transaction transaction simulator =
      let (simulator', r) = lib.send_raw_transaction transaction simulator in
      wait_if_sent simulator' r

  abbrev pub ForkOutcome : Type 0
  ForkOutcome = List Bool × List lib.Receipt

  -- `success`, set for the status 1.
  abbrev pub success_of : lib.Receipt → Result ℕ → Result ForkOutcome
  success_of receipt (ok status) = ok ((status == 1) ∷ [], receipt ∷ [])
  success_of receipt (raise e) = raise e

  -- The exception of the `try` block is only logged; the `return` reads a variable that is not
  -- bound.
  abbrev pub after_run : Result lib.Receipt → Result ForkOutcome
  after_run (ok receipt) = success_of receipt (lib.status receipt)
  after_run (raise _) = raise unbound_error

  -- `if transaction`
  unfoldable pub run_if_given : Option lib.Transaction → lib.Fork → Result ForkOutcome
  unfolding run_transaction
  run_if_given none simulator = raise unbound_error
  run_if_given (some transaction) simulator = after_run (run_transaction transaction simulator)

  unfoldable pub with_fork : Option lib.Transaction → Result lib.Fork → Result ForkOutcome
  unfolding run_if_given
  with_fork transaction (ok simulator) = run_if_given transaction simulator
  with_fork transaction (raise e) = raise e

  unfoldable pub anvil_fork :
      Connection → (base_fee_next state_block : ℤ) → Option lib.Transaction → Result ForkOutcome
  unfolding with_fork
  anvil_fork bot_state base_fee_next state_block transaction =
      with_fork transaction (lib.fork (fork_settings bot_state base_fee_next state_block))
