-- ===== src/Tests/Anvil.antt =====
-- A fork where the transactions of even numbers are mined, and 0 with the status 1.
use cream_bots.Prelude.{
  ℕ, true, none, some, [], ◌∷◌, ◌≡◌, refl, other_error, unbound_error, ok, raise, ◌==◌,
  if◌then◌else◌, ◌%◌,
}
use cream_bots.Prelude.Int.{pos}
use cream_bots.Anvil.{Simulator, Connection, anvil_fork}

abbrev lib : Simulator
lib = record {
  Fork = Unit {0};
  Transaction = ℕ;
  Hash = ℕ;
  Receipt = ℕ;
  fork = λ settings. ok tt;
  send_raw_transaction = λ t simulator. (simulator, ok t);
  wait_for_receipt = λ h simulator. if h % 2 == 0 then ok h else raise other_error;
  status = λ r. if r == 0 then ok 1 else ok 0;
}

abbrev bot_state : Connection
bot_state = record { http_uri = "http://localhost:8545"; chain_id = pos 1 }

success_test : anvil_fork lib bot_state (pos 9) (pos 7) (some 0) ≡ ok (true ∷ [], 0 ∷ [])
unfolding anvil_fork
success_test = refl

no_receipt_test : anvil_fork lib bot_state (pos 9) (pos 7) (some 3) ≡ raise unbound_error
unfolding anvil_fork
no_receipt_test = refl

not_made_test :
    anvil_fork
      (record lib { fork = λ settings. raise other_error })
      bot_state
      (pos 9)
      (pos 7)
      (some 0)
    ≡ raise other_error
unfolding anvil_fork
not_made_test = refl

-- Without a transaction, too, the return reads the receipt.
no_transaction_test : anvil_fork lib bot_state (pos 9) (pos 7) none ≡ raise unbound_error
unfolding anvil_fork
no_transaction_test = refl
