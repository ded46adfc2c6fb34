-- ===== src/Events/Updates.antt =====
-- The handlers of Burn, Mint, Sync and Swap events.
use cream_bots.Prelude.{
  ℕ, zero, suc, String, Option, none, some, List, [], ◌∷◌, Result, ok, raise, manager_error,
  key_error, assertion_error, external_update_error, if◌then◌else◌, ◌==◌,
}
use cream_bots.Prelude.Int.{ℤ, pos, negsuc, neg}
use cream_bots.Prelude.Dict.{values}
use cream_bots.Prelude.Exec.{Exec, pure, fail, lift, gets, attempt, ◌>>=◌, ◌>>◌}
use cream_bots.Events.{
  EventLog, Codec, PoolStore, State, call, put_pool, liquidity_change, price_change,
}
use cream_bots.Events.Decoding.{Header, header, burn_change, mint_change}

-- `event_block - 1`
abbrev pub block_before : ℤ → ℤ
block_before (pos zero) = negsuc 0
block_before (pos (suc n)) = pos n
block_before (negsuc n) = negsuc (suc n)

module _ (lib : PoolStore) where
  open lib use {Manager, Helper}

  -- The clauses after `get_pool` in the search: `break`, `continue`, or the exception goes on.
  unfoldable pub found_or :
      Result Helper → Exec (State lib) (Option Helper) → Exec (State lib) (Option Helper)
  found_or (ok helper) next = pure (some helper)
  found_or (raise manager_error) next = next
  found_or (raise e) next = fail e

  -- The search for the pool's helper through the managers.
  unfoldable pub find_pool :
      List Manager
      → (event_address : String) → (state_block : Option ℤ) → Exec (State lib) (Option Helper)
  unfolding found_or call pure fail attempt ◌>>=◌
  find_pool [] event_address state_block = pure none
  find_pool (m ∷ rest) event_address state_block = do
    answer ← attempt (call lib (lib.get_pool m event_address state_block))
    found_or answer (find_pool rest event_address state_block)

  unfoldable pub search_pool : Header → Option ℤ → Exec (State lib) (Option Helper)
  unfolding find_pool gets ◌>>=◌
  search_pool h state_block = do
    managers ← gets (λ s. values s.pool_managers)
    find_pool managers h.event_address state_block

  -- Burn: the pool leaves the first manager that has it.
  unfoldable pub removed_or :
      Result (Unit {0}) → Exec (State lib) (Unit {0}) → Exec (State lib) (Unit {0})
  removed_or (ok _) next = pure tt
  removed_or (raise key_error) next = next
  removed_or (raise e) next = fail e

  unfoldable pub remove_pool : List Manager → String → Exec (State lib) (Unit {0})
  unfolding removed_or call pure fail attempt ◌>>=◌
  remove_pool [] address = pure tt
  remove_pool (m ∷ rest) address = do
    answer ← attempt (call lib (lib.delitem m address))
    removed_or answer (remove_pool rest address)

  -- `external_update` and `update_snapshot`, the `try` block of Burn and Mint.
  unfoldable pub liquidity_update : Header → Helper → ℤ → ℤ → ℤ → Exec (State lib) (Unit {0})
  unfolding call ◌>>=◌
  liquidity_update h helper liquidity lower upper =
      call lib (lib.external_update helper (liquidity_change h.event_block liquidity lower upper))
      >> call lib (lib.update_snapshot h.event_address helper)

  unfoldable pub after_burn : Header → Helper → Result (Unit {0}) → Exec (State lib) (Unit {0})
  unfolding remove_pool gets put_pool pure ◌>>=◌
  after_burn h helper (ok _) = put_pool lib h.event_address
  after_burn h helper (raise assertion_error) = do
    managers ← gets (λ s. values s.pool_managers)
    remove_pool managers (lib.helper_address helper)
  after_burn h helper (raise _) = pure tt

  -- Mint: `except Exception`
  unfoldable pub after_mint : Header → Result (Unit {0}) → Exec (State lib) (Unit {0})
  unfolding put_pool pure
  after_mint h (ok _) = put_pool lib h.event_address
  after_mint h (raise _) = pure tt

  -- Sync and Swap: an ExternalUpdateError is passed over, any other exception is logged.
  unfoldable pub after_update : Header → Result (Unit {0}) → Exec (State lib) (Unit {0})
  unfolding put_pool pure
  after_update h (ok _) = put_pool lib h.event_address
  after_update h (raise external_update_error) = pure tt
  after_update h (raise _) = pure tt

  unfoldable pub burn_pool : Header → Helper → Result (ℕ × ℤ × ℤ) → Exec (State lib) (Unit {0})
  unfolding liquidity_update after_burn attempt pure fail ◌>>=◌
  burn_pool h helper (raise key_error) = pure tt
  burn_pool h helper (raise e) = fail e
  burn_pool h helper (ok (liquidity, lower, upper)) = if liquidity == 0 then pure tt else (do
    done ← attempt (liquidity_update h helper (neg (pos liquidity)) lower upper)
    after_burn h helper done)

  unfoldable pub mint_pool : Header → Helper → Result (ℕ × ℤ × ℤ) → Exec (State lib) (Unit {0})
  unfolding liquidity_update after_mint attempt pure fail ◌>>=◌
  mint_pool h helper (raise key_error) = pure tt
  mint_pool h helper (raise e) = fail e
  mint_pool h helper (ok (liquidity, lower, upper)) = if liquidity == 0 then pure tt else (do
    done ← attempt (liquidity_update h helper (pos liquidity) lower upper)
    after_mint h done)

  unfoldable pub sync_pool :
      Header → (reserves : ℕ × ℕ) → Option Helper → Exec (State lib) (Unit {0})
  unfolding call after_update attempt pure ◌>>=◌
  sync_pool h reserves none = pure tt
  sync_pool h reserves (some helper) = do
    done ← attempt (call lib (lib.update_reserves helper reserves.0 reserves.1 h.event_block))
    after_update h done

  unfoldable pub swap_pool :
      Header → (price : ℕ × ℕ × ℤ) → Option Helper → Exec (State lib) (Unit {0})
  unfolding call after_update attempt pure ◌>>=◌
  swap_pool h price none = pure tt
  swap_pool h (sqrt_price_x96, liquidity, tick) (some helper) = do
    done ← attempt (
        call lib
          (lib.external_update helper (price_change h.event_block liquidity tick sqrt_price_x96)))
    after_update h done

  module _ (codec : Codec) where
    unfoldable pub burn_known : EventLog → Header → Option Helper → Exec (State lib) (Unit {0})
    unfolding burn_change burn_pool pure
    burn_known message h none = pure tt
    burn_known message h (some helper) = burn_pool h helper (burn_change codec message h.event_data)

    unfoldable pub mint_known : EventLog → Header → Option Helper → Exec (State lib) (Unit {0})
    unfolding mint_change mint_pool pure
    mint_known message h none = pure tt
    mint_known message h (some helper) = mint_pool h helper (mint_change codec message h.event_data)

    unfoldable pub process_burn_event : EventLog → Exec (State lib) (Unit {0})
    unfolding header search_pool burn_known lift ◌>>=◌
    process_burn_event message = do
      h ← lift (header codec message)
      helper ← search_pool h (some (block_before h.event_block))
      burn_known message h helper

    unfoldable pub process_mint_event : EventLog → Exec (State lib) (Unit {0})
    unfolding header search_pool mint_known lift ◌>>=◌
    process_mint_event message = do
      h ← lift (header codec message)
      helper ← search_pool h (some (block_before h.event_block))
      mint_known message h helper

    unfoldable pub process_sync_event : EventLog → Exec (State lib) (Unit {0})
    unfolding header search_pool sync_pool lift ◌>>=◌
    process_sync_event message = do
      h ← lift (header codec message)
      reserves ← lift (codec.decode_sync h.event_data)
      helper ← search_pool h none
      sync_pool h reserves helper

    unfoldable pub process_swap_event : EventLog → Exec (State lib) (Unit {0})
    unfolding header search_pool swap_pool lift ◌>>=◌
    process_swap_event message = do
      h ← lift (header codec message)
      price ← lift (codec.decode_swap h.event_data)
      helper ← search_pool h (some (block_before h.event_block))
      swap_pool h price helper
