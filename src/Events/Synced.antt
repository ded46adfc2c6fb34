-- ===== src/Events/Synced.antt =====
-- What the Sync and the Swap handler do with the answer of the pool's update.
use cream_bots.Prelude.{
  ℕ, String, Option, none, some, List, [], ◌∷◌, ◌++◌, ◌≡◌, refl, ap, ◌∙◌, Exception, Result, ok,
  raise, sym,
}
use mathlib.Core.List.{append-nil}
use cream_bots.Prelude.Int.{ℤ}
use cream_bots.Prelude.Exec.{pure, lift, attempt, ◌>>=◌}
use cream_bots.Events.{EventLog, Codec, PoolStore, State, call, put_pool, price_change}
use cream_bots.Events.Decoding.{Header, header}
use cream_bots.Events.Updates.{
  search_pool, after_update, sync_pool, swap_pool, block_before, process_sync_event,
  process_swap_event,
}
use cream_bots.Events.Framing.{search_pool-Keeps}

-- The address, if the update returned.
abbrev pub if_updated : Result (Unit {0}) → String → List String
if_updated (ok _) address = address ∷ []
if_updated (raise _) address = []

module _ (lib : PoolStore) (codec : Codec) where
  open lib use {Store, Helper}

  pub search_pool_puts :
      (h : Header) (b : Option ℤ) (s s1 : State lib) (r : Result (Option Helper))
      → search_pool lib h b s ≡ (s1, r)
      → s1.puts ≡ s.puts
  search_pool_puts h b s s1 r found =
      ap (λ p. p.0.puts) (sym found)
      ∙ (search_pool-Keeps lib (λ t. t.puts ≡ s.puts) (λ t store e. e) h b).after s refl

  -- How `after_update` ends.
  after_update_lem :
      (h : Header) (r : Result (Unit {0})) (s : State lib)
      → after_update lib h r s ≡ (record s { puts = s.puts ++ if_updated r h.event_address }, ok tt)
  unfolding after_update pure put_pool
  after_update_lem h (ok _) s = refl
  after_update_lem h (raise Exception.external_update_error) s =
      ap (λ l. (record s { puts = l }, ok tt)) (sym (append-nil s.puts))
  after_update_lem h (raise _) s =
      ap (λ l. (record s { puts = l }, ok tt)) (sym (append-nil s.puts))

  sync_pool_lem :
      (h : Header) (reserves : ℕ × ℕ) (helper : Helper) (s : State lib)
      → let update = lib.update_reserves helper reserves.0 reserves.1 h.event_block s.store in
        sync_pool lib h reserves (some helper) s ≡ (
          record s { store = update.0; puts = s.puts ++ if_updated update.1 h.event_address },
          ok tt,
        )
  unfolding sync_pool attempt call ◌>>=◌
  sync_pool_lem h reserves helper s = after_update_lem h _ _

  swap_pool_lem :
      (h : Header) (sqrt_price_x96 liquidity : ℕ) (tick : ℤ) (helper : Helper) (s : State lib)
      → let update =
          lib.external_update helper
            (price_change h.event_block liquidity tick sqrt_price_x96)
            s.store in
        swap_pool lib h (sqrt_price_x96, liquidity, tick) (some helper) s ≡ (
          record s { store = update.0; puts = s.puts ++ if_updated update.1 h.event_address },
          ok tt,
        )
  unfolding swap_pool attempt call ◌>>=◌
  swap_pool_lem h sqrt_price_x96 liquidity tick helper s = after_update_lem h _ _

  -- A Sync event that decodes, of a pool that some manager knows: the handler returns, whatever the
  -- update of the reserves raises, and it puts the address behind the queue exactly if the update
  -- returned.
  pub process_sync_event_puts :
      (message : EventLog) (s s1 : State lib) (h : Header) (reserves : ℕ × ℕ) (helper : Helper)
      → header codec message ≡ ok h
      → codec.decode_sync h.event_data ≡ ok reserves
      → search_pool lib h none s ≡ (s1, ok (some helper))
      → let update = lib.update_reserves helper reserves.0 reserves.1 h.event_block s1.store in
        ((process_sync_event lib codec message s).0.puts
          ≡ s.puts ++ if_updated update.1 h.event_address)
        × ((process_sync_event lib codec message s).1 ≡ ok tt)
  unfolding process_sync_event lift ◌>>=◌
  process_sync_event_puts message s s1 h reserves helper parsed decoded found =
      rw (parsed, decoded, found, sync_pool_lem h reserves helper s1)
        (rw (search_pool_puts h none s s1 _ found) refl, refl)

  -- A Swap event that decodes, of a pool that some manager knows: the handler returns, whatever the
  -- update of the price raises, and it puts the address behind the queue exactly if the update
  -- returned.
  pub process_swap_event_puts :
      (message : EventLog) (s s1 : State lib) (h : Header) (sqrt_price_x96 liquidity : ℕ) (tick : ℤ)
      (helper : Helper)
      → header codec message ≡ ok h
      → codec.decode_swap h.event_data ≡ ok (sqrt_price_x96, liquidity, tick)
      → search_pool lib h (some (block_before h.event_block)) s ≡ (s1, ok (some helper))
      → let update =
          lib.external_update helper
            (price_change h.event_block liquidity tick sqrt_price_x96)
            s1.store in
        ((process_swap_event lib codec message s).0.puts
          ≡ s.puts ++ if_updated update.1 h.event_address)
        × ((process_swap_event lib codec message s).1 ≡ ok tt)
  unfolding process_swap_event lift ◌>>=◌
  process_swap_event_puts message s s1 h sqrt_price_x96 liquidity tick helper parsed decoded found =
      rw (parsed, decoded, found, swap_pool_lem h sqrt_price_x96 liquidity tick helper s1)
        (rw (search_pool_puts h (some (block_before h.event_block)) s s1 _ found) refl, refl)
