-- ===== src/Events/Burned.antt =====
-- What the Burn and the Mint handler put into the queue.
use cream_bots.Prelude.{
  ℕ, String, some, List, [], ◌++◌, ◌≡◌, refl, ap, ◌∙◌, Exception, Result, ok, raise, sym, ◌==◌,
  if◌then◌else◌, Bool-cases, inl, inr,
}
use mathlib.Core.List.{append-nil}
use cream_bots.Prelude.Int.{ℤ, pos, neg}
use cream_bots.Prelude.Dict.{values}
use cream_bots.Prelude.Exec.{pure, lift, gets, attempt, ◌>>=◌}
use cream_bots.Events.{EventLog, Codec, PoolStore, State, put_pool}
use cream_bots.Events.Decoding.{Header, header, burn_change, mint_change}
use cream_bots.Events.Updates.{
  search_pool, after_burn, after_mint, burn_pool, mint_pool, burn_known, mint_known, block_before,
  liquidity_update, process_burn_event, process_mint_event,
}
use cream_bots.Events.Framing.{remove_pool-Keeps, liquidity_update-Keeps}
use cream_bots.Events.Synced.{if_updated, search_pool_puts}

-- The address, if there is liquidity and the update returned.
abbrev pub if_changed : ℕ → Result (Unit {0}) → String → List String
if_changed liquidity r address = if liquidity == 0 then [] else if_updated r address

module _ (lib : PoolStore) (codec : Codec) where
  open lib use {Helper}

  liquidity_update_puts :
      (h : Header) (helper : Helper) (l lo up : ℤ) (s : State lib)
      → (liquidity_update lib h helper l lo up s).0.puts ≡ s.puts
  liquidity_update_puts h helper l lo up s =
      (liquidity_update-Keeps lib (λ t. t.puts ≡ s.puts) (λ t store e. e) h helper l lo up).after s
        refl

  after_burn_puts :
      (h : Header) (helper : Helper) (r : Result (Unit {0})) (s : State lib)
      → (after_burn lib h helper r s).0.puts ≡ s.puts ++ if_updated r h.event_address
  unfolding after_burn put_pool pure gets ◌>>=◌
  after_burn_puts h helper (ok _) s = refl
  after_burn_puts h helper (raise Exception.assertion_error) s =
      (remove_pool-Keeps lib (λ t. t.puts ≡ s.puts) (λ t store e. e) (values s.pool_managers)
          (lib.helper_address helper)).after
        s refl
      ∙ sym (append-nil s.puts)
  after_burn_puts h helper (raise _) s = sym (append-nil s.puts)

  after_mint_puts :
      (h : Header) (r : Result (Unit {0})) (s : State lib)
      → (after_mint lib h r s).0.puts ≡ s.puts ++ if_updated r h.event_address
  unfolding after_mint put_pool pure
  after_mint_puts h (ok _) s = refl
  after_mint_puts h (raise _) s = sym (append-nil s.puts)

  burn_pool_puts :
      (h : Header) (helper : Helper) (liquidity : ℕ) (lo up : ℤ) (s : State lib)
      → (burn_pool lib h helper (ok (liquidity, lo, up)) s).0.puts
        ≡ s.puts
          ++ if_changed liquidity
              (liquidity_update lib h helper (neg (pos liquidity)) lo up s).1
              h.event_address
  unfolding burn_pool pure attempt ◌>>=◌
  burn_pool_puts h helper liquidity lo up s = elim (Bool-cases (liquidity == 0)) [
    | inl e ↦ rw e (sym (append-nil s.puts))
    | inr e ↦ rw e (
        after_burn_puts h helper _ _
        ∙ ap
            (λ l.
              l
              ++ if_updated (liquidity_update lib h helper (neg (pos liquidity)) lo up s).1
                  h.event_address)
            (liquidity_update_puts h helper (neg (pos liquidity)) lo up s))
  ]

  mint_pool_puts :
      (h : Header) (helper : Helper) (liquidity : ℕ) (lo up : ℤ) (s : State lib)
      → (mint_pool lib h helper (ok (liquidity, lo, up)) s).0.puts
        ≡ s.puts
          ++ if_changed liquidity
              (liquidity_update lib h helper (pos liquidity) lo up s).1
              h.event_address
  unfolding mint_pool pure attempt ◌>>=◌
  mint_pool_puts h helper liquidity lo up s = elim (Bool-cases (liquidity == 0)) [
    | inl e ↦ rw e (sym (append-nil s.puts))
    | inr e ↦ rw e (
        after_mint_puts h _ _
        ∙ ap
            (λ l.
              l
              ++ if_updated (liquidity_update lib h helper (pos liquidity) lo up s).1
                  h.event_address)
            (liquidity_update_puts h helper (pos liquidity) lo up s))
  ]

  -- A Burn event that decodes, of a pool that some manager knows: its address is put behind the
  -- queue exactly if the event removes liquidity and the update of the pool and of the snapshot
  -- returned. So it is not put after a failed assertion, when the pool is taken out of its manager.
  pub process_burn_event_puts :
      (message : EventLog) (s s1 : State lib) (h : Header) (helper : Helper) (liquidity : ℕ)
      (lo up : ℤ)
      → header codec message ≡ ok h
      → search_pool lib h (some (block_before h.event_block)) s ≡ (s1, ok (some helper))
      → burn_change codec message h.event_data ≡ ok (liquidity, lo, up)
      → (process_burn_event lib codec message s).0.puts
        ≡ s.puts
          ++ if_changed liquidity
              (liquidity_update lib h helper (neg (pos liquidity)) lo up s1).1
              h.event_address
  unfolding process_burn_event burn_known lift ◌>>=◌
  process_burn_event_puts message s s1 h helper liquidity lo up parsed found decoded =
      rw (parsed, found, decoded)
        (burn_pool_puts h helper liquidity lo up s1
          ∙ ap
              (λ l.
                l
                ++ if_changed liquidity
                    (liquidity_update lib h helper (neg (pos liquidity)) lo up s1).1
                    h.event_address)
              (search_pool_puts lib codec h _ s s1 _ found))

  -- A Mint event that decodes, of a pool that some manager knows: its address is put behind the
  -- queue exactly if the event adds liquidity and the update of the pool and of the snapshot
  -- returned.
  pub process_mint_event_puts :
      (message : EventLog) (s s1 : State lib) (h : Header) (helper : Helper) (liquidity : ℕ)
      (lo up : ℤ)
      → header codec message ≡ ok h
      → search_pool lib h (some (block_before h.event_block)) s ≡ (s1, ok (some helper))
      → mint_change codec message h.event_data ≡ ok (liquidity, lo, up)
      → (process_mint_event lib codec message s).0.puts
        ≡ s.puts
          ++ if_changed liquidity
              (liquidity_update lib h helper (pos liquidity) lo up s1).1
              h.event_address
  unfolding process_mint_event mint_known lift ◌>>=◌
  process_mint_event_puts message s s1 h helper liquidity lo up parsed found decoded =
      rw (parsed, found, decoded)
        (mint_pool_puts h helper liquidity lo up s1
          ∙ ap
              (λ l.
                l
                ++ if_changed liquidity (liquidity_update lib h helper (pos liquidity) lo up s1).1
                    h.event_address)
              (search_pool_puts lib codec h _ s s1 _ found))
