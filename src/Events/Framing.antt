-- ===== src/Events/Framing.antt =====
-- What the handlers keep: whatever no call of degenbot breaks, and no put of the event's address.
use cream_bots.Prelude.{
  ℕ, String, Option, none, some, List, [], ◌∷◌, ◌≡◌, Exception, Result, ok, raise,
}
use cream_bots.Prelude.Int.{ℤ}
use cream_bots.Prelude.Exec.{Exec, Keeps, keeps_rules, Keeps-bind, Keeps-attempt, Keeps-bind-lift}
use cream_bots.Events.{EventLog, Codec, PoolStore, State, call, put_pool}
use cream_bots.Events.Decoding.{Header, header, burn_change, mint_change}
use cream_bots.Events.Updates.{
  found_or, find_pool, search_pool, removed_or, remove_pool, liquidity_update, after_burn,
  after_mint, after_update, burn_pool, mint_pool, sync_pool, swap_pool, burn_known, mint_known,
  process_burn_event, process_mint_event, process_sync_event, process_swap_event,
}
use cream_bots.Events.NewPools.{add_pool}

module _ (lib : PoolStore) (P : State lib → Type 0)
    (framed : (s : State lib) (store : PoolStore.Store lib)
      → P s
      → P (record s { store = store })) where
  open lib use {Store, Manager, Helper}

  pub calls : {A : Type 0} (f : Exec Store A) → Keeps P (call lib f)
  unfolding call
  calls f = record { after = λ s p. let (store, r) = f s.store in framed s store p }

  found_or-Keeps :
      (r : Result Helper) (next : Exec (State lib) (Option Helper))
      → Keeps P next
      → Keeps P (found_or lib r next)
  unfolding found_or
  found_or-Keeps (ok helper) next k = search keeps_rules
  found_or-Keeps (raise Exception.manager_error) next k = k
  found_or-Keeps (raise _) next k = search keeps_rules

  find_pool-Keeps :
      (managers : List Manager) (a : String) (b : Option ℤ) → Keeps P (find_pool lib managers a b)
  unfolding find_pool
  find_pool-Keeps [] a b = search keeps_rules
  find_pool-Keeps (m ∷ rest) a b =
      Keeps-bind _ _ (Keeps-attempt _ (calls (lib.get_pool m a b)))
        λ r. found_or-Keeps r _ (find_pool-Keeps rest a b)

  pub search_pool-Keeps : (h : Header) (b : Option ℤ) → Keeps P (search_pool lib h b)
  unfolding search_pool
  search_pool-Keeps h b = search (keeps_rules, find_pool-Keeps)

  removed_or-Keeps :
      (r : Result (Unit {0})) (next : Exec (State lib) (Unit {0}))
      → Keeps P next
      → Keeps P (removed_or lib r next)
  unfolding removed_or
  removed_or-Keeps (ok _) next k = search keeps_rules
  removed_or-Keeps (raise Exception.key_error) next k = k
  removed_or-Keeps (raise _) next k = search keeps_rules

  pub remove_pool-Keeps :
      (managers : List Manager) (a : String) → Keeps P (remove_pool lib managers a)
  unfolding remove_pool
  remove_pool-Keeps [] a = search keeps_rules
  remove_pool-Keeps (m ∷ rest) a =
      Keeps-bind _ _ (Keeps-attempt _ (calls (lib.delitem m a)))
        λ r. removed_or-Keeps r _ (remove_pool-Keeps rest a)

  pub liquidity_update-Keeps :
      (h : Header) (helper : Helper) (l lo up : ℤ) → Keeps P (liquidity_update lib h helper l lo up)
  unfolding liquidity_update
  liquidity_update-Keeps h helper l lo up = search (keeps_rules, calls)

  pub add_pool-Keeps : (h : Header) (a : String) → Keeps P (add_pool lib h a)
  unfolding add_pool
  add_pool-Keeps h a = search (keeps_rules, calls)

  module _ (h : Header) (put : Keeps P (put_pool lib h.event_address)) where
    after_burn-Keeps :
        (helper : Helper) (r : Result (Unit {0})) → Keeps P (after_burn lib h helper r)
    unfolding after_burn
    after_burn-Keeps helper (ok _) = put
    after_burn-Keeps helper (raise Exception.assertion_error) =
        search (keeps_rules, remove_pool-Keeps)
    after_burn-Keeps helper (raise _) = search keeps_rules

    after_mint-Keeps : (r : Result (Unit {0})) → Keeps P (after_mint lib h r)
    unfolding after_mint
    after_mint-Keeps (ok _) = put
    after_mint-Keeps (raise _) = search keeps_rules

    after_update-Keeps : (r : Result (Unit {0})) → Keeps P (after_update lib h r)
    unfolding after_update
    after_update-Keeps (ok _) = put
    after_update-Keeps (raise Exception.external_update_error) = search keeps_rules
    after_update-Keeps (raise _) = search keeps_rules

    burn_pool-Keeps :
        (helper : Helper) (r : Result (ℕ × ℤ × ℤ)) → Keeps P (burn_pool lib h helper r)
    unfolding burn_pool
    burn_pool-Keeps helper (raise Exception.key_error) = search keeps_rules
    burn_pool-Keeps helper (raise _) = search keeps_rules
    burn_pool-Keeps helper (ok (l, lo, up)) =
        search (keeps_rules, liquidity_update-Keeps, after_burn-Keeps)

    mint_pool-Keeps :
        (helper : Helper) (r : Result (ℕ × ℤ × ℤ)) → Keeps P (mint_pool lib h helper r)
    unfolding mint_pool
    mint_pool-Keeps helper (raise Exception.key_error) = search keeps_rules
    mint_pool-Keeps helper (raise _) = search keeps_rules
    mint_pool-Keeps helper (ok (l, lo, up)) =
        search (keeps_rules, liquidity_update-Keeps, after_mint-Keeps)

    sync_pool-Keeps : (reserves : ℕ × ℕ) (o : Option Helper) → Keeps P (sync_pool lib h reserves o)
    unfolding sync_pool
    sync_pool-Keeps reserves none = search keeps_rules
    sync_pool-Keeps reserves (some helper) = search (keeps_rules, calls, after_update-Keeps)

    swap_pool-Keeps : (price : ℕ × ℕ × ℤ) (o : Option Helper) → Keeps P (swap_pool lib h price o)
    unfolding swap_pool
    swap_pool-Keeps price none = search keeps_rules
    swap_pool-Keeps (sqrt_price, l, tick) (some helper) =
        search (keeps_rules, calls, after_update-Keeps)

    module _ (codec : Codec) (message : EventLog) where
      burn_known-Keeps : (o : Option Helper) → Keeps P (burn_known lib codec message h o)
      unfolding burn_known
      burn_known-Keeps none = search keeps_rules
      burn_known-Keeps (some helper) =
          burn_pool-Keeps helper (burn_change codec message h.event_data)

      mint_known-Keeps : (o : Option Helper) → Keeps P (mint_known lib codec message h o)
      unfolding mint_known
      mint_known-Keeps none = search keeps_rules
      mint_known-Keeps (some helper) =
          mint_pool-Keeps helper (mint_change codec message h.event_data)

  module _ (codec : Codec) (message : EventLog)
      (puts : (h : Header)
        → header codec message ≡ ok h
        → Keeps P (put_pool lib h.event_address)) where
    pub process_burn_event-Keeps : Keeps P (process_burn_event lib codec message)
    unfolding process_burn_event
    process_burn_event-Keeps = Keeps-bind-lift (header codec message) _ λ h e.
        let put = puts h e in
        search (keeps_rules, search_pool-Keeps, burn_known-Keeps h put codec message)

    pub process_mint_event-Keeps : Keeps P (process_mint_event lib codec message)
    unfolding process_mint_event
    process_mint_event-Keeps = Keeps-bind-lift (header codec message) _ λ h e.
        let put = puts h e in
        search (keeps_rules, search_pool-Keeps, mint_known-Keeps h put codec message)

    pub process_sync_event-Keeps : Keeps P (process_sync_event lib codec message)
    unfolding process_sync_event
    process_sync_event-Keeps =
        Keeps-bind-lift (header codec message) _ λ h e.
          let put = puts h e in search (keeps_rules, search_pool-Keeps, sync_pool-Keeps h put)

    pub process_swap_event-Keeps : Keeps P (process_swap_event lib codec message)
    unfolding process_swap_event
    process_swap_event-Keeps =
        Keeps-bind-lift (header codec message) _ λ h e.
          let put = puts h e in search (keeps_rules, search_pool-Keeps, swap_pool-Keeps h put)
