-- ===== src/Events/Registered.antt =====
-- The table `pool_managers` only grows.
use cream_bots.Prelude.{
  String, String_discrete, Option, none, some, List, [], ◌∷◌, ◌≡◌, ◌≢◌, ◌⊎◌, inl, inr, ap, ◌∙◌,
  Result, ok, raise,
}
use cream_bots.Prelude.Dict.{get, get-put_ne}
use cream_bots.Prelude.Exec.{Exec, Keeps, keeps_rules, Keeps-bind-lift}
use cream_bots.Events.{EventLog, Message, Codec, PoolStore, State, put_pool}
use cream_bots.Events.Decoding.{Header, header}
use cream_bots.Events.NewPools.{
  set_manager, register_new, register, process_new_v2_pool_event, process_new_v3_pool_event,
}
use cream_bots.Events.Framing.{
  calls, add_pool-Keeps, process_burn_event-Keeps, process_mint_event-Keeps,
  process_sync_event-Keeps, process_swap_event-Keeps,
}
use cream_bots.Events.Listening.{
  Handler, process, store_first_event, receive, process_uniswap_events,
}
use cream_bots.Events.Received.{receive-Keeps}

module _ (lib : PoolStore) (codec : Codec) (factory : String)
    (manager : PoolStore.Manager lib) where
  open lib use {Store, Manager}

  abbrev IsRegistered : State lib → Type 0
  IsRegistered s = get String_discrete factory s.pool_managers ≡ some manager

  framed :
      (s : State lib) (store : Store) → IsRegistered s → IsRegistered (record s { store = store })
  framed s store p = p

  put-Keeps : (a : String) → Keeps IsRegistered (put_pool lib a)
  unfolding put_pool
  put-Keeps a = record { after = λ s p. p }

  set_manager-Keeps :
      (a : String) (m : Manager) → a ≢ factory → Keeps IsRegistered (set_manager lib a m)
  unfolding set_manager
  set_manager-Keeps a m other = record {
    after = λ s p. get-put_ne String_discrete a factory m s.pool_managers other ∙ p;
  }

  register_new-Keeps :
      (h : Header) (a : String) (r : Result Manager)
      → h.event_address ≢ factory
      → Keeps IsRegistered (register_new lib h a r)
  unfolding register_new
  register_new-Keeps h a (raise _) other = search keeps_rules
  register_new-Keeps h a (ok m) other =
      search (keeps_rules, set_manager-Keeps, add_pool-Keeps lib IsRegistered framed)

  register-Keeps :
      (new : String → Exec Store Manager) (h : Header) (a : String) (o : Option Manager)
      → (h.event_address ≢ factory) ⊎ ((m : Manager) × (o ≡ some m))
      → Keeps IsRegistered (register lib new h a o)
  unfolding register
  register-Keeps new h a (some _) c = add_pool-Keeps lib IsRegistered framed h a
  register-Keeps new h a none (inl other) =
      search (keeps_rules, calls lib IsRegistered framed, register_new-Keeps)
  register-Keeps new h a none (inr (m, e)) = cc

  -- The handler looks the factory up before it registers it.
  known-Keeps :
      (new : String → Exec Store Manager) (h : Header) (a : String) (s : State lib)
      → IsRegistered s
      → IsRegistered
          (register lib new h a (get String_discrete h.event_address s.pool_managers) s).0
  known-Keeps new h a s p =
      (register-Keeps new h a _ (elim (String_discrete h.event_address factory) [
        | yes same ↦ inr (manager, ap (λ x. get String_discrete x s.pool_managers) same ∙ p)
        | no other ↦ inl other
      ])).after
        s p

  process-Keeps :
      (handler : Handler) (event : EventLog) → Keeps IsRegistered (process codec lib handler event)
  unfolding process process_new_v2_pool_event process_new_v3_pool_event
  process-Keeps Handler.sync event =
      process_sync_event-Keeps lib IsRegistered framed codec event λ h _. put-Keeps h.event_address
  process-Keeps Handler.mint event =
      process_mint_event-Keeps lib IsRegistered framed codec event λ h _. put-Keeps h.event_address
  process-Keeps Handler.burn event =
      process_burn_event-Keeps lib IsRegistered framed codec event λ h _. put-Keeps h.event_address
  process-Keeps Handler.swap event =
      process_swap_event-Keeps lib IsRegistered framed codec event λ h _. put-Keeps h.event_address
  process-Keeps Handler.new_v2_pool event = Keeps-bind-lift (header codec event) _ λ h _.
      Keeps-bind-lift (codec.decode_pair_created h.event_data) _
        λ a _. record { after = λ s p. known-Keeps lib.v2_manager h a s p }
  process-Keeps Handler.new_v3_pool event = Keeps-bind-lift (header codec event) _ λ h _.
      Keeps-bind-lift (codec.decode_pool_created h.event_data) _
        λ a _. record { after = λ s p. known-Keeps lib.v3_manager h a s p }

  stored-Keeps : (block : String) → Keeps IsRegistered (store_first_event codec lib block)
  unfolding store_first_event
  stored-Keeps block = record { after = λ s p. p }

  receive-IsRegistered : (message : Message) → Keeps IsRegistered (receive codec lib message)
  receive-IsRegistered message =
      receive-Keeps codec lib IsRegistered stored-Keeps message
        (λ handler event _. process-Keeps handler event)

  -- Whatever messages arrive, and whatever the calls of degenbot return or raise, a factory keeps
  -- the pool manager that is registered for it: no event replaces it or takes it off the table.
  pub process_uniswap_events-IsRegistered :
      (messages : List Message) (s : State lib)
      → get String_discrete factory s.pool_managers ≡ some manager
      → get String_discrete factory (process_uniswap_events codec lib messages s).pool_managers
        ≡ some manager
  unfolding process_uniswap_events
  process_uniswap_events-IsRegistered [] s p = p
  process_uniswap_events-IsRegistered (m ∷ rest) s p =
      process_uniswap_events-IsRegistered rest (receive codec lib m s).0
        ((receive-IsRegistered m).after s p)
