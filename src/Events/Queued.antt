-- ===== src/Events/Queued.antt =====
-- Which addresses the loop puts into `pools_to_process`.
use cream_bots.Prelude.{
  String, Bool, true, false, Option, none, some, List, [], ◌∷◌, ◌++◌, ◌≡◌, refl, sym, ap, ◌∙◌,
  Result, ok, raise, All, Memᴰ,
}
use mathlib.Core.List.{append-nil, append_assoc}
use mathlib.Core.List.Memᴰ.{head, tail}
use cream_bots.Prelude.Exec.{Exec, Keeps, keeps_rules}
use cream_bots.Events.{EventLog, Message, Codec, PoolStore, State, put_pool}
use cream_bots.Events.Decoding.{Header, header}
use cream_bots.Events.NewPools.{
  set_manager, register_new, register, process_new_v2_pool_event, process_new_v3_pool_event,
}
use cream_bots.Events.Framing.{
  calls, add_pool-Keeps, process_burn_event-Keeps, process_mint_event-Keeps,
  process_sync_event-Keeps, process_swap_event-Keeps,
}
use cream_bots.Events.Listening.{Handler, process, store_first_event, process_uniswap_events}
use cream_bots.Events.Received.{Carries, receive-Keeps}

-- The events of known pools, as against those of new pools.
abbrev pub is_update : Handler → Bool
is_update Handler.new_v2_pool = false
is_update Handler.new_v3_pool = false
is_update _ = true

module _ (codec : Codec) where
  -- A Sync, Mint, Burn or Swap event among the messages comes from the address.
  pub record IsAnnounced (messages : List Message) (address : String) : Type 0 where
    pub message : Message
    pub handler : Handler
    pub event : EventLog
    pub fields : Header
    pub arrived : Memᴰ message messages
    pub carries : Carries codec message handler event
    pub updates : is_update handler ≡ true
    pub read : header codec event ≡ ok fields
    pub from : address ≡ fields.event_address

  module _ (lib : PoolStore) where
    open lib use {Store, Manager}

    -- `puts` with announced addresses behind it.
    pub record Queued (messages : List Message) (puts : List String) (s : State lib) : Type 0 where
      pub added : List String
      pub extends : s.puts ≡ puts ++ added
      pub announced : All (IsAnnounced messages) added

    module _ (messages : List Message) (puts : List String) where
      abbrev P : State lib → Type 0
      P = Queued messages puts

      framed : (s : State lib) (store : Store) → P s → P (record s { store = store })
      framed s store p = record { added = p.added; extends = p.extends; announced = p.announced }

      All-snoc :
          (xs : List String) (a : String)
          → All (IsAnnounced messages) xs
          → IsAnnounced messages a
          → All (IsAnnounced messages) (xs ++ a ∷ [])
      All-snoc [] a h n = (n, tt)
      All-snoc (x ∷ xs) a h n = (h.0, All-snoc xs a h.1 n)

      put-Keeps : (a : String) → IsAnnounced messages a → Keeps P (put_pool lib a)
      unfolding put_pool
      put-Keeps a n = record {
        after = λ s p. record {
          added = p.added ++ a ∷ [];
          extends = ap (λ l. l ++ a ∷ []) p.extends ∙ append_assoc puts p.added (a ∷ []);
          announced = All-snoc p.added a p.announced n;
        };
      }

      set_manager-Keeps : (a : String) (m : Manager) → Keeps P (set_manager lib a m)
      unfolding set_manager
      set_manager-Keeps a m = record {
        after = λ s p. record { added = p.added; extends = p.extends; announced = p.announced };
      }

      register_new-Keeps :
          (h : Header) (a : String) (r : Result Manager) → Keeps P (register_new lib h a r)
      unfolding register_new
      register_new-Keeps h a (raise _) = search keeps_rules
      register_new-Keeps h a (ok m) =
          search (keeps_rules, set_manager-Keeps, add_pool-Keeps lib P framed)

      register-Keeps :
          (new : String → Exec Store Manager) (h : Header) (a : String) (o : Option Manager)
          → Keeps P (register lib new h a o)
      unfolding register
      register-Keeps new h a (some _) = add_pool-Keeps lib P framed h a
      register-Keeps new h a none = search (keeps_rules, calls lib P framed, register_new-Keeps)

      module _ (message : Message) (arrived : Memᴰ message messages) where
        process-Keeps :
            (handler : Handler) (event : EventLog) (carries : Carries codec message handler event)
            → Keeps P (process codec lib handler event)
        unfolding process process_new_v2_pool_event process_new_v3_pool_event
        process-Keeps handler event carries =
            elim handler as (λ k. handler ≡ k → Keeps P (process codec lib k event)) [
              | Handler.sync ↦
                  λ e. process_sync_event-Keeps lib P framed codec event (puts_of e refl)
              | Handler.mint ↦
                  λ e. process_mint_event-Keeps lib P framed codec event (puts_of e refl)
              | Handler.burn ↦
                  λ e. process_burn_event-Keeps lib P framed codec event (puts_of e refl)
              | Handler.swap ↦
                  λ e. process_swap_event-Keeps lib P framed codec event (puts_of e refl)
              | Handler.new_v2_pool ↦ λ _. search (keeps_rules, register-Keeps) depth 9
              | Handler.new_v3_pool ↦ λ _. search (keeps_rules, register-Keeps) depth 9
            ]
              refl
          where
            puts_of :
                {k : Handler}
                → handler ≡ k
                → (updates : is_update k ≡ true) → (h : Header) → header codec event ≡ ok h
                → Keeps P (put_pool lib h.event_address)
            puts_of e updates h read = put-Keeps h.event_address (record {
              message = message;
              handler = handler;
              event = event;
              fields = h;
              arrived = arrived;
              carries = carries;
              updates = ap is_update e ∙ updates;
              read = read;
              from = refl;
            })

      stored-Keeps : (block : String) → Keeps P (store_first_event codec lib block)
      unfolding store_first_event
      stored-Keeps block = record {
        after = λ s p. record { added = p.added; extends = p.extends; announced = p.announced };
      }

      run :
          (rest : List Message)
          → ((m : Message) → Memᴰ m rest → Memᴰ m messages)
          → (s : State lib) → P s
          → P (process_uniswap_events codec lib rest s)
      unfolding process_uniswap_events
      run [] within s p = p
      run (m ∷ rest) within s p =
          run rest (λ x i. within x (tail i)) _
            ((receive-Keeps codec lib P stored-Keeps m
                (process-Keeps m (within m (head refl)))).after
              s p)

    -- Whatever messages arrive, the loop puts addresses behind those that are in the queue, and
    -- each new one is the checksum address of a Sync, Mint, Burn or Swap event that one of the
    -- messages carries.
    pub process_uniswap_events-Queued :
        (messages : List Message) (s : State lib)
        → Queued messages s.puts (process_uniswap_events codec lib messages s)
    process_uniswap_events-Queued messages s =
        run messages s.puts messages (λ m i. i) s
          (record { added = []; extends = sym (append-nil s.puts); announced = tt })
