-- ===== src/Events/NewPools.antt =====
-- The handlers of PairCreated and PoolCreated events.
use cream_bots.Prelude.{String, String_discrete, Option, none, some, Result, ok, raise}
use cream_bots.Prelude.Dict.{get, put}
use cream_bots.Prelude.Exec.{Exec, pure, lift, gets, attempt, ◌>>=◌, ◌>>◌}
use cream_bots.Events.{EventLog, Codec, PoolStore, State, call, item}
use cream_bots.Events.Decoding.{Header, header}

module _ (lib : PoolStore) where
  open lib use {Store, Manager, Helper}

  -- `pool_managers[address] = manager`
  unfoldable pub set_manager : String → Manager → Exec (State lib) (Unit {0})
  unfolding put String_discrete
  set_manager address manager s =
      (record s { pool_managers = put String_discrete address manager s.pool_managers }, ok tt)

  -- `pool_manager = pool_managers[address]`, then `get_pool` in its `try`.
  unfoldable pub add_pool : Header → (pool_address : String) → Exec (State lib) (Unit {0})
  unfolding gets lift attempt call pure get String_discrete ◌>>=◌
  add_pool h pool_address = do
    known ← gets (λ s. get String_discrete h.event_address s.pool_managers)
    manager ← lift (item known)
    _ ← attempt (call lib (lib.get_pool manager pool_address (some h.event_block)))
    pure tt

  unfoldable pub register_new :
      Header → (pool_address : String) → Result Manager → Exec (State lib) (Unit {0})
  unfolding set_manager add_pool pure ◌>>=◌
  register_new h pool_address (raise _) = pure tt
  register_new h pool_address (ok manager) =
      set_manager h.event_address manager >> add_pool h pool_address

  -- `new_manager` is the class of the manager.
  unfoldable pub register :
      (new_manager : String → Exec Store Manager)
      → Header
      → (pool_address : String) → Option Manager
      → Exec (State lib) (Unit {0})
  unfolding add_pool register_new attempt call ◌>>=◌
  register new_manager h pool_address (some _) = add_pool h pool_address
  register new_manager h pool_address none = do
    manager ← attempt (call lib (new_manager h.event_address))
    register_new h pool_address manager

  module _ (codec : Codec) where
    unfoldable pub process_new_v2_pool_event : EventLog → Exec (State lib) (Unit {0})
    unfolding header register lift gets get String_discrete ◌>>=◌
    process_new_v2_pool_event message = do
      h ← lift (header codec message)
      pool_address ← lift (codec.decode_pair_created h.event_data)
      known ← gets (λ s. get String_discrete h.event_address s.pool_managers)
      register lib.v2_manager h pool_address known

    unfoldable pub process_new_v3_pool_event : EventLog → Exec (State lib) (Unit {0})
    unfolding header register lift gets get String_discrete ◌>>=◌
    process_new_v3_pool_event message = do
      h ← lift (header codec message)
      pool_address ← lift (codec.decode_pool_created h.event_data)
      known ← gets (λ s. get String_discrete h.event_address s.pool_managers)
      register lib.v3_manager h pool_address known
