-- ===== src/Pools/Managers.antt =====
-- create_pool_managers, which makes the pool managers of the configured factories.
pub mod Ready
use cream_bots.Prelude.{
  String, String_discrete, Option, none, some, List, [], ◌∷◌, Result, ok, raise, type_error,
  attribute_error, holds, Bool, true, zero, suc, if◌then◌else◌,
}
use cream_bots.Prelude.Int.{ℤ, pos, negsuc}
use cream_bots.Prelude.Dict.{Dict, put}
use cream_bots.Prelude.Exec.{Exec, pure, lift, ◌>>=◌}
use cream_bots.Prelude.Rounds.{rounds}
use cream_bots.Json.{Value, Value_discrete, number}

-- `factory_info.get("factory_address")` of each exchange, and the versions of the chain's data;
-- None for chain data without "factories".
abbrev pub VersionData : Type 0
VersionData = Dict String (Dict String Value)

abbrev pub FactoryData : Type 0
FactoryData = Option VersionData

-- degenbot with the snapshot: fetch_new_liquidity_events, and the constructors of the managers, at
-- the address of their factory.
pub record Managers : Type 1 where
  pub Store : Type 0
  pub Manager : Type 0
  pub fetch_events : ℤ → Store → Store × Result (Unit {0})
  pub v2_manager : Value → Store → Store × Result Manager
  pub v3_manager : Value → Store → Store × Result Manager

-- x - 1
abbrev pub pred_ℤ : ℤ → ℤ
pred_ℤ (pos zero) = negsuc 0
pred_ℤ (pos (suc n)) = pos n
pred_ℤ (negsuc n) = negsuc (suc n)

-- `first_event - 1`, for the value that the wait has found.
abbrev pub first_state_block : Value → Result ℤ
first_state_block (number n) = ok (pred_ℤ n)
first_state_block _ = raise type_error

module _ (lib : Managers) where
  pub record ManagersState : Type 0 where
    pub store : lib.Store
    pub pool_managers : Dict Value lib.Manager
    pub pool_managers_ready : Bool

  -- A call of degenbot.
  abbrev pub call_degenbot :
      {A : Type 0} → (lib.Store → lib.Store × Result A) → Exec ManagersState A
  call_degenbot f s = let (store, r) = f s.store in (record s { store = store }, r)

  unfoldable pub keep_manager : Value → lib.Manager → Exec ManagersState (Unit {0})
  unfolding put Value_discrete
  keep_manager factory_address manager s = (
    record s { pool_managers = put Value_discrete factory_address manager s.pool_managers },
    ok tt,
  )

  -- The body of the inner loop; other versions have no managers.
  unfoldable pub create_manager :
      (version : String) → String × Value → Exec ManagersState (Unit {0})
  unfolding keep_manager pure String_discrete ◌>>=◌
  create_manager version (exchange_name, factory_address) =
      if holds (String_discrete version "v2")
      then (do
        v2_pool_manager ← call_degenbot (lib.v2_manager factory_address)
        keep_manager factory_address v2_pool_manager)
      else if holds (String_discrete version "v3")
      then (do
        v3_pool_manager ← call_degenbot (lib.v3_manager factory_address)
        keep_manager factory_address v3_pool_manager)
      else pure tt

  unfoldable pub create_version : String × Dict String Value → Exec ManagersState (Unit {0})
  unfolding create_manager rounds
  create_version (version, factories) = rounds (create_manager version) factories

  -- `factories.items()`
  abbrev pub items : FactoryData → Result VersionData
  items none = raise attribute_error
  items (some versions) = ok versions

  abbrev pub set_ready : Exec ManagersState (Unit {0})
  set_ready s = (record s { pool_managers_ready = true }, ok tt)

  unfoldable pub create_managers :
      FactoryData → (first_event : Value) → Exec ManagersState (Unit {0})
  unfolding create_version rounds lift ◌>>=◌
  create_managers factories first_event = do
    block ← lift (first_state_block first_event)
    _ ← call_degenbot (lib.fetch_events block)
    versions ← lift (items factories)
    _ ← rounds create_version versions
    set_ready

  -- From the end of the wait for the first event on; without chain data, nothing is done.
  unfoldable pub create_pool_managers :
      Option FactoryData → (first_event : Value) → Exec ManagersState (Unit {0})
  unfolding create_managers pure
  create_pool_managers none first_event = pure tt
  create_pool_managers (some factories) first_event = create_managers factories first_event
