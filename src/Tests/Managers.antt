-- ===== src/Tests/Managers.antt =====
-- The managers of three factories; a manager is the number of the call that made it.
use cream_bots.Prelude.{ℕ, suc, String_discrete, true, false, some, [], ◌∷◌, ◌≡◌, refl, ok}
use cream_bots.Prelude.Int.{pos}
use cream_bots.Prelude.Ends.{Ends}
use cream_bots.Json.{text, number}
use cream_bots.Pools.Managers.{Managers, ManagersState, VersionData, create_pool_managers}
use cream_bots.Pools.Managers.Ready.{IsDone, create_pool_managers-Ends}

abbrev pub lib : Managers
lib = record {
  Store = ℕ;
  Manager = ℕ;
  fetch_events = λ block calls. (suc calls, ok tt);
  v2_manager = λ address calls. (suc calls, ok calls);
  v3_manager = λ address calls. (suc calls, ok calls);
}

abbrev versions : VersionData
versions =
    ("v2", ("uniswap", text "0xa") ∷ ("sushiswap", text "0xb") ∷ [])
    ∷ ("v4", ("uniswap", text "0xd") ∷ [])
    ∷ ("v3", ("uniswap", text "0xc") ∷ [])
    ∷ []

abbrev before : ManagersState lib
before = record { store = 0; pool_managers = []; pool_managers_ready = false }

ready_test : create_pool_managers lib (some (some versions)) (number (pos 8)) before ≡ (
  record {
    store = 4;
    pool_managers = (text "0xa", 1) ∷ (text "0xb", 2) ∷ (text "0xc", 3) ∷ [];
    pool_managers_ready = true;
  },
  ok tt,
)
unfolding create_pool_managers String_discrete
ready_test = refl

create_pool_managers-Ends_example :
    Ends
      (λ _ s'. IsDone lib (some (some versions)) before s')
      (λ s'. s'.pool_managers_ready ≡ before.pool_managers_ready)
      (create_pool_managers lib (some (some versions)) (number (pos 8)) before)
create_pool_managers-Ends_example =
    create_pool_managers-Ends lib (some (some versions)) (number (pos 8)) before
