-- ===== src/Pools/Loading/Live.antt =====
-- What the flags at the end of load_pools promise.
use cream_bots.Prelude.{String, true, List, ◌≡◌, refl, sym, Result, ok, raise}
use cream_bots.Prelude.Dict.{Dict}
use cream_bots.Prelude.Exec.{lift, ◌>>=◌}
use cream_bots.Prelude.Rounds.{rounds}
use cream_bots.Prelude.Ends.{Ends, bind-Ends, lift-Ends, weaken-Ends}
use cream_bots.Json.{Value}
use cream_bots.Degenbot.{Degenbot}
use cream_bots.Builders.LpFetcher.{Lp}
use cream_bots.Pools.{ArbData, Cycles, load_pools}
use cream_bots.Pools.Helpers.{PoolLib, HelpersState, create_pool_helpers}
use cream_bots.Pools.Loading.{
  DataDir, LoadState, LoadSetup, factories_of, paths_of, wait_for_event, set_unique, helper_setup,
  make_helpers, load_arb, set_live, load_data, build_table, build_cycles, load_cycles,
  load_pools_method,
}
use cream_bots.Pools.Loading.Data.{contents_of, path_items, IsBefore, HasData, load_data-Ends}
use cream_bots.Pools.Loading.Table.{IsDown, IsTabled, load_arbs-Ends}

module _ (lib : Degenbot) (pools : PoolLib) (cycles_of : PoolLib.Store pools → Cycles lib)
    (wrapped_token : Result (Unit {0})) (data_dir : DataDir)
    (setup : LoadSetup lib pools cycles_of wrapped_token)
    (start : LoadState lib pools cycles_of wrapped_token) where
  abbrev State : Type 0
  State = LoadState lib pools cycles_of wrapped_token

  abbrev Down : State → Type 0
  Down = IsDown lib pools cycles_of wrapped_token data_dir setup start

  abbrev Before : State → Type 0
  Before = IsBefore lib pools cycles_of wrapped_token data_dir setup start

  -- The flags are set, the table is what the selection makes of the files, and the pools of its
  -- cycles are in degenbot's table.
  pub record IsLive (s : State) : Type 0 where
    pub is_live : s.live ≡ true
    pub is_loaded : s.pools_loaded ≡ true
    pub v2_factories : Dict String Value
    pub v3_factories : Dict String Value
    pub has_v2 : factories_of setup.v2_factories ≡ ok v2_factories
    pub has_v3 : factories_of setup.v3_factories ≡ ok v3_factories
    pub files : List Lp
    pub contents : contents_of data_dir (paths_of v2_factories v3_factories) ≡ ok files
    pub items : Dict String ArbData
    pub has_items : path_items data_dir ≡ ok items
    pub table :
        load_pools lib (cycles_of s.helpers.store) setup.blacklists files items start.all_arbs
        ≡ ok s.all_arbs

  make_helpers-Ends :
      (v2 v3 : Dict String Value) (s : State)
      → Before s
      → Ends
          (λ _ s'. Before s')
          Before
          (make_helpers lib pools cycles_of wrapped_token data_dir setup v2 v3 s)
  unfolding make_helpers
  make_helpers-Ends v2 v3 s b = go (
      create_pool_helpers pools
        (helper_setup lib pools cycles_of wrapped_token data_dir setup v2 v3 s)
        s.unique_pool_addresses s.helpers)
    where
      go :
          (out : HelpersState pools × Result (Unit {0}))
          → Ends (λ _ s'. Before s') Before (record s { helpers = out.0 }, out.1)
      go (helpers, ok _) = record {
        same_live = b.same_live;
        same_loaded = b.same_loaded;
        same_arbs = b.same_arbs;
      }
      go (helpers, raise e) = record {
        same_live = b.same_live;
        same_loaded = b.same_loaded;
        same_arbs = b.same_arbs;
      }

  down : (s : State) → Before s → Down s
  down s b = record { same_live = b.same_live; same_loaded = b.same_loaded }

  -- The table is the one of load_pools.
  IsTabled-table :
      (arbs : List ArbData) (s₀ s s' : State)
      → (d : HasData lib pools cycles_of wrapped_token data_dir setup start arbs s₀)
      → s.all_arbs ≡ start.all_arbs
      → IsTabled lib pools cycles_of wrapped_token data_dir setup start arbs s s'
      → load_pools lib (cycles_of s'.helpers.store) setup.blacklists d.files d.items start.all_arbs
        ≡ ok s'.all_arbs
  unfolding load_pools
  IsTabled-table arbs s₀ s s' d same x = rw (x.store, sym d.is_selected, sym same) x.table

  set_unique-Ends :
      (arbs : List ArbData) (s : State)
      → Before s
      → Ends
          (λ _ s'. Before s')
          Down
          (set_unique lib pools cycles_of wrapped_token data_dir setup arbs s)
  unfolding set_unique
  set_unique-Ends arbs s b = record {
    same_live = b.same_live;
    same_loaded = b.same_loaded;
    same_arbs = b.same_arbs;
  }

  build_table-Ends :
      (arbs : List ArbData) (s₀ s : State)
      → HasData lib pools cycles_of wrapped_token data_dir setup start arbs s₀
      → Before s
      → Ends
          (λ _ s'. IsLive s')
          Down
          (build_table lib pools cycles_of wrapped_token data_dir setup arbs s)
  unfolding build_table
  build_table-Ends arbs s₀ s d b =
      bind-Ends (λ _ s'. IsTabled lib pools cycles_of wrapped_token data_dir setup start arbs s s')
        (λ _ s'. IsLive s') Down
        (rounds (load_arb lib pools cycles_of wrapped_token data_dir setup) arbs)
        (λ _. set_live lib pools cycles_of wrapped_token data_dir setup) s
        (load_arbs-Ends lib pools cycles_of wrapped_token data_dir setup start arbs s (down s b))
        (λ _ s₂ x. record {
          is_live = refl;
          is_loaded = refl;
          v2_factories = d.v2_factories;
          v3_factories = d.v3_factories;
          has_v2 = d.has_v2;
          has_v3 = d.has_v3;
          files = d.files;
          contents = d.contents;
          items = d.items;
          has_items = d.has_items;
          table = IsTabled-table arbs s₀ s s₂ d b.same_arbs x;
        })

  build_cycles-Ends :
      (v2 v3 : Dict String Value) (arbs : List ArbData) (s₀ s : State)
      → HasData lib pools cycles_of wrapped_token data_dir setup start arbs s₀
      → Before s
      → Ends
          (λ _ s'. IsLive s')
          Down
          (build_cycles lib pools cycles_of wrapped_token data_dir setup v2 v3 arbs s)
  unfolding build_cycles
  build_cycles-Ends v2 v3 arbs s₀ s d b =
      bind-Ends (λ _ s'. Before s') (λ _ s'. IsLive s') Down
        (make_helpers lib pools cycles_of wrapped_token data_dir setup v2 v3)
        (λ _. lift wrapped_token >>= λ _.
          build_table lib pools cycles_of wrapped_token data_dir setup arbs)
        s
        (weaken-Ends (λ _ s'. Before s') (λ _ s'. Before s') Before Down
          (make_helpers lib pools cycles_of wrapped_token data_dir setup v2 v3 s)
          (make_helpers-Ends v2 v3 s b) (λ _ _ q. q) down)
        (λ _ s₁ b₁.
          lift-Ends (λ _ s'. IsLive s') Down wrapped_token
            (λ _. build_table lib pools cycles_of wrapped_token data_dir setup arbs) s₁ (down s₁ b₁)
            (λ _ _. build_table-Ends arbs s₀ s₁ d b₁))

  load_cycles-Ends :
      (v2 v3 : Dict String Value) (arbs : List ArbData) (s : State)
      → HasData lib pools cycles_of wrapped_token data_dir setup start arbs s
      → Ends
          (λ _ s'. IsLive s')
          Down
          (load_cycles lib pools cycles_of wrapped_token data_dir setup v2 v3 arbs s)
  unfolding load_cycles
  load_cycles-Ends v2 v3 arbs s d =
      bind-Ends (λ _ s'. Before s') (λ _ s'. IsLive s') Down
        (set_unique lib pools cycles_of wrapped_token data_dir setup arbs)
        (λ _. lift (wait_for_event setup.first_event) >>= λ _.
          build_cycles lib pools cycles_of wrapped_token data_dir setup v2 v3 arbs)
        s (set_unique-Ends arbs s d.unchanged)
        (λ _ s₀ b₀.
          lift-Ends (λ _ s'. IsLive s') Down (wait_for_event setup.first_event)
            (λ _. build_cycles lib pools cycles_of wrapped_token data_dir setup v2 v3 arbs) s₀
            (down s₀ b₀) (λ _ _. build_cycles-Ends v2 v3 arbs s s₀ d b₀))

  -- However load_pools ends: if it returns, the flags pools_loaded and live are set, and the table
  -- of the cycles is what the selection makes of the contents of the data files, with the pools
  -- that degenbot has at the end. If it raises, both flags are what they were.
  pub load_pools_method-Ends :
      Ends
        (λ _ s'. IsLive s')
        Down
        (load_pools_method lib pools cycles_of wrapped_token data_dir setup start)
  unfolding load_pools_method
  load_pools_method-Ends =
      let Live : Unit {0} → State → Type 0 = λ _ s'. IsLive s' in
      let Data = HasData lib pools cycles_of wrapped_token data_dir setup start in
      let here : Down start = record { same_live = refl; same_loaded = refl } in
      lift-Ends Live Down (factories_of setup.v2_factories) _ start here (λ v2 e2.
        lift-Ends Live Down (factories_of setup.v3_factories) _ start here (λ v3 e3.
          bind-Ends Data Live Down
            (load_data lib pools cycles_of wrapped_token data_dir setup v2 v3) _ start
            (weaken-Ends Data Data Before Down
              (load_data lib pools cycles_of wrapped_token data_dir setup v2 v3 start)
              (load_data-Ends lib pools cycles_of wrapped_token data_dir setup start v2 v3 start e2
                e3 (record { same_live = refl; same_loaded = refl; same_arbs = refl }))
              (λ _ _ q. q) down)
            (λ arbs s d. load_cycles-Ends v2 v3 arbs s d)))
