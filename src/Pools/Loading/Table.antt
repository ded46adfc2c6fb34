-- ===== src/Pools/Loading/Table.antt =====
-- The loop of load_pools over the arbitrages.
use cream_bots.Prelude.{List, [], ◌∷◌, ◌≡◌, refl, Result, ok, raise}
use cream_bots.Prelude.Exec.{pure}
use cream_bots.Prelude.Rounds.{rounds}
use cream_bots.Prelude.Ends.{Ends, bind-Ends, weaken-Ends}
use cream_bots.Degenbot.{Degenbot}
use cream_bots.Arbitrage.Types.{AllArbs}
use cream_bots.Pools.{ArbData, Cycles, add_arb, add_arbs}
use cream_bots.Pools.Helpers.{PoolLib}
use cream_bots.Pools.Loading.{DataDir, LoadState, LoadSetup, keep_arbs, load_arb}

module _ (lib : Degenbot) (pools : PoolLib) (cycles_of : PoolLib.Store pools → Cycles lib)
    (wrapped_token : Result (Unit {0})) (data_dir : DataDir)
    (setup : LoadSetup lib pools cycles_of wrapped_token)
    (start : LoadState lib pools cycles_of wrapped_token) where
  abbrev State : Type 0
  State = LoadState lib pools cycles_of wrapped_token

  -- The flags are what they were.
  pub record IsDown (s : State) : Type 0 where
    pub same_live : s.live ≡ start.live
    pub same_loaded : s.pools_loaded ≡ start.pools_loaded

  -- What the loop over the arbitrages has made of the table.
  pub record IsTabled (arbs : List ArbData) (s s' : State) : Type 0 where
    pub table :
        add_arbs lib (cycles_of s.helpers.store) setup.blacklists arbs s.all_arbs ≡ ok s'.all_arbs
    pub store : s'.helpers.store ≡ s.helpers.store
    pub down : IsDown s'

  abbrev IsAdded : ArbData → State → State → Type 0
  IsAdded arb s s' =
      (after : AllArbs (Degenbot.Cycle lib)) × (add_arb lib (cycles_of s.helpers.store)
          setup.blacklists arb s.all_arbs
        ≡ ok after)
      × (s' ≡ record s { all_arbs = after })

  load_arb-Ends :
      (arb : ArbData) (s : State)
      → IsDown s
      → Ends
          (λ _ s'. IsAdded arb s s')
          IsDown
          (load_arb lib pools cycles_of wrapped_token data_dir setup arb s)
  unfolding load_arb
  load_arb-Ends arb s d =
      go (add_arb lib (cycles_of s.helpers.store) setup.blacklists arb s.all_arbs) refl
    where
      go :
          (r : Result (AllArbs (Degenbot.Cycle lib)))
          → add_arb lib (cycles_of s.helpers.store) setup.blacklists arb s.all_arbs ≡ r
          → Ends
              (λ _ s'. IsAdded arb s s')
              IsDown
              (keep_arbs lib pools cycles_of wrapped_token data_dir setup s r)
      go (ok after) e = (after, e, refl)
      go (raise x) e = d

  pub load_arbs-Ends :
      (arbs : List ArbData) (s : State)
      → IsDown s
      → Ends
          (λ _ s'. IsTabled arbs s s')
          IsDown
          (rounds (load_arb lib pools cycles_of wrapped_token data_dir setup) arbs s)
  unfolding rounds pure add_arbs
  load_arbs-Ends [] s d = record { table = refl; store = refl; down = d }
  load_arbs-Ends (arb ∷ arbs) s d =
      bind-Ends (λ _ s'. IsAdded arb s s') (λ _ s'. IsTabled (arb ∷ arbs) s s') IsDown
        (load_arb lib pools cycles_of wrapped_token data_dir setup arb)
        (λ _. rounds (load_arb lib pools cycles_of wrapped_token data_dir setup) arbs) s
        (load_arb-Ends arb s d)
        (λ _ s' (after, r, is). rw is (
          weaken-Ends (λ _ t. IsTabled arbs (record s { all_arbs = after }) t)
            (λ _ t. IsTabled (arb ∷ arbs) s t) IsDown IsDown
            (rounds (load_arb lib pools cycles_of wrapped_token data_dir setup) arbs
              (record s { all_arbs = after }))
            (load_arbs-Ends arbs (record s { all_arbs = after })
              (record { same_live = d.same_live; same_loaded = d.same_loaded }))
            (λ _ t x. record { table = rw r x.table; store = x.store; down = x.down }) (λ _ e. e)))
