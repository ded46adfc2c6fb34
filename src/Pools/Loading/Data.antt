-- ===== src/Pools/Loading/Data.antt =====
-- What load_pools reads from the data files.
use cream_bots.Prelude.{String, List, [], ◌∷◌, ◌++◌, ◌≡◌, refl, sym, ◌∙◌, Result, ok, ◌>>=◌, arith}
use cream_bots.Prelude.Dict.{Dict}
use cream_bots.Prelude.Exec.{pure, gets}
use cream_bots.Prelude.Rounds.{rounds}
use cream_bots.Prelude.Ends.{Ends, bind-Ends, lift-Ends, weaken-Ends}
use cream_bots.Json.{Value}
use cream_bots.Degenbot.{Degenbot}
use cream_bots.Builders.LpFetcher.{Lp}
use cream_bots.Blacklist.{Blacklists}
use cream_bots.Pools.{ArbData, Cycles, liquidity_pool_data, arb_paths}
use cream_bots.Pools.Helpers.{PoolLib}
use cream_bots.Pools.Loading.{
  DataDir, LoadState, LoadSetup, factories_of, paths_of, load_file, load_arb_paths, load_data,
}

-- The pools of the files, one file behind the other.
pub contents_of : DataDir → List (String × String) → Result (List Lp)
contents_of data_dir [] = ok []
contents_of data_dir ((name, version) ∷ paths) = do
  content ← data_dir.lp_file name version
  rest ← contents_of data_dir paths
  ok (content ++ rest)

-- The items of the two path files.
abbrev pub path_items : DataDir → Result (Dict String ArbData)
path_items data_dir = do two ← data_dir.arb_paths_2; three ← data_dir.arb_paths_3; ok (two ++ three)

liquidity_pool_data-append :
    (lists : Blacklists) (ps qs : List Lp) (d : Dict String Lp)
    → liquidity_pool_data lists (ps ++ qs) d
      ≡ liquidity_pool_data lists qs (liquidity_pool_data lists ps d)
unfolding liquidity_pool_data
liquidity_pool_data-append lists [] qs d = refl
liquidity_pool_data-append lists (p ∷ ps) qs d = liquidity_pool_data-append lists ps qs _

arb_paths-append :
    (lists : Blacklists) (data_by_pool : Dict String Lp) (xs ys : Dict String ArbData)
    → arb_paths lists data_by_pool (xs ++ ys)
      ≡ arb_paths lists data_by_pool xs ++ arb_paths lists data_by_pool ys
unfolding arb_paths
arb_paths-append lists data_by_pool [] ys = refl
arb_paths-append lists data_by_pool ((arb_id, arb) ∷ xs) ys =
    ground (arith, arb_paths-append lists data_by_pool xs ys)

module _ (lib : Degenbot) (pools : PoolLib) (cycles_of : PoolLib.Store pools → Cycles lib)
    (wrapped_token : Result (Unit {0})) (data_dir : DataDir)
    (setup : LoadSetup lib pools cycles_of wrapped_token) where
  abbrev State : Type 0
  State = LoadState lib pools cycles_of wrapped_token

  module _ (start : State) where
    -- The flags and the table are what they were.
    pub record IsBefore (s : State) : Type 0 where
      pub same_live : s.live ≡ start.live
      pub same_loaded : s.pools_loaded ≡ start.pools_loaded
      pub same_arbs : s.all_arbs ≡ start.all_arbs

    record IsRead (before : Dict String Lp) (paths : List (String × String)) (s : State)
        : Type 0 where
      files : List Lp
      contents : contents_of data_dir paths ≡ ok files
      pool_data : s.liquidity_pool_data ≡ liquidity_pool_data setup.blacklists files before
      unchanged : IsBefore s

    abbrev loaded : List Lp → State → State
    loaded content s = record s {
      liquidity_pool_data = liquidity_pool_data setup.blacklists content s.liquidity_pool_data;
    }

    abbrev IsLoaded : String × String → State → State → Type 0
    IsLoaded (name, version) s s' =
        (content : List Lp) × (data_dir.lp_file name version ≡ ok content) × (s' ≡ loaded content s)

    load_file-Ends :
        (path : String × String) (s : State)
        → IsBefore s
        → Ends
            (λ _ s'. IsLoaded path s s')
            IsBefore
            (load_file lib pools cycles_of wrapped_token data_dir setup path s)
    unfolding load_file
    load_file-Ends (name, version) s b =
        lift-Ends (λ _ s'. IsLoaded (name, version) s s') IsBefore (data_dir.lp_file name version) _
          s b (λ content e. (content, e, refl))

    load_files-Ends :
        (paths : List (String × String)) (s : State)
        → IsBefore s
        → Ends
            (λ _ s'. IsRead s.liquidity_pool_data paths s')
            IsBefore
            (rounds (load_file lib pools cycles_of wrapped_token data_dir setup) paths s)
    unfolding rounds pure contents_of liquidity_pool_data
    load_files-Ends [] s b = record { files = []; contents = refl; pool_data = refl; unchanged = b }
    load_files-Ends (path ∷ paths) s b =
        bind-Ends (λ _ s'. IsLoaded path s s')
          (λ _ s'. IsRead s.liquidity_pool_data (path ∷ paths) s') IsBefore
          (load_file lib pools cycles_of wrapped_token data_dir setup path)
          (λ _. rounds (load_file lib pools cycles_of wrapped_token data_dir setup) paths) s
          (load_file-Ends path s b)
          (λ _ s' (content, r, is). rw is (
            weaken-Ends (λ _ t. IsRead (loaded content s).liquidity_pool_data paths t)
              (λ _ t. IsRead s.liquidity_pool_data (path ∷ paths) t) IsBefore IsBefore
              (rounds (load_file lib pools cycles_of wrapped_token data_dir setup) paths
                (loaded content s))
              (load_files-Ends paths (loaded content s) (record {
                same_live = b.same_live;
                same_loaded = b.same_loaded;
                same_arbs = b.same_arbs;
              }))
              (λ _ t x. record {
                files = content ++ x.files;
                contents = rw (r, x.contents) refl;
                pool_data =
                    x.pool_data
                    ∙ sym (
                        liquidity_pool_data-append setup.blacklists content x.files
                          s.liquidity_pool_data);
                unchanged = x.unchanged;
              })
              (λ _ e. e)))

    -- What the first half reads.
    pub record HasData (arbs : List ArbData) (s : State) : Type 0 where
      pub v2_factories : Dict String Value
      pub v3_factories : Dict String Value
      pub has_v2 : factories_of setup.v2_factories ≡ ok v2_factories
      pub has_v3 : factories_of setup.v3_factories ≡ ok v3_factories
      pub files : List Lp
      pub contents : contents_of data_dir (paths_of v2_factories v3_factories) ≡ ok files
      pub items : Dict String ArbData
      pub has_items : path_items data_dir ≡ ok items
      pub is_selected :
          arbs ≡ arb_paths setup.blacklists (liquidity_pool_data setup.blacklists files []) items
      pub unchanged : IsBefore s

    load_arb_paths-Ends :
        (v2 v3 : Dict String Value) (s : State)
        → factories_of setup.v2_factories ≡ ok v2
        → factories_of setup.v3_factories ≡ ok v3
        → IsRead [] (paths_of v2 v3) s
        → Ends HasData IsBefore (load_arb_paths lib pools cycles_of wrapped_token data_dir setup s)
    unfolding load_arb_paths gets pure
    load_arb_paths-Ends v2 v3 s e2 e3 x =
        lift-Ends HasData IsBefore data_dir.arb_paths_2 _ s x.unchanged (λ two r2.
          lift-Ends HasData IsBefore data_dir.arb_paths_3 _ s x.unchanged (λ three r3. record {
            v2_factories = v2;
            v3_factories = v3;
            has_v2 = e2;
            has_v3 = e3;
            files = x.files;
            contents = x.contents;
            items = two ++ three;
            has_items = rw (r2, r3) refl;
            is_selected =
                rw (sym x.pool_data)
                  (sym (arb_paths-append setup.blacklists s.liquidity_pool_data two three));
            unchanged = x.unchanged;
          }))

    pub load_data-Ends :
        (v2 v3 : Dict String Value) (s : State)
        → factories_of setup.v2_factories ≡ ok v2
        → factories_of setup.v3_factories ≡ ok v3
        → IsBefore s
        → Ends HasData IsBefore (load_data lib pools cycles_of wrapped_token data_dir setup v2 v3 s)
    unfolding load_data
    load_data-Ends v2 v3 s e2 e3 b =
        let empty : State = record s { liquidity_pool_data = [] } in
        bind-Ends (λ _ s'. IsRead [] (paths_of v2 v3) s') HasData IsBefore
          (rounds (load_file lib pools cycles_of wrapped_token data_dir setup) (paths_of v2 v3))
          (λ _. load_arb_paths lib pools cycles_of wrapped_token data_dir setup) empty
          (load_files-Ends (paths_of v2 v3) empty (record {
            same_live = b.same_live;
            same_loaded = b.same_loaded;
            same_arbs = b.same_arbs;
          }))
          (λ _ s' x. load_arb_paths-Ends v2 v3 s' e2 e3 x)
