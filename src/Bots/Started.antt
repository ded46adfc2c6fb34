-- ===== src/Bots/Started.antt =====
-- What holds of the bot when initialize has returned.
use cream_bots.Prelude.{String, true, List, ◌≡◌, sym, ap, ◌∙◌, subst, Result, ok}
use cream_bots.Prelude.Dict.{Dict}
use cream_bots.Prelude.Exec.{◌>>=◌}
use cream_bots.Prelude.Ends.{Ends, bind-Ends, weaken-Ends}
use cream_bots.Json.{Value}
use cream_bots.Degenbot.{Degenbot}
use cream_bots.Blacklist.{Service, load_blacklists}
use cream_bots.Exchange.{ChainData, add_deployments}
use cream_bots.Exchange as Exchange
use cream_bots.Builders.LpFetcher.{Lp}
use cream_bots.Pools.{ArbData, Cycles, load_pools}
use cream_bots.Pools.Managers.{Managers}
use cream_bots.Pools.Managers.Ready.{IsReady}
use cream_bots.Pools.Loading.{DataDir, factories_of, paths_of, load_pools_method}
use cream_bots.Pools.Loading.Data.{contents_of, path_items}
use cream_bots.Pools.Loading.Live.{IsLive, load_pools_method-Ends}
use cream_bots.Pools.Loading.Table.{IsDown}
use cream_bots.Bots.Initialize.{
  Kit, pools_of, factory_data_of, version_factories, BotState, setup_of, load_of, with_load,
  load_step, deployments_step, managers_step, blacklists_step, initialize,
}
use cream_bots.Bots.Prepared.{
  zoom-Ends, IsAsleep, IsPrepared, IsListed, Same, Load, deployments_step-Ends, managers_step-Ends,
  blacklists_step-Ends,
}

module _ (exchange : Exchange.Degenbot) (kit : Kit) (lib : Degenbot)
    (cycles_of : Managers.Store kit.managers → Cycles lib) (wrapped_token : Result (Unit {0}))
    (data_dir : DataDir) (chain : ChainData) (first_event : Value)
    (start : BotState exchange kit lib cycles_of wrapped_token) where
  abbrev State : Type 0
  State = BotState exchange kit lib cycles_of wrapped_token

  -- The bot is live: every configured factory of version 2 or 3 has its manager, and the table of
  -- the cycles is the selection from the data files by the blacklists of the files.
  pub record IsStarted (s : State) : Type 0 where
    pub is_live : (s.load).live ≡ true
    pub ready : IsReady kit.managers (factory_data_of chain.factories) s.managers
    pub blacklist : s.blacklist ≡ load_blacklists start.blacklist
    pub v2_factories : Dict String Value
    pub v3_factories : Dict String Value
    pub has_v2 :
        factories_of (version_factories "v2" (factory_data_of chain.factories)) ≡ ok v2_factories
    pub has_v3 :
        factories_of (version_factories "v3" (factory_data_of chain.factories)) ≡ ok v3_factories
    pub files : List Lp
    pub contents : contents_of data_dir (paths_of v2_factories v3_factories) ≡ ok files
    pub items : Dict String ArbData
    pub has_items : path_items data_dir ≡ ok items
    pub table :
        load_pools lib
          (cycles_of ((s.load).helpers).store)
          (load_blacklists start.blacklist).blacklists
          files
          items
          (start.load).all_arbs
        ≡ ok (s.load).all_arbs

  table_of :
      (s : State)
      → (IsListed exchange kit lib cycles_of wrapped_token data_dir chain first_event start) s
      → (l : (Load exchange kit lib cycles_of wrapped_token data_dir chain first_event start))
        (files : List Lp) (items : Dict String ArbData)
      → load_pools lib
          (cycles_of (l.helpers).store)
          (s.blacklist).blacklists
          files
          items
          (s.load).all_arbs
        ≡ ok l.all_arbs
      → load_pools lib
          (cycles_of (l.helpers).store)
          (load_blacklists start.blacklist).blacklists
          files
          items
          (start.load).all_arbs
        ≡ ok l.all_arbs
  table_of s p l files items e =
      ap
        (λ (b : Service).
          load_pools lib (cycles_of (l.helpers).store) b.blacklists files items
            (start.load).all_arbs)
        (sym p.blacklist)
      ∙ ap
          (λ (x : (Load exchange kit lib cycles_of wrapped_token data_dir chain first_event start)).
            load_pools lib (cycles_of (l.helpers).store) (s.blacklist).blacklists files items
              x.all_arbs)
          (sym p.load)
      ∙ e

  started :
      (s : State)
      → (IsListed exchange kit lib cycles_of wrapped_token data_dir chain first_event start) s
      → (l : (Load exchange kit lib cycles_of wrapped_token data_dir chain first_event start))
      → IsLive lib
          (pools_of kit)
          cycles_of
          wrapped_token
          data_dir
          (setup_of exchange kit lib cycles_of wrapped_token data_dir chain first_event s)
          (load_of exchange kit lib cycles_of wrapped_token data_dir chain first_event s)
          l
      → IsStarted
          (with_load exchange kit lib cycles_of wrapped_token data_dir chain first_event l s)
  unfolding version_factories
  started s p l q = record {
    is_live = q.is_live;
    ready = record { flag = (p.ready).flag; managers = (p.ready).managers };
    blacklist = p.blacklist;
    v2_factories = q.v2_factories;
    v3_factories = q.v3_factories;
    has_v2 = q.has_v2;
    has_v3 = q.has_v3;
    files = q.files;
    contents = q.contents;
    items = q.items;
    has_items = q.has_items;
    table = table_of s p l q.files q.items q.table;
  }

  load_step-Ends :
      (s : State)
      → (IsListed exchange kit lib cycles_of wrapped_token data_dir chain first_event start) s
      → Ends
          (λ _ s'. IsStarted s')
          (IsAsleep exchange kit lib cycles_of wrapped_token data_dir chain first_event start)
          (load_step exchange kit lib cycles_of wrapped_token data_dir chain first_event s)
  unfolding load_step
  load_step-Ends s p =
      let part = load_of exchange kit lib cycles_of wrapped_token data_dir chain first_event in
      let with_part =
        with_load exchange kit lib cycles_of wrapped_token data_dir chain first_event in
      let setup = setup_of exchange kit lib cycles_of wrapped_token data_dir chain first_event s in
      let Done : Unit {0}
          → (Load exchange kit lib cycles_of wrapped_token data_dir chain first_event start)
          → Type 0 =
        λ _ l. IsLive lib (pools_of kit) cycles_of wrapped_token data_dir setup (part s) l in
      let Failed : (Load exchange kit lib cycles_of wrapped_token data_dir chain first_event start)
          → Type 0 =
        λ l. IsDown lib (pools_of kit) cycles_of wrapped_token data_dir setup (part s) l in
      weaken-Ends
        (λ a t.
          (l : (Load exchange kit lib cycles_of wrapped_token data_dir chain first_event start))
          × (t ≡ with_part l s)
          × Done a l)
        (λ _ s'. IsStarted s')
        (λ t.
          (l : (Load exchange kit lib cycles_of wrapped_token data_dir chain first_event start))
          × (t ≡ with_part l s)
          × Failed l)
        (IsAsleep exchange kit lib cycles_of wrapped_token data_dir chain first_event start) _
        (zoom-Ends part with_part Done Failed
          (load_pools_method lib (pools_of kit) cycles_of wrapped_token data_dir setup) s
          (load_pools_method-Ends lib (pools_of kit) cycles_of wrapped_token data_dir setup
            (part s)))
        (λ _ t (l, e, q). subst IsStarted (sym e) (started s p l q))
        (λ t (l, e, q).
          ap (λ (u : State). (u.load).live) e
          ∙ q.same_live
          ∙ ap
              (λ (x : (Load exchange kit lib cycles_of wrapped_token data_dir chain first_event
                  start)).
                x.live)
              p.load)

  -- However initialize ends: if it returns, the bot is live; then every configured factory of
  -- version 2 or 3 has its manager, the blacklists are those of their files, and the table of the
  -- cycles is what load_pools selects by them from the data files. If it raises, the flag live is
  -- what it was.
  pub initialize-Ends :
      Ends
        (λ _ s. IsStarted s)
        (IsAsleep exchange kit lib cycles_of wrapped_token data_dir chain first_event start)
        (initialize exchange kit lib cycles_of wrapped_token data_dir chain first_event start)
  unfolding initialize
  initialize-Ends =
      let managers =
        managers_step exchange kit lib cycles_of wrapped_token data_dir chain first_event in
      let blacklists =
        blacklists_step exchange kit lib cycles_of wrapped_token data_dir chain first_event in
      let load = load_step exchange kit lib cycles_of wrapped_token data_dir chain first_event in
      bind-Ends
        (λ _ s. (Same exchange kit lib cycles_of wrapped_token data_dir chain first_event start) s)
        (λ _ s. IsStarted s)
        (IsAsleep exchange kit lib cycles_of wrapped_token data_dir chain first_event start)
        (deployments_step exchange kit lib cycles_of wrapped_token data_dir chain first_event)
        (λ _. managers >>= λ _. blacklists >>= λ _. load) start
        (deployments_step-Ends exchange kit lib cycles_of wrapped_token data_dir chain first_event
          start)
        (λ _ s₁ same.
          bind-Ends
            (λ _ s.
              (IsPrepared exchange kit lib cycles_of wrapped_token data_dir chain first_event start)
                s)
            (λ _ s. IsStarted s)
            (IsAsleep exchange kit lib cycles_of wrapped_token data_dir chain first_event start)
            managers (λ _. blacklists >>= λ _. load) s₁
            ((managers_step-Ends exchange kit lib cycles_of wrapped_token data_dir chain first_event
                start)
              s₁ same)
            (λ _ s₂ prepared.
              bind-Ends
                (λ _ s.
                  (IsListed exchange kit lib cycles_of wrapped_token data_dir chain first_event
                      start)
                    s)
                (λ _ s. IsStarted s)
                (IsAsleep exchange kit lib cycles_of wrapped_token data_dir chain first_event start)
                blacklists (λ _. load) s₂
                ((blacklists_step-Ends exchange kit lib cycles_of wrapped_token data_dir chain
                    first_event start)
                  s₂ prepared)
                (λ _ s₃ listed. load_step-Ends s₃ listed)))
