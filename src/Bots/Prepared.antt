-- ===== src/Bots/Prepared.antt =====
-- The steps of initialize in front of load_pools.
use cream_bots.Prelude.{some, ◌≡◌, refl, sym, ap, ◌∙◌, subst, Result, ok, raise}
use cream_bots.Prelude.Exec.{Exec}
use cream_bots.Prelude.Ends.{Ends, weaken-Ends}
use cream_bots.Json.{Value}
use cream_bots.Degenbot.{Degenbot}
use cream_bots.Blacklist.{load_blacklists}
use cream_bots.Exchange.{ChainData, add_deployments}
use cream_bots.Exchange as Exchange
use cream_bots.Pools.{Cycles}
use cream_bots.Pools.Managers.{Managers, ManagersState, create_pool_managers}
use cream_bots.Pools.Managers.Ready.{IsReady, create_pool_managers-Ends}
use cream_bots.Pools.Loading.{DataDir, LoadState}
use cream_bots.Bots.Initialize.{
  zoom, Kit, pools_of, factory_data_of, BotState, deployments_step, managers_step, blacklists_step,
}

module _ {S T A : Type 0} (part : T → S) (with_part : S → T → T) (Q : A → S → Type 0)
    (E : S → Type 0) (m : Exec S A) (t : T) where
  -- What code establishes of its part of the state.
  pub zoom-Ends :
      Ends Q E (m (part t))
      → Ends
          (λ a t'. (s : S) × (t' ≡ with_part s t) × Q a s)
          (λ t'. (s : S) × (t' ≡ with_part s t) × E s)
          (zoom part with_part m t)
  unfolding zoom
  zoom-Ends h = go (m (part t)) h
    where
      go :
          (out : S × Result A)
          → Ends Q E out
          → Ends
              (λ a t'. (s : S) × (t' ≡ with_part s t) × Q a s)
              (λ t'. (s : S) × (t' ≡ with_part s t) × E s)
              (with_part out.0 t, out.1)
      go (s, ok a) q = (s, refl, q)
      go (s, raise x) e = (s, refl, e)

-- However code ends.
Ends-any : {S A : Type 0} (out : S × Result A) → Ends (λ _ _. Unit {0}) (λ _. Unit {0}) out
Ends-any (s, ok a) = tt
Ends-any (s, raise e) = tt

module _ (exchange : Exchange.Degenbot) (kit : Kit) (lib : Degenbot)
    (cycles_of : Managers.Store kit.managers → Cycles lib) (wrapped_token : Result (Unit {0}))
    (data_dir : DataDir) (chain : ChainData) (first_event : Value)
    (start : BotState exchange kit lib cycles_of wrapped_token) where
  abbrev State : Type 0
  State = BotState exchange kit lib cycles_of wrapped_token

  -- The flag `live` is what it was.
  abbrev pub IsAsleep : State → Type 0
  IsAsleep s = (s.load).live ≡ (start.load).live

  -- After the deployments and the managers.
  pub record IsPrepared (s : State) : Type 0 where
    pub ready : IsReady kit.managers (factory_data_of chain.factories) s.managers
    pub blacklist : s.blacklist ≡ start.blacklist
    pub load : s.load ≡ start.load

  -- And the blacklists.
  pub record IsListed (s : State) : Type 0 where
    pub ready : IsReady kit.managers (factory_data_of chain.factories) s.managers
    pub blacklist : s.blacklist ≡ load_blacklists start.blacklist
    pub load : s.load ≡ start.load

  abbrev pub Load : Type 0
  Load = LoadState lib (pools_of kit) cycles_of wrapped_token

  abbrev pub Same : State → Type 0
  Same s = (s.blacklist ≡ start.blacklist) × (s.load ≡ start.load)

  asleep : (s : State) → Same s → IsAsleep s
  asleep s same = ap (λ (l : LoadState lib (pools_of kit) cycles_of wrapped_token). l.live) same.1

  pub deployments_step-Ends :
      Ends
        (λ _ s. Same s)
        IsAsleep
        (deployments_step exchange kit lib cycles_of wrapped_token data_dir chain first_event start)
  unfolding deployments_step
  deployments_step-Ends =
      weaken-Ends
        (λ _ s. (d : Exchange.State exchange) × (s ≡ record start { deployments = d }) × Unit {0})
        (λ _ s. Same s)
        (λ s. (d : Exchange.State exchange) × (s ≡ record start { deployments = d }) × Unit {0})
        IsAsleep _
        (zoom-Ends (λ (s : State). s.deployments) (λ d s. record s { deployments = d })
          (λ _ _. Unit {0}) (λ _. Unit {0}) (add_deployments exchange chain) start
          (Ends-any (add_deployments exchange chain start.deployments)))
        (λ _ s (d, e, _). (ap (λ (t : State). t.blacklist) e, ap (λ (t : State). t.load) e))
        (λ s (d, e, _). ap (λ (t : State). (t.load).live) e)

  pub managers_step-Ends :
      (s : State)
      → Same s
      → Ends
          (λ _ s'. IsPrepared s')
          IsAsleep
          (managers_step exchange kit lib cycles_of wrapped_token data_dir chain first_event s)
  unfolding managers_step
  managers_step-Ends s same =
      let fd = factory_data_of chain.factories in
      let Done : Unit {0} → ManagersState kit.managers → Type 0 =
        λ _ m. IsReady kit.managers fd m in
      let Failed : ManagersState kit.managers → Type 0 =
        λ m. m.pool_managers_ready ≡ (s.managers).pool_managers_ready in
      weaken-Ends
        (λ a t. (m : ManagersState kit.managers) × (t ≡ record s { managers = m }) × Done a m)
        (λ _ s'. IsPrepared s')
        (λ t. (m : ManagersState kit.managers) × (t ≡ record s { managers = m }) × Failed m)
        IsAsleep _
        (zoom-Ends (λ (t : State). t.managers) (λ m t. record t { managers = m }) Done Failed
          (create_pool_managers kit.managers (some fd) first_event) s
          (create_pool_managers-Ends kit.managers (some fd) first_event s.managers))
        (λ _ t (m, e, r). record {
          ready = subst (λ x. IsReady kit.managers fd x) (sym (ap (λ (u : State). u.managers) e)) r;
          blacklist = ap (λ (u : State). u.blacklist) e ∙ same.0;
          load = ap (λ (u : State). u.load) e ∙ same.1;
        })
        (λ t (m, e, _). ap (λ (u : State). (u.load).live) e ∙ asleep s same)

  pub blacklists_step-Ends :
      (s : State)
      → IsPrepared s
      → Ends
          (λ _ s'. IsListed s')
          IsAsleep
          (blacklists_step exchange kit lib cycles_of wrapped_token data_dir chain first_event s)
  unfolding blacklists_step
  blacklists_step-Ends s p = record {
    ready = p.ready;
    blacklist = ap load_blacklists p.blacklist;
    load = p.load;
  }
