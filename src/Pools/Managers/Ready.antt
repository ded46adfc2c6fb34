-- ===== src/Pools/Managers/Ready.antt =====
-- The flag pool_managers_ready keeps its promise.
use cream_bots.Prelude.{
  String, String_discrete, Bool, Bool-cases, true, none, some, ◌≡◌, ◌⊎◌, inl, inr, refl, sym, ◌∙◌,
  ap, subst, Memᴰ, Option, of_holds, Result, ok, raise, holds, holds_of, ok-injective, false,
}
use mathlib.Core.Option.{some-injective}
use cream_bots.Prelude.Dict.{Dict, get, put, get-put_ne, get-put_self}
use cream_bots.Prelude.Exec.{pure, ◌>>=◌}
use cream_bots.Prelude.Rounds.{rounds}
use cream_bots.Prelude.Ends.{Ends, bind-Ends, lift-Ends, Round, rounds-Ends}
use cream_bots.Json.{Value, Value_discrete}
use cream_bots.Pools.Managers.{
  VersionData, FactoryData, Managers, ManagersState, first_state_block, call_degenbot, keep_manager,
  create_manager, create_version, items, set_ready, create_managers, create_pool_managers,
}

-- The versions that have managers.
abbrev pub IsHandled : String → Type 0
IsHandled version = (version ≡ "v2") ⊎ (version ≡ "v3")

-- The address of a factory of such a version.
pub record IsFactory (versions : VersionData) (address : Value) : Type 0 where
  pub version : String
  pub factories : Dict String Value
  pub exchange_name : String
  pub has_version : Memᴰ (version, factories) versions
  pub handled : IsHandled version
  pub has_exchange : Memᴰ (exchange_name, address) factories

-- The version has a factory at this address.
pub record IsConfigured (versions : VersionData) (version : String) (address : Value) : Type 0 where
  pub factories : Dict String Value
  pub exchange_name : String
  pub has_version : Memᴰ (version, factories) versions
  pub has_exchange : Memᴰ (exchange_name, address) factories

module _ (lib : Managers) where
  module _ (versions : VersionData) where
    -- A manager that degenbot made for the address: of version 2 for a factory of version 2, of
    -- version 3 for a factory of version 3.
    pub data IsMade (address : Value) (m : lib.Manager) : Type 0 where
      of_v2 :
          (store store' : lib.Store)
          → IsConfigured versions "v2" address
          → lib.v2_manager address store ≡ (store', ok m)
          → IsMade address m
      of_v3 :
          (store store' : lib.Store)
          → IsConfigured versions "v3" address
          → lib.v3_manager address store ≡ (store', ok m)
          → IsMade address m

    abbrev pub HasManager : Value → ManagersState lib → Type 0
    HasManager address s =
        (m : lib.Manager) × (get Value_discrete address s.pool_managers ≡ some m) × IsMade address m

  -- The flag is set, and every configured factory has its manager.
  pub record IsReady (factories : FactoryData) (s : ManagersState lib) : Type 0 where
    pub flag : s.pool_managers_ready ≡ true
    pub managers :
        (versions : VersionData) (address : Value)
        → factories ≡ some versions
        → IsFactory versions address
        → HasManager versions address s

  -- How the method ends without an exception: without chain data, with the state as it was.
  abbrev pub IsDone : Option FactoryData → ManagersState lib → ManagersState lib → Type 0
  IsDone none s s' = s' ≡ s
  IsDone (some factories) s s' = IsReady factories s'

  module _ (ready : Bool) where
    abbrev IsAt : ManagersState lib → Type 0
    IsAt s = s.pool_managers_ready ≡ ready

    -- A call of degenbot changes its store only.
    record Called {A : Type 0} (f : lib.Store → lib.Store × Result A) (s : ManagersState lib)
        (a : A) (s' : ManagersState lib) : Type 0 where
      managers : s'.pool_managers ≡ s.pool_managers
      flag : s'.pool_managers_ready ≡ s.pool_managers_ready
      returned : f s.store ≡ (s'.store, ok a)

    call_degenbot-Ends :
        {A : Type 0} (f : lib.Store → lib.Store × Result A) (s : ManagersState lib)
        → IsAt s
        → Ends (Called f s) IsAt (call_degenbot lib f s)
    call_degenbot-Ends {A} f s i = go (f s.store).0 (f s.store).1 refl
      where
        go :
            (store : lib.Store) (r : Result A)
            → f s.store ≡ (store, r)
            → Ends (Called f s) IsAt (record s { store = store }, r)
        go store (ok a) e = record { managers = refl; flag = refl; returned = e }
        go store (raise x) e = i

  module _ (versions : VersionData) where
    put-HasManager :
        (address : Value) (m : lib.Manager) (s : ManagersState lib)
        → IsMade versions address m
        → (k : Value) → HasManager versions k s
        → HasManager versions k
            (record s { pool_managers = put Value_discrete address m s.pool_managers })
    put-HasManager address m s made k (n, found, old) = elim (Value_discrete address k) [
      | yes same ↦
          subst
            (λ a.
              HasManager versions a
                (record s { pool_managers = put Value_discrete address m s.pool_managers }))
            same (m, get-put_self Value_discrete address m s.pool_managers, made)
      | no differ ↦ (n, get-put_ne Value_discrete address k m s.pool_managers differ ∙ found, old)
    ]

  module _ (ready : Bool) (versions : VersionData) where
    -- A manager is made and kept.
    make-Ends :
        (make : Value → lib.Store → lib.Store × Result lib.Manager) (address : Value)
        (s : ManagersState lib)
        → ((store store' : lib.Store) (m : lib.Manager)
            → make address store ≡ (store', ok m)
            → IsMade versions address m)
        → IsAt ready s
        → Ends
            (λ _ s'. Round (IsAt ready) (HasManager versions) s s' (λ k. address ≡ k))
            (IsAt ready)
            ((call_degenbot lib (make address) >>= keep_manager lib address) s)
    unfolding keep_manager
    make-Ends make address s made i =
        bind-Ends (Called ready (make address) s)
          (λ _ s'. Round (IsAt ready) (HasManager versions) s s' (λ k. address ≡ k)) (IsAt ready)
          (call_degenbot lib (make address)) (keep_manager lib address) s
          (call_degenbot-Ends ready (make address) s i)
          (λ m s' call.
            let is : IsMade versions address m = made s.store s'.store m call.returned in
            (
              call.flag ∙ i,
              λ k (n, found, old).
                  put-HasManager versions address m s' is k
                    (n, ap (get Value_discrete k) call.managers ∙ found, old),
              λ k e.
                  subst
                    (λ a.
                      HasManager versions a (record s' {
                        pool_managers = put Value_discrete address m s'.pool_managers;
                      }))
                    e (m, get-put_self Value_discrete address m s'.pool_managers, is),
            ))

    create_manager-Ends :
        (version : String) (factories : Dict String Value) (named : String × Value)
        (s : ManagersState lib)
        → Memᴰ (version, factories) versions
        → Memᴰ named factories
        → IsAt ready s
        → Ends
            (λ _ s'.
              Round
                (IsAt ready)
                (HasManager versions)
                s
                s'
                (λ k. IsHandled version × (named.1 ≡ k)))
            (IsAt ready)
            (create_manager lib version named s)
    unfolding create_manager pure
    create_manager-Ends version factories (name, address) s has_version has_exchange i =
        let configured : IsConfigured versions version address = record {
          factories = factories;
          exchange_name = name;
          has_version = has_version;
          has_exchange = has_exchange;
        } in
        elim (Bool-cases (holds (String_discrete version "v2"))) [
          | inl e ↦ rw e (
              handled ((call_degenbot lib (lib.v2_manager address) >>= keep_manager lib address) s)
                (make-Ends lib.v2_manager address s
                  (λ a b m. of_v2 a b (
                    subst (λ v. IsConfigured versions v address)
                      (of_holds (String_discrete version "v2") e) configured))
                  i))
          | inr n ↦ elim (Bool-cases (holds (String_discrete version "v3"))) [
            | inl e ↦
                rw (n, e)
                  (handled
                    ((call_degenbot lib (lib.v3_manager address) >>= keep_manager lib address) s)
                    (make-Ends lib.v3_manager address s
                      (λ a b m. of_v3 a b (
                        subst (λ v. IsConfigured versions v address)
                          (of_holds (String_discrete version "v3") e) configured))
                      i))
            | inr m ↦
                rw (n, m)
                  (
                    i,
                    λ k q. q,
                    λ k (h, same). absurd (elim h [
                      | inl is_v2 ↦ not_both _ n (holds_of (String_discrete version "v2") is_v2)
                      | inr is_v3 ↦ not_both _ m (holds_of (String_discrete version "v3") is_v3)
                    ]),
                  )
          ]
        ]
      where
        not_both : (b : Bool) → b ≡ false → b ≡ true → ⊥
        not_both b f t = cc

        handled :
            (out : ManagersState lib × Result (Unit {0}))
            → Ends
                (λ _ s'. Round (IsAt ready) (HasManager versions) s s' (λ k. address ≡ k))
                (IsAt ready)
                out
            → Ends
                (λ _ s'.
                  Round
                    (IsAt ready)
                    (HasManager versions)
                    s
                    s'
                    (λ k. IsHandled version × (address ≡ k)))
                (IsAt ready)
                out
        handled (s', ok _) (i', keep, new) = (i', keep, λ k (_, e). new k e)
        handled (s', raise _) e = e

    all-Ends :
        (s : ManagersState lib)
        → IsAt ready s
        → Ends
            (λ _ s'. Round (IsAt ready) (HasManager versions) s s' (IsFactory versions))
            (IsAt ready)
            (rounds (create_version lib) versions s)
    unfolding create_version
    all-Ends s i = weaken (rounds (create_version lib) versions s) (
        rounds-Ends (IsAt ready) (IsAt ready) (HasManager versions) (create_version lib)
          (λ v k. (named : String × Value) × Memᴰ named v.1 × (IsHandled v.0 × (named.1 ≡ k)))
          versions
          (λ v m t j.
            rounds-Ends (IsAt ready) (IsAt ready) (HasManager versions) (create_manager lib v.0)
              (λ named k. IsHandled v.0 × (named.1 ≡ k)) v.1
              (λ named n u l. create_manager-Ends v.0 v.1 named u m n l) t j)
          s i)
      where
        weaken :
            (out : ManagersState lib × Result (Unit {0}))
            → Ends
                (λ _ s'. Round (IsAt ready) (HasManager versions) s s' (λ k.
                  (v : String × Dict String Value) × Memᴰ v versions
                  × ((named : String × Value) × Memᴰ named v.1 × (IsHandled v.0 × (named.1 ≡ k)))))
                (IsAt ready)
                out
            → Ends
                (λ _ s'. Round (IsAt ready) (HasManager versions) s s' (IsFactory versions))
                (IsAt ready)
                out
        weaken (s', ok _) (i', keep, new) = (
          i',
          keep,
          λ k f. new k (
            (f.version, f.factories),
            f.has_version,
            ((f.exchange_name, k), f.has_exchange, (f.handled, refl)),
          ),
        )
        weaken (s', raise _) e = e

  -- However create_pool_managers ends: if it returns with chain data, the flag
  -- pool_managers_ready is set and every configured factory of version 2 or 3 has a manager that
  -- degenbot made for its address, of a version that has a factory there; without chain data,
  -- nothing has changed. If it raises, the flag is what it was.
  pub create_pool_managers-Ends :
      (chain_data : Option FactoryData) (first_event : Value) (s : ManagersState lib)
      → Ends
          (λ _ s'. IsDone chain_data s s')
          (λ s'. s'.pool_managers_ready ≡ s.pool_managers_ready)
          (create_pool_managers lib chain_data first_event s)
  unfolding create_pool_managers create_managers pure
  create_pool_managers-Ends none first_event s = refl
  create_pool_managers-Ends (some factories) first_event s =
      let ready = s.pool_managers_ready in
      let R : Unit {0} → ManagersState lib → Type 0 = λ _ s'. IsReady factories s' in
      lift-Ends R (IsAt ready) (first_state_block first_event) _ s refl (λ block _.
        bind-Ends (Called ready (lib.fetch_events block) s) R (IsAt ready)
          (call_degenbot lib (lib.fetch_events block)) _ s
          (call_degenbot-Ends ready (lib.fetch_events block) s refl)
          (λ _ s₁ call. lift-Ends R (IsAt ready) (items lib factories) _ s₁ call.flag (λ versions e.
            bind-Ends (λ _ s'. Round (IsAt ready) (HasManager versions) s₁ s' (IsFactory versions))
              R (IsAt ready) (rounds (create_version lib) versions) (λ _. set_ready lib) s₁
              (all-Ends ready versions s₁ call.flag)
              (λ _ s₂ (i, keep, new). record {
                flag = refl;
                managers = λ vs address same_vs f.
                    subst (λ w. HasManager w address s₂)
                      (sym (items_are factories vs versions same_vs e))
                      (new address (
                        subst (λ w. IsFactory w address) (items_are factories vs versions same_vs e)
                          f));
              }))))
    where
      items_are :
          (o : FactoryData) (vs versions : VersionData)
          → o ≡ some vs
          → items lib o ≡ ok versions
          → vs ≡ versions
      items_are none vs versions a e = cc
      items_are (some ws) vs versions a e = sym (some-injective ws vs a) ∙ ok-injective e
