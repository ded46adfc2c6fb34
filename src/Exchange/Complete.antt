-- ===== src/Exchange/Complete.antt =====
-- Which configured factories are sure to be listed behind the loop: those of version 2, and those
-- of version 3 of uniswap or pancakeswap, if the addresses convert.
use cream_bots.Prelude.{
  String, String_discrete, Bool-cases, true, false, some, [], ◌∷◌, ◌≡◌, ◌⊎◌, inl, inr, refl, sym,
  ap, ◌∙◌, Memᴰ, ok, holds, holds_of, holds_not_of, ne_of_compare,
}
use mathlib.Core.List.Memᴰ
use mathlib.Core.List.Memᴰ.{head}
use cream_bots.Prelude.Int.{ℤ}
use cream_bots.Prelude.Exec.{pure, lift, gets, ◌>>=◌}
use cream_bots.Prelude.Rounds.{Returns, rounds-Returns, rounds-reaches}
use cream_bots.Exchange.{
  FactoryInfo, Factories, ChainData, Deployment, Degenbot, State, register_factory, add_v2, bind_v3,
  add_v3, add_unknown, add_factory, add_version, factory_data, add_deployments, v2_deployment,
  v3_deployment, uniswap_v3_abi, pancakeswap_v3_abi,
}
use cream_bots.Exchange.Registered.{registered, IsStable, IsConverted, add_factory-Returns}
use cream_bots.Exchange.Built.{IsConfigured, Converts, IsKnown}

module _ (lib : Degenbot) where
  -- The two operations on degenbot's deployments: the default removes and adds no factory, and
  -- register_exchange adds at most the one that it is given.
  pub record IsRegistry : Type 0 where
    pub setdefault_keeps :
        (chain_id c : ℤ) (a : String) (ds : lib.Deployments)
        → lib.has_factory c a (lib.setdefault chain_id ds) ≡ lib.has_factory c a ds
    pub registers_one :
        (c : ℤ) (a : String) (d : Deployment) (ds : lib.Deployments)
        → lib.has_factory c a (lib.register_exchange d ds).0 ≡ true
        → (lib.has_factory c a ds ≡ true) ⊎ (a ≡ d.address)

  module _ (laws : IsRegistry) (chain : ChainData) (start : lib.Deployments) where
    -- The factory was deployed from the start, or was given to register_exchange.
    abbrev pub IsListed : String → State lib → Type 0
    IsListed a s =
        (lib.has_factory chain.chain_id a start ≡ true)
        ⊎ ((d : Deployment) × Memᴰ d s.given × (d.address ≡ a))

    abbrev AllListed : State lib → Type 0
    AllListed s =
        (a : String) → lib.has_factory chain.chain_id a s.deployments ≡ true → IsListed a s

    registered-IsListed :
        (a : String) (s : State lib) (d : Deployment)
        → IsListed a s
        → IsListed a (registered lib d s)
    registered-IsListed a s d (inl old) = inl old
    registered-IsListed a s d (inr (e, m, same)) = inr (e, Memᴰ.append_left (d ∷ []) m, same)

    registered-AllListed :
        (s : State lib) (d : Deployment) → AllListed s → AllListed (registered lib d s)
    registered-AllListed s d p a h = elim (laws.registers_one chain.chain_id a d s.deployments h) [
      | inl old ↦ registered-IsListed a s d (p a old)
      | inr same ↦ inr (d, Memᴰ.append_right s.given (head refl), sym same)
    ]

    AllListed-IsStable : IsStable lib AllListed
    AllListed-IsStable = record { on_bind = λ s o p. p; on_register = registered-AllListed }

    abbrev AllAnd : String → State lib → Type 0
    AllAnd a s = AllListed s × IsListed a s

    AllAnd-IsStable : (a : String) → IsStable lib (AllAnd a)
    AllAnd-IsStable a = record {
      on_bind = λ s o p. p;
      on_register = λ s d (p, q). (registered-AllListed s d p, registered-IsListed a s d q);
    }

    given-AllAnd :
        (s : State lib) (d : Deployment)
        → AllListed s
        → AllAnd d.address (registered lib d (record s { factory_deployment = some d }))
    given-AllAnd s d p = (
      registered-AllListed (record s { factory_deployment = some d }) d p,
      inr (d, Memᴰ.append_right s.given (head refl), refl),
    )

    add_v3-AllAnd :
        (exchange_name address lens : String) (info : FactoryInfo)
        → lib.checksum info.tick_lens ≡ ok lens
        → IsKnown lib chain exchange_name
        → Returns AllListed (AllAnd address) (add_v3 lib chain exchange_name address info)
    unfolding add_v3 bind_v3 register_factory v3_deployment lift ◌>>=◌
    add_v3-AllAnd exchange_name address lens info has_lens (inl e) s p =
        rw (has_lens, holds_of (String_discrete exchange_name "uniswap") e)
          (
            _,
            refl,
            given-AllAnd s (v3_deployment lib chain uniswap_v3_abi exchange_name address lens info)
                p,
          )
    add_v3-AllAnd exchange_name address lens info has_lens (inr e) s p =
        rw (has_lens, not_uniswap, holds_of (String_discrete exchange_name "pancakeswap") e)
          (
            _,
            refl,
            given-AllAnd s
                (v3_deployment lib chain pancakeswap_v3_abi exchange_name address lens info) p,
          )
      where
        not_uniswap : holds (String_discrete exchange_name "uniswap") ≡ false
        not_uniswap =
            holds_not_of (String_discrete exchange_name "uniswap")
              (λ h. ne_of_compare "pancakeswap" "uniswap" refl (sym e ∙ h))

    -- The versions and exchanges that the loop handles.
    abbrev pub IsHandled : (version exchange_name : String) → Type 0
    IsHandled version exchange_name =
        (version ≡ "v2") ⊎ ((version ≡ "v3") × IsKnown lib chain exchange_name)

    add_factory-AllAnd :
        (version exchange_name : String) (info : FactoryInfo) (t : IsConverted lib version info)
        → IsHandled version exchange_name
        → Returns AllListed (AllAnd t.address) (add_factory lib chain version (exchange_name, info))
    unfolding add_factory add_unknown add_v2 register_factory v2_deployment lift gets pure ◌>>=◌
    add_factory-AllAnd version exchange_name info t handled s p =
        rw t.has_address
          (elim (Bool-cases (lib.has_factory chain.chain_id t.address s.deployments)) [
            | inl old ↦ rw old (s, refl, (p, p t.address old))
            | inr new ↦ rw new (elim handled [
              | inl is_v2 ↦
                  rw (holds_of (String_discrete version "v2") is_v2) (
                    _,
                    refl,
                    given-AllAnd s (v2_deployment lib chain exchange_name t.address info) p,
                  )
              | inr (is_v3, known) ↦
                  let (lens, has_lens) = t.lens is_v3 in
                  rw
                    (
                      holds_not_of (String_discrete version "v2")
                          (λ h. ne_of_compare "v3" "v2" refl (sym is_v3 ∙ h)),
                      holds_of (String_discrete version "v3") is_v3,
                    )
                    (add_v3-AllAnd exchange_name t.address lens info has_lens known s p)
            ])
          ])

    -- If the addresses of the configured factories convert, add_deployments returns, and every
    -- factory of version 2, and of version 3 of uniswap or pancakeswap, was deployed before or has
    -- been given to register_exchange.
    pub add_deployments-IsListed :
        (s : State lib) (converts : Converts lib chain) (version exchange_name : String)
        (info : FactoryInfo) (c : IsConfigured lib chain version exchange_name info)
        → s.deployments ≡ start
        → IsHandled version exchange_name
        → (s' : State lib) × (add_deployments lib chain s ≡ (s', ok tt))
          × IsListed (converts version exchange_name info c).address s'
    unfolding add_deployments add_version ◌>>=◌
    add_deployments-IsListed s converts version exchange_name info c same handled =
        let t = converts version exchange_name info c in
        let step : (P : State lib → Type 0)
            → IsStable lib P
            → (v : String × Factories) → Memᴰ v (factory_data lib chain chain.factories)
            → (named : String × FactoryInfo) → Memᴰ named v.1
            → Returns P P (add_factory lib chain v.0 named) =
          λ P stable v m named n. add_factory-Returns lib P stable chain v.0 named.0 named.1 (
            converts v.0 named.0 named.1
              (record { factories = v.1; has_version = m; has_exchange = n })) in
        let each : (P : State lib → Type 0)
            → IsStable lib P
            → (v : String × Factories) → Memᴰ v (factory_data lib chain chain.factories)
            → Returns P P (add_version lib chain v) =
          λ P stable v m. rounds-Returns (add_factory lib chain v.0) P v.1 (step P stable v m) in
        let (s', e, q) =
          rounds-reaches (add_version lib chain) AllListed (AllAnd t.address)
            (factory_data lib chain chain.factories) (each AllListed AllListed-IsStable)
            (each (AllAnd t.address) (AllAnd-IsStable t.address)) c.has_version
            (rounds-reaches (add_factory lib chain version) AllListed (AllAnd t.address) c.factories
              (step AllListed AllListed-IsStable (version, c.factories) c.has_version)
              (step (AllAnd t.address) (AllAnd-IsStable t.address) (version, c.factories)
                c.has_version)
              c.has_exchange (add_factory-AllAnd version exchange_name info t handled))
            (record s { deployments = lib.setdefault chain.chain_id s.deployments })
            (λ a h. inl (
              ap (lib.has_factory chain.chain_id a) (sym same)
              ∙ sym (laws.setdefault_keeps chain.chain_id chain.chain_id a s.deployments)
              ∙ h)) in
        (s', e, q.1)
