-- ===== src/Exchange/Built.antt =====
-- add_deployments as a whole: what is given to register_exchange, and which factories are.
use cream_bots.Prelude.{
  String, String_discrete, Bool-cases, false, some, List, ◌≡◌, ◌⊎◌, inl, inr, refl, sym, ◌∙◌, subst,
  Memᴰ, ok, holds, holds_of, of_holds, holds_not_of, ne_of_compare, none,
}
use mathlib.Core.List.Memᴰ
use cream_bots.Prelude.Exec.{pure, lift, gets, ◌>>=◌}
use cream_bots.Prelude.Rounds.{rounds, Returns, rounds-Returns}
use cream_bots.Exchange.{
  FactoryInfo, Factories, ChainData, Deployment, Degenbot, State, register_factory, add_v2, bind_v3,
  add_v3, add_unknown, add_factory, add_version, factory_data, add_deployments, v2_deployment,
  v3_deployment, spaced, uniswap_v2_abi, uniswap_v3_abi, pancakeswap_v3_abi,
}
use cream_bots.Exchange.Registered.{registered, IsConverted}

module _ (lib : Degenbot) (chain : ChainData) where
  -- The deployment that belongs to a factory at its converted address.
  pub data IsBuilt (version exchange_name address : String) (info : FactoryInfo)
      : Deployment → Type 0 where
    of_v2 :
        version ≡ "v2"
        → IsBuilt version exchange_name address info (record {
          name = spaced chain.name exchange_name "v2";
          chain_id = chain.chain_id;
          address = address;
          pool_init_hash = info.pool_init_hash;
          pool_abi = uniswap_v2_abi;
          tick_lens = none;
        })
    of_uniswap :
        (lens : String)
        → version ≡ "v3"
        → exchange_name ≡ "uniswap"
        → lib.checksum info.tick_lens ≡ ok lens
        → IsBuilt version exchange_name address info (record {
          name = spaced chain.name exchange_name "v3";
          chain_id = chain.chain_id;
          address = address;
          pool_init_hash = info.pool_init_hash;
          pool_abi = uniswap_v3_abi;
          tick_lens = some lens;
        })
    of_pancakeswap :
        (lens : String)
        → version ≡ "v3"
        → exchange_name ≡ "pancakeswap"
        → lib.checksum info.tick_lens ≡ ok lens
        → IsBuilt version exchange_name address info (record {
          name = spaced chain.name exchange_name "v3";
          chain_id = chain.chain_id;
          address = address;
          pool_init_hash = info.pool_init_hash;
          pool_abi = pancakeswap_v3_abi;
          tick_lens = some lens;
        })

  -- A factory of the configuration, with its version and its exchange.
  pub record IsConfigured (version exchange_name : String) (info : FactoryInfo) : Type 0 where
    pub factories : Factories
    pub has_version : Memᴰ (version, factories) (factory_data lib chain chain.factories)
    pub has_exchange : Memᴰ (exchange_name, info) factories

  pub record IsOfFactory (d : Deployment) : Type 0 where
    pub version : String
    pub exchange_name : String
    pub address : String
    pub info : FactoryInfo
    pub configured : IsConfigured version exchange_name info
    pub converts : lib.checksum info.factory_address ≡ ok address
    pub built : IsBuilt version exchange_name address info d

  abbrev pub Converts : Type 0
  Converts =
      (version exchange_name : String) (info : FactoryInfo)
      → IsConfigured version exchange_name info
      → IsConverted lib version info

  -- The two exchanges whose version 3 the loop knows.
  abbrev pub IsKnown : String → Type 0
  IsKnown exchange_name = (exchange_name ≡ "uniswap") ⊎ (exchange_name ≡ "pancakeswap")

  -- Through all the factories.
  pub all-Returns :
      (P : State lib → Type 0)
      → ((version exchange_name : String) (info : FactoryInfo)
          → IsConfigured version exchange_name info
          → Returns P P (add_factory lib chain version (exchange_name, info)))
      → Returns P P (rounds (add_version lib chain) (factory_data lib chain chain.factories))
  unfolding add_version
  all-Returns P step =
      rounds-Returns (add_version lib chain) P (factory_data lib chain chain.factories)
        (λ versioned m. rounds-Returns (add_factory lib chain versioned.0) P versioned.1 (λ named n.
          step versioned.0 named.0 named.1
            (record { factories = versioned.1; has_version = m; has_exchange = n })))

  module _ (before : List Deployment) where
    -- What was given since then belongs to a factory.
    abbrev pub IsFit : State lib → Type 0
    IsFit s = (d : Deployment) → Memᴰ d s.given → Memᴰ d before ⊎ IsOfFactory d

    registered-IsFit :
        (s : State lib) (d : Deployment)
        → IsOfFactory d
        → IsFit s
        → IsFit (registered lib d (record s { factory_deployment = some d }))
    registered-IsFit s d f p e m = elim (Memᴰ.append_cases s.given m) [
      | inl old ↦ p e old
      | inr new ↦ inr (subst IsOfFactory (sym (Memᴰ.eq_of_singleton new)) f)
    ]

    add_v3-IsFit :
        (exchange_name address lens : String) (info : FactoryInfo)
        → IsConfigured "v3" exchange_name info
        → lib.checksum info.factory_address ≡ ok address
        → lib.checksum info.tick_lens ≡ ok lens
        → IsKnown exchange_name
        → Returns IsFit IsFit (add_v3 lib chain exchange_name address info)
    unfolding add_v3 bind_v3 v3_deployment register_factory lift ◌>>=◌
    add_v3-IsFit exchange_name address lens info c has_address has_lens (inl e) s p =
        rw (has_lens, holds_of (String_discrete exchange_name "uniswap") e)
          (
            _,
            refl,
            registered-IsFit s _
                (record {
                  version = "v3";
                  exchange_name = exchange_name;
                  address = address;
                  info = info;
                  configured = c;
                  converts = has_address;
                  built = of_uniswap lens refl e has_lens;
                })
                p,
          )
    add_v3-IsFit exchange_name address lens info c has_address has_lens (inr e) s p =
        rw (has_lens, not_uniswap, holds_of (String_discrete exchange_name "pancakeswap") e)
          (
            _,
            refl,
            registered-IsFit s _
                (record {
                  version = "v3";
                  exchange_name = exchange_name;
                  address = address;
                  info = info;
                  configured = c;
                  converts = has_address;
                  built = of_pancakeswap lens refl e has_lens;
                })
                p,
          )
      where
        not_uniswap : holds (String_discrete exchange_name "uniswap") ≡ false
        not_uniswap =
            holds_not_of (String_discrete exchange_name "uniswap")
              (λ h. ne_of_compare "pancakeswap" "uniswap" refl (sym e ∙ h))

    add_factory-IsFit :
        (version exchange_name : String) (info : FactoryInfo)
        → IsConfigured version exchange_name info
        → IsConverted lib version info
        → (version ≡ "v3" → IsKnown exchange_name)
        → Returns IsFit IsFit (add_factory lib chain version (exchange_name, info))
    unfolding add_factory add_unknown add_v2 v2_deployment register_factory lift gets pure ◌>>=◌
    add_factory-IsFit version exchange_name info c t known s p =
        rw t.has_address
          (elim (Bool-cases (lib.has_factory chain.chain_id t.address s.deployments)) [
            | inl old ↦ rw old (s, refl, p)
            | inr new ↦ rw new (elim (Bool-cases (holds (String_discrete version "v2"))) [
              | inl e ↦ rw e (
                _,
                refl,
                registered-IsFit s _
                    (record {
                      version = version;
                      exchange_name = exchange_name;
                      address = t.address;
                      info = info;
                      configured = c;
                      converts = t.has_address;
                      built = of_v2 (of_holds (String_discrete version "v2") e);
                    })
                    p,
              )
              | inr n ↦ elim (Bool-cases (holds (String_discrete version "v3"))) [
                | inl e ↦
                    let is_v3 = of_holds (String_discrete version "v3") e in
                    let (lens, has_lens) = t.lens is_v3 in
                    rw (n, e)
                      (add_v3-IsFit exchange_name t.address lens info
                        (subst (λ v. IsConfigured v exchange_name info) is_v3 c) t.has_address
                        has_lens (known is_v3) s p)
                | inr m ↦ rw (n, m) (s, refl, p)
              ]
            ])
          ])

  -- If the addresses of the configured factories convert, and every exchange of version 3 is
  -- uniswap or pancakeswap, add_deployments returns, and what it gives to register_exchange is the
  -- deployment of a configured factory: with the name of the chain, the exchange and the version,
  -- the id of the chain, the factory's converted address, its pool_init_hash, the ABI of its
  -- version and exchange, and for version 3 its converted tick lens.
  pub add_deployments-IsFit :
      (s : State lib)
      → Converts
      → ((exchange_name : String) (info : FactoryInfo)
          → IsConfigured "v3" exchange_name info
          → IsKnown exchange_name)
      → (s' : State lib) × (add_deployments lib chain s ≡ (s', ok tt)) × IsFit s.given s'
  unfolding add_deployments ◌>>=◌
  add_deployments-IsFit s converts known =
      all-Returns (IsFit s.given)
        (λ version exchange_name info c.
          add_factory-IsFit s.given version exchange_name info c
            (converts version exchange_name info c)
            (λ e. known exchange_name info (subst (λ v. IsConfigured v exchange_name info) e c)))
        (record s { deployments = lib.setdefault chain.chain_id s.deployments }) (λ d m. inl m)
