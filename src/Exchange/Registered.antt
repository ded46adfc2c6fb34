-- ===== src/Exchange/Registered.antt =====
-- How a factory of version 2, or one of version 3 of uniswap or pancakeswap, is registered.
use cream_bots.Prelude.{
  String, String_discrete, Bool-cases, Option, none, some, [], ◌∷◌, ◌++◌, ◌≡◌, inl, inr, refl, ok,
  holds, of_holds,
}
use cream_bots.Prelude.Exec.{pure, lift, gets, ◌>>=◌}
use cream_bots.Prelude.Rounds.{Returns, bind-Returns}
use cream_bots.Exchange.{
  FactoryInfo, ChainData, Deployment, Degenbot, State, bind_deployment, register_bound,
  register_factory, add_v2, bind_v3, add_v3, add_unknown, add_factory,
}

module _ (lib : Degenbot) where
  -- The state after a call of register_exchange.
  abbrev pub registered : Deployment → State lib → State lib
  registered d s = record s {
    deployments = (lib.register_exchange d s.deployments).0;
    given = s.given ++ d ∷ [];
  }

  -- What the loop's steps on the state keep.
  pub record IsStable (P : State lib → Type 0) : Type 0 where
    pub on_bind :
        (s : State lib) (o : Option Deployment) → P s → P (record s { factory_deployment = o })
    pub on_register : (s : State lib) (d : Deployment) → P s → P (registered d s)

  -- The addresses that the loop over the factories converts.
  pub record IsConverted (version : String) (info : FactoryInfo) : Type 0 where
    pub address : String
    pub has_address : lib.checksum info.factory_address ≡ ok address
    pub lens : version ≡ "v3" → (tick_lens : String) × (lib.checksum info.tick_lens ≡ ok tick_lens)

  module _ (P : State lib → Type 0) (stable : IsStable P) where
    bind_deployment-Returns : (d : Deployment) → Returns P P (bind_deployment lib d)
    bind_deployment-Returns d s p =
        (record s { factory_deployment = some d }, refl, stable.on_bind s (some d) p)

    register_bound-Returns : (o : Option Deployment) → Returns P P (register_bound lib o)
    register_bound-Returns none s p = (s, refl, p)
    register_bound-Returns (some d) s p = (registered d s, refl, stable.on_register s d p)

    register_factory-Returns : Returns P P (register_factory lib)
    unfolding register_factory
    register_factory-Returns s p = register_bound-Returns s.factory_deployment s p

    module _ (chain : ChainData) where
      add_v2-Returns :
          (exchange_name address : String) (info : FactoryInfo)
          → Returns P P (add_v2 lib chain exchange_name address info)
      unfolding add_v2
      add_v2-Returns exchange_name address info =
          bind-Returns P P P _ _ (bind_deployment-Returns _) register_factory-Returns

      bind_v3-Returns :
          (exchange_name address lens : String) (info : FactoryInfo)
          → Returns P P (bind_v3 lib chain exchange_name address lens info)
      unfolding bind_v3 pure
      bind_v3-Returns exchange_name address lens info s p =
          elim (Bool-cases (holds (String_discrete exchange_name "uniswap"))) [
            | inl e ↦ rw e (bind_deployment-Returns _ s p)
            | inr n ↦ elim (Bool-cases (holds (String_discrete exchange_name "pancakeswap"))) [
              | inl e ↦ rw (n, e) (bind_deployment-Returns _ s p)
              | inr m ↦ rw (n, m) (s, refl, p)
            ]
          ]

      add_v3-Returns :
          (exchange_name address : String) (info : FactoryInfo)
          → ((lens : String) × (lib.checksum info.tick_lens ≡ ok lens))
          → Returns P P (add_v3 lib chain exchange_name address info)
      unfolding add_v3 lift ◌>>=◌
      add_v3-Returns exchange_name address info (lens, e) s p = rw e (
          bind-Returns P P P (bind_v3 lib chain exchange_name address lens info)
            (register_factory lib) (bind_v3-Returns exchange_name address lens info)
            register_factory-Returns s p)

      add_unknown-Returns :
          (version exchange_name address : String) (info : FactoryInfo)
          → IsConverted version info
          → Returns P P (add_unknown lib chain version exchange_name address info)
      unfolding add_unknown pure
      add_unknown-Returns version exchange_name address info c s p =
          elim (Bool-cases (holds (String_discrete version "v2"))) [
            | inl e ↦ rw e (add_v2-Returns exchange_name address info s p)
            | inr n ↦ elim (Bool-cases (holds (String_discrete version "v3"))) [
              | inl e ↦
                  rw (n, e)
                    (add_v3-Returns exchange_name address info
                      (c.lens (of_holds (String_discrete version "v3") e)) s p)
              | inr m ↦ rw (n, m) (s, refl, p)
            ]
          ]

      pub add_factory-Returns :
          (version exchange_name : String) (info : FactoryInfo)
          → IsConverted version info
          → Returns P P (add_factory lib chain version (exchange_name, info))
      unfolding add_factory lift gets pure ◌>>=◌
      add_factory-Returns version exchange_name info c s p =
          rw c.has_address
            (elim (Bool-cases (lib.has_factory chain.chain_id c.address s.deployments)) [
              | inl known ↦ rw known (s, refl, p)
              | inr new ↦ rw new (add_unknown-Returns version exchange_name c.address info c s p)
            ])
