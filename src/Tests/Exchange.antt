-- ===== src/Tests/Exchange.antt =====
-- Three factories, one of them registered before, and a fourth of an exchange that is not known.
use mathlib.Core.List.Memᴰ
use mathlib.Core.List.Memᴰ.{head, tail}
use cream_bots.Prelude.{
  String, String_discrete, Option, none, some, List, [], ◌∷◌, ◌++◌, ◌≡◌, inl, inr, refl, ap, Result,
  ok, raise, type_error, contains, contains_of_mem, mem_of_contains, map, All, All-mem,
  ne_of_compare,
}
use cream_bots.Prelude.Int.{pos}
use cream_bots.Prelude.Dict.{Dict}
use cream_bots.Exchange.{
  FactoryInfo, Factories, ChainData, Degenbot, State, add_deployments, factory_data,
}
use cream_bots.Exchange.Built.{IsConfigured, Converts, IsKnown, IsFit, add_deployments-IsFit}
use cream_bots.Exchange.Complete.{IsRegistry, IsListed, add_deployments-IsListed}

abbrev checksum : Option String → Result String
checksum none = raise type_error
checksum (some a) = ok a

abbrev pub lib : Degenbot
lib = record {
  Deployments = List String;
  setdefault = λ _ ds. ds;
  has_factory = λ _ a ds. contains String_discrete ds a;
  register_exchange = λ d ds. (ds ++ d.address ∷ [], ok tt);
  checksum = checksum;
}

lib-IsRegistry : IsRegistry lib
lib-IsRegistry = record {
  setdefault_keeps = λ _ c a ds. refl;
  registers_one = λ c a d ds h.
      elim (Memᴰ.append_cases ds (mem_of_contains String_discrete (ds ++ d.address ∷ []) a h)) [
        | inl old ↦ inl (contains_of_mem String_discrete ds old)
        | inr new ↦ inr (Memᴰ.eq_of_singleton new)
      ];
}

abbrev info : String → FactoryInfo
info address = record {
  factory_address = some address;
  pool_init_hash = some "0x96";
  tick_lens = some "0xe";
}

abbrev v2_factories : Factories
v2_factories = ("uniswap", info "0xa") ∷ ("sushiswap", info "0xb") ∷ []

abbrev v3_factories : Factories
v3_factories = ("pancakeswap", info "0xc") ∷ []

abbrev chain_of : Dict String Factories → ChainData
chain_of factories = record { chain_id = pos 1; name = "ethereum"; factories = some factories }

abbrev pub chain : ChainData
chain = chain_of (("v2", v2_factories) ∷ ("v3", v3_factories) ∷ [])

abbrev pub before : State lib
before = record { deployments = "0xa" ∷ []; factory_deployment = none; given = [] }

given_test : map (λ d. d.address) (add_deployments lib chain before).0.given ≡ "0xb" ∷ "0xc" ∷ []
unfolding add_deployments contains String_discrete
given_test = refl

-- The deployment of pancakeswap is registered again in place of the one of sushiswap.
stale_test :
    map
      (λ d. d.name)
      (add_deployments lib
        (chain_of (("v3", ("pancakeswap", info "0xc") ∷ ("sushiswap", info "0xd") ∷ []) ∷ []))
        before).0.given
    ≡ "ethereum pancakeswap v3" ∷ "ethereum pancakeswap v3" ∷ []
unfolding add_deployments contains String_discrete
stale_test = refl

abbrev HasTexts : FactoryInfo → Type 0
HasTexts i = ((a : String) × (i.factory_address ≡ some a)) × ((l : String) × (i.tick_lens ≡ some l))

abbrev texts : (a : String) → HasTexts (info a)
texts a = ((a, refl), ("0xe", refl))

all_texts : All (λ v. All (λ named. HasTexts named.1) v.1) (factory_data lib chain chain.factories)
all_texts = ((texts "0xa", (texts "0xb", tt)), ((texts "0xc", tt), tt))

converts : Converts lib chain
converts version exchange_name i c =
    let ((a, has_a), (l, has_l)) =
      All-mem (λ named. HasTexts named.1) c.factories
        (All-mem (λ v. All (λ named. HasTexts named.1) v.1) (factory_data lib chain chain.factories)
          all_texts (version, c.factories) c.has_version)
        (exchange_name, i) c.has_exchange in
    record { address = a; has_address = ap checksum has_a; lens = λ _. (l, ap checksum has_l) }

all-IsKnown :
    All
      (λ v. v.0 ≡ "v3" → All (λ named. IsKnown lib chain named.0) v.1)
      (factory_data lib chain chain.factories)
all-IsKnown = (λ e. absurd (ne_of_compare "v2" "v3" refl e), (λ _. (inr refl, tt), tt))

configured-IsKnown :
    (exchange_name : String) (i : FactoryInfo)
    → IsConfigured lib chain "v3" exchange_name i
    → IsKnown lib chain exchange_name
configured-IsKnown exchange_name i c =
    All-mem (λ named. IsKnown lib chain named.0) c.factories
      (All-mem (λ v. v.0 ≡ "v3" → All (λ named. IsKnown lib chain named.0) v.1)
        (factory_data lib chain chain.factories) all-IsKnown ("v3", c.factories) c.has_version refl)
      (exchange_name, i) c.has_exchange

add_deployments-IsFit_example :
    (s' : State lib) × (add_deployments lib chain before ≡ (s', ok tt))
    × IsFit lib chain before.given s'
add_deployments-IsFit_example = add_deployments-IsFit lib chain before converts configured-IsKnown

abbrev sushiswap : IsConfigured lib chain "v2" "sushiswap" (info "0xb")
sushiswap = record {
  factories = v2_factories;
  has_version = head refl;
  has_exchange = tail (head refl);
}

add_deployments-IsListed_example :
    (s' : State lib) × (add_deployments lib chain before ≡ (s', ok tt))
    × IsListed lib lib-IsRegistry chain before.deployments
        (converts "v2" "sushiswap" (info "0xb") sushiswap).address
        s'
add_deployments-IsListed_example =
    add_deployments-IsListed lib lib-IsRegistry chain before.deployments before converts "v2"
      "sushiswap" (info "0xb") sushiswap refl (inl refl)
