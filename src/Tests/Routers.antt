-- ===== src/Tests/Routers.antt =====
-- Two routers, one of which degenbot knows, and an aggregator.
use cream_bots.Prelude.{
  String, String_discrete, none, some, List, [], ◌∷◌, ◌++◌, ◌≡◌, refl, Bool, ok, raise,
  attribute_error, contains,
}
use cream_bots.Prelude.Int.{pos}
use cream_bots.Exchange.Routers.{RouterLib, RouterChain, RouterState, add_routers, add_aggregators}

abbrev lib : RouterLib
lib = record {
  Deployments = List String;
  setdefault = λ _ ds. ds;
  has_router = λ _ a ds. contains String_discrete ds a;
  register_router = λ d ds. (ds ++ d.address ∷ [], ok tt);
  checksum = ok;
  Abi = Bool;
  Contract = String;
  contract = λ a _. ok a;
}

abbrev chain : RouterChain lib
chain = record {
  routers =
      ("0xa", record { name = some "router"; abi = none })
      ∷ ("0xb", record { name = none; abi = some Bool.true })
      ∷ [];
  aggregators = some ("0xc" ∷ []);
}

abbrev before : RouterState lib
before = record {
  deployments = "0xa" ∷ [];
  given = [];
  router_addresses = some [];
  aggregator_addresses = some [];
  contracts = [];
  commands = [];
}

abbrev after : RouterState lib
after = record before {
  deployments = "0xa" ∷ "0xb" ∷ [];
  given = record { address = "0xb"; chain_id = pos 1; name = none } ∷ [];
  router_addresses = some ("0xa" ∷ "0xb" ∷ []);
  contracts = ("0xb", "0xb") ∷ [];
  commands = ("router_addresses", some ("0xa" ∷ "0xb" ∷ [])) ∷ [];
}

add_routers_test : add_routers lib (ok (some chain, pos 1)) before ≡ (after, ok tt)
unfolding add_routers contains String_discrete
add_routers_test = refl

-- On a service without the method, nothing is added.
undefined_test : add_routers lib (raise attribute_error) before ≡ (before, raise attribute_error)
unfolding add_routers
undefined_test = refl

add_aggregators_test :
    (add_aggregators lib (ok (some chain, pos 1)) before).0.aggregator_addresses ≡ some ("0xc" ∷ [])
unfolding add_aggregators
add_aggregators_test = refl

-- The state of a bot has neither of the two lists.
without_lists_test :
    add_routers lib (ok (some chain, pos 1)) (record before { router_addresses = none })
    ≡ (record before { router_addresses = none }, raise attribute_error)
unfolding add_routers
without_lists_test = refl
