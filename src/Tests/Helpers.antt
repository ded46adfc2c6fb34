-- ===== src/Tests/Helpers.antt =====
-- The helpers of a v2 pool, whose manager raises a ManagerError, and of a v3 pool.
use cream_bots.Prelude.{
  ℕ, suc, String, String_discrete, Bool, true, some, List, [], ◌∷◌, ◌≡◌, refl, Result, ok, raise,
  manager_error, Memᴰ, ◌↔◌,
}
use cream_bots.Prelude.Int.{pos}
use cream_bots.Prelude.Dict.{Dict}
use cream_bots.Json.{Value_discrete, text, number}
use cream_bots.Builders.LpFetcher.{Lp}
use cream_bots.Pools.{ArbData}
use cream_bots.Pools.Helpers.{
  PoolLib, Setup, HelpersState, PoolRequest, v2_request, v3_request, unique_pool_addresses,
  create_pool_helpers,
}
use cream_bots.Pools.Helpers.Unique.{OnPath, Loaded, mem-unique_pool_addresses}
use cream_bots.Tests.Pools.{pool}

abbrev pub get_pool : String → PoolRequest → ℕ → ℕ × Result Bool
get_pool manager (v2_request a block) calls = (suc calls, raise manager_error)
get_pool manager (v3_request a block fee) calls = (suc calls, ok true)

-- A helper is whether it is one of a v3 pool.
abbrev pub lib : PoolLib
lib = record {
  Store = ℕ;
  Manager = String;
  Helper = Bool;
  get_pool = get_pool;
  is_v3 = λ helper. helper;
}

abbrev pub v3_pool : Lp
v3_pool = record (pool "0xb") { type = "UniswapV3"; exchange = "pancakeswap"; fee = some 500 }

abbrev pub pool_data : Dict String Lp
pool_data = ("0xa", pool "0xa") ∷ ("0xb", v3_pool) ∷ []

abbrev pub setup : Setup lib
setup = record {
  pool_managers = (text "0xf2", "v2 manager") ∷ (text "0xf3", "v3 manager") ∷ [];
  v2_factories = ("uniswap", text "0xf2") ∷ [];
  v3_factories = ("pancakeswap", text "0xf3") ∷ [];
  first_event = number (pos 8);
  liquidity_pool_data = pool_data;
}

abbrev arbs : List ArbData
arbs =
    record { id = "arb 1"; path = "0xa" ∷ "0xb" ∷ [] }
    ∷ record { id = "arb 2"; path = "0xb" ∷ "0xc" ∷ "0xa" ∷ [] }
    ∷ []

unique_test : unique_pool_addresses pool_data arbs [] ≡ "0xa" ∷ "0xb" ∷ []
unfolding unique_pool_addresses String_discrete
unique_test = refl

abbrev pub before : HelpersState lib
before = record { store = 0; v2_pools = 0; v3_pools = 0; asked = [] }

helpers_test : create_pool_helpers lib setup ("0xa" ∷ "0xb" ∷ []) before ≡ (
  record {
    store = 2;
    v2_pools = 0;
    v3_pools = 1;
    asked =
        ("v2 manager", v2_request "0xa" (pos 7))
        ∷ ("v3 manager", v3_request "0xb" (pos 7) (some 500))
        ∷ [];
  },
  ok tt,
)
unfolding create_pool_helpers String_discrete Value_discrete
helpers_test = refl

mem-unique_pool_addresses_example :
    Memᴰ "0xb" (unique_pool_addresses pool_data arbs [])
    ↔ (OnPath pool_data arbs "0xb" × Loaded pool_data "0xb")
mem-unique_pool_addresses_example = mem-unique_pool_addresses pool_data arbs "0xb"
