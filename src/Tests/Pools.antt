-- ===== src/Tests/Pools.antt =====
-- load_pools on three pools, one of them blacklisted, and two arbitrages.
use cream_bots.Prelude.{
  String, String_discrete, false, none, some, List, [], ◌∷◌, ◌≡◌, refl, sym, ap, Result, ok, raise,
}
use cream_bots.Prelude.Int.{pos}
use cream_bots.Prelude.Dict.{Dict}
use cream_bots.Builders.LpFetcher.{Lp}
use cream_bots.Blacklist.{Blacklists}
use cream_bots.Pools.{ArbData, Cycles, load_pools}
use cream_bots.Tests.Toy.{ToyCycle, toy}

abbrev pub pool : String → Lp
pool address = record {
  pool_address = address;
  fee = none;
  token0 = "weth";
  token1 = "dai";
  block_number = 7;
  pool_id = false;
  type = "UniswapV2";
  exchange = "uniswap";
}

abbrev pool_files : List Lp
pool_files = pool "0xa" ∷ pool "0xb" ∷ pool "0xc" ∷ []

abbrev pub lists : Blacklists
lists = record { arbs = "arb z" ∷ []; deployers = []; pools = "0xc" ∷ []; tokens = [] }

abbrev arb_files : Dict String ArbData
arb_files =
    ("arb 1", record { id = "arb 1"; path = "0xa" ∷ "0xb" ∷ [] })
    ∷ ("arb 2", record { id = "arb 2"; path = "0xa" ∷ "0xc" ∷ [] })
    ∷ []

abbrev pub cycle : List String → String → ToyCycle
cycle pools id = record { id = id; pools = pools; profit = pos 0 }

abbrev pub id_of : Result ToyCycle → String
id_of (ok c) = c.id
id_of (raise _) = ""

abbrev pub pools_of : Result ToyCycle → List String
pools_of (ok c) = c.pools
pools_of (raise _) = []

abbrev pub toy_cycles : Cycles toy
toy_cycles = record {
  all_pools = λ a. some a;
  make_cycle = λ ps id. ok (cycle ps id);
  id_of_cycle = λ ps id c e. sym (ap id_of e);
  pools_of_cycle = λ ps id c e. sym (ap pools_of e);
}

-- The path through the blacklisted pool is left out.
load_test :
    load_pools toy toy_cycles lists pool_files arb_files []
    ≡ ok (("arb 1", record { lp_cycle = cycle ("0xa" ∷ "0xb" ∷ []) "arb 1"; status = "load" }) ∷ [])
unfolding load_pools String_discrete
load_test = refl
