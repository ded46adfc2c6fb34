-- ===== src/Tests/Loading.antt =====
-- load_pools on the files of two exchanges, and where a file is missing.
use cream_bots.Prelude.{
  String, String_discrete, true, false, some, List, [], ◌∷◌, ◌≡◌, refl, Result, ok, holds,
  if◌then◌else◌,
}
use cream_bots.Prelude.Int.{pos}
use cream_bots.Prelude.Ends.{Ends}
use cream_bots.Json.{truthy, Value, Value_discrete, null, text, number}
use cream_bots.Builders.LpFetcher.{Lp}
use cream_bots.Pools.Loading.{DataDir, LoadState, LoadSetup, load_pools_method}
use cream_bots.Pools.Loading.Live.{IsLive, load_pools_method-Ends}
use cream_bots.Pools.Loading.Table.{IsDown}
use cream_bots.Tests.Toy.{toy}
use cream_bots.Tests.Pools.{lists, toy_cycles, pool}
use cream_bots.Tests.Helpers.{lib, v3_pool, before}

abbrev pub lp_file : String → String → Result (List Lp)
unfolding String_discrete
lp_file name version =
    if holds (String_discrete version "2") then ok (pool "0xa" ∷ []) else ok (v3_pool ∷ [])

abbrev pub data_dir : DataDir
data_dir = record {
  lp_file = lp_file;
  arb_paths_2 = ok (("arb 1", record { id = "arb 1"; path = "0xa" ∷ "0xb" ∷ [] }) ∷ []);
  arb_paths_3 = ok (("arb z", record { id = "arb z"; path = "0xa" ∷ [] }) ∷ []);
}

abbrev setup : Value → LoadSetup toy lib (λ _. toy_cycles) (ok tt)
setup first_event = record {
  blacklists = lists;
  v2_factories = some (("uniswap", text "0xf2") ∷ []);
  v3_factories = some (("pancakeswap", text "0xf3") ∷ []);
  pool_managers = (text "0xf2", "v2 manager") ∷ (text "0xf3", "v3 manager") ∷ [];
  first_event = first_event;
}

abbrev start : LoadState toy lib (λ _. toy_cycles) (ok tt)
start = record {
  helpers = before;
  liquidity_pool_data = [];
  unique_pool_addresses = [];
  all_arbs = [];
  pools_loaded = false;
  live = false;
}

live_test :
    (load_pools_method toy lib
      (λ _. toy_cycles)
      (ok tt)
      data_dir
      (setup (number (pos 8)))
      start).0.live
    ≡ true
unfolding load_pools_method String_discrete Value_discrete truthy
live_test = refl

-- Without a first event, the method raises, and the bot does not go live.
waiting_test :
    (load_pools_method toy lib (λ _. toy_cycles) (ok tt) data_dir (setup null) start).0.live ≡ false
unfolding load_pools_method String_discrete Value_discrete truthy
waiting_test = refl

load_pools_method-Ends_example :
    Ends
      (λ _ s'. IsLive toy lib (λ _. toy_cycles) (ok tt) data_dir (setup (number (pos 8))) start s')
      (λ s'. IsDown toy lib (λ _. toy_cycles) (ok tt) data_dir (setup (number (pos 8))) start s')
      (load_pools_method toy lib (λ _. toy_cycles) (ok tt) data_dir (setup (number (pos 8))) start)
load_pools_method-Ends_example =
    load_pools_method-Ends toy lib (λ _. toy_cycles) (ok tt) data_dir (setup (number (pos 8))) start
