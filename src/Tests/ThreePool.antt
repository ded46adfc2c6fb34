-- ===== src/Tests/ThreePool.antt =====
-- The builder of three-pool paths on three pools, of which one has the version 3.
use mathlib.Core.List.Memᴰ.{head, tail}
use cream_bots.Prelude.{
  String, String_discrete, some, List, [], ◌∷◌, ◌≡◌, refl, inl, inr, ne_of_compare, Result, ok,
  raise,
}
use cream_bots.Prelude.Dict.{Dict, keys}
use cream_bots.Builders.LpFetcher.{Lp}
use cream_bots.Builders.TwoPool.{load_pools}
use cream_bots.Builders.ThreePool.{
  PoolEdge, PathPool, PoolsPath, id_of, pool_dict, three_pool_arb_paths,
}
use cream_bots.Builders.ThreePool.Triangles.{IsSound, IsSaved, IsTriangle}
use cream_bots.Builders.ThreePool.Found.{three_pool_arb_paths-IsSound, three_pool_arb_paths-IsSaved}
use cream_bots.Tests.TwoPool.{pool}
use cream_bots.Tests.Graph.{edge_lists, edge_lists-IsMultigraph}

abbrev weth_dai : Lp
weth_dai = pool "0xa" "weth" "dai"

abbrev dai_usdc : Lp
dai_usdc = pool "0xb" "dai" "usdc"

abbrev usdc_weth : Lp
usdc_weth = pool "0xc" "usdc" "weth"

abbrev v2 : List Lp
v2 = weth_dai ∷ dai_usdc ∷ []

abbrev v3 : List Lp
v3 = usdc_weth ∷ []

-- In place of the hash: the address of the first pool.
abbrev first_address : String → String → String → String
first_address a b c = a

abbrev keys_of : Result (Dict String PoolsPath) → List String
keys_of (ok d) = keys d
keys_of (raise _) = []

found_test :
    keys_of (three_pool_arb_paths first_address edge_lists "weth" v2 v3) ≡ "0xa" ∷ "0xc" ∷ []
unfolding three_pool_arb_paths String_discrete
found_test = refl

no_start_test : keys_of (three_pool_arb_paths first_address edge_lists "wbtc" v2 v3) ≡ []
unfolding three_pool_arb_paths String_discrete
no_start_test = refl

abbrev edge : String → String → PoolEdge
edge address version = record { lp_address = address; pool_type = version }

three_pool_arb_paths-IsSound_example :
    (d : Dict String PoolsPath) × (three_pool_arb_paths first_address edge_lists "weth" v2 v3
      ≡ ok d)
    × IsSound first_address "weth" (load_pools v2 []) (load_pools v3 []) d
unfolding load_pools String_discrete
three_pool_arb_paths-IsSound_example =
    three_pool_arb_paths-IsSound first_address edge_lists edge_lists-IsMultigraph "weth" v2 v3 "dai"
      (edge "0xa" "UniswapV2") (inr (head refl))

abbrev first : PathPool
first = (edge "0xa" "UniswapV2", some weth_dai)

abbrev second : PathPool
second = (edge "0xb" "UniswapV2", some dai_usdc)

abbrev third : PathPool
third = (edge "0xc" "UniswapV3", some usdc_weth)

abbrev triangle :
    IsTriangle first_address "weth" (load_pools v2 []) (load_pools v3 []) first second third
unfolding load_pools pool_dict String_discrete
triangle = record {
  token_a = "dai";
  token_b = "usdc";
  starts = inr (head refl);
  connects = inl (tail (head refl));
  ends = inl (tail (tail (head refl)));
  found_a = refl;
  found_b = refl;
  found_c = refl;
}

three_pool_arb_paths-IsSaved_example :
    (d : Dict String PoolsPath) × (three_pool_arb_paths first_address edge_lists "weth" v2 v3
      ≡ ok d)
    × IsSaved first_address "weth"
        (load_pools v2 [])
        (load_pools v3 [])
        (id_of first_address first second third)
        d
unfolding triangle
three_pool_arb_paths-IsSaved_example =
    three_pool_arb_paths-IsSaved first_address edge_lists edge_lists-IsMultigraph "weth" v2 v3 first
      second third triangle
      (record {
        a_b = ne_of_compare "dai" "usdc" refl;
        w_a = ne_of_compare "weth" "dai" refl;
        w_b = ne_of_compare "weth" "usdc" refl;
      })
