-- ===== src/Tests/TwoPool.antt =====
-- The builder of two-pool paths on three pools.
use mathlib.Core.List.Memᴰ.{head, tail}
use cream_bots.Prelude.{
  String, String_discrete, none, List, [], ◌∷◌, ◌≡◌, refl, inl, inr, ne_of_compare, true, false,
}
use cream_bots.Prelude.Dict.{keys}
use cream_bots.Builders.LpFetcher.{Lp}
use cream_bots.Builders.TwoPool.{arb_path, other_token, two_pool_arb_paths}
use cream_bots.Builders.TwoPool.Paths.{IsPathOf, loaded, two_pool_arb_paths-IsSound}
use cream_bots.Builders.TwoPool.Complete.{IsSaved, two_pool_arb_paths-IsSaved}

abbrev pub pool : String → String → String → Lp
pool address token0 token1 = record {
  pool_address = address;
  fee = none;
  token0 = token0;
  token1 = token1;
  block_number = 7;
  pool_id = false;
  type = "UniswapV2";
  exchange = "uniswap";
}

abbrev v2 : List Lp
v2 = record (pool "0xa" "weth" "dai") { pool_id = true } ∷ pool "0xc" "dai" "usdc" ∷ []

abbrev v3 : List Lp
v3 = pool "0xb" "dai" "weth" ∷ []

-- In place of the hash: the address of the first pool, which tells the two paths apart.
abbrev first_address : String → String → String
first_address a b = a

found_test : keys (two_pool_arb_paths first_address "weth" v2 v3) ≡ "0xa" ∷ "0xb" ∷ []
unfolding two_pool_arb_paths String_discrete
found_test = refl

two_pool_arb_paths-IsSound_example :
    IsPathOf first_address "weth"
      (loaded v2 v3)
      "0xb"
      (arb_path first_address "weth" (pool "0xb" "dai" "weth") (pool "0xa" "weth" "dai"))
unfolding two_pool_arb_paths arb_path String_discrete
two_pool_arb_paths-IsSound_example =
    two_pool_arb_paths-IsSound first_address "weth" v2 v3 "0xb"
      (arb_path first_address "weth" (pool "0xb" "dai" "weth") (pool "0xa" "weth" "dai")) refl

two_pool_arb_paths-IsSaved_example :
    IsSaved first_address "weth"
      (loaded v2 v3)
      "0xa"
      (two_pool_arb_paths first_address "weth" v2 v3)
unfolding two_pool_arb_paths other_token String_discrete
two_pool_arb_paths-IsSaved_example =
    two_pool_arb_paths-IsSaved first_address "weth" v2 v3 (pool "0xa" "weth" "dai")
      (pool "0xb" "dai" "weth")
      (record {
        first_pool = head refl;
        second_pool = tail (tail (head refl));
        starts = inl refl;
        connects = inl refl;
        ends = inr refl;
        apart = ne_of_compare "0xb" "0xa" refl;
      })
