-- ===== src/Builders/TwoPool.antt =====
-- builders/arbs_2pool.py: the arbitrage paths of two pools, from the loaded pool data on.
pub mod Index
pub mod Paths
pub mod Complete
use cream_bots.Prelude.{
  String, String_discrete, Bool, true, false, ◌||◌, Option, none, some, List, [], ◌∷◌, ◌++◌, foldl,
  holds, if◌then◌else◌,
}
use cream_bots.Prelude.Dict.{Dict, get, put, values}
use cream_bots.Builders.LpFetcher.{Lp}

-- The loops over the files of one version: the entries, without their key `pool_id`, by address.
unfoldable pub load_pools : List Lp → Dict String Lp → Dict String Lp
unfolding put String_discrete
load_pools [] lp_data = lp_data
load_pools (p ∷ ps) lp_data =
    load_pools ps (put String_discrete p.pool_address (record p { pool_id = false }) lp_data)

-- `{**v2_lp_data, **v3_lp_data}`
unfoldable pub all_pools : Dict String Lp → Dict String Lp → Dict String Lp
unfolding put String_discrete
all_pools v2_lp_data v3_lp_data =
    foldl (λ d e. put String_discrete (e.0) (e.1) d) v2_lp_data v3_lp_data

abbrev pub TokenToPools : Type 0
TokenToPools = Dict String (List Lp)

abbrev pub or_empty : Option (List Lp) → List Lp
or_empty none = []
or_empty (some pools) = pools

-- `token_to_pools.get(token, [])`
unfoldable pub pools_of : String → TokenToPools → List Lp
unfolding get String_discrete
pools_of token d = or_empty (get String_discrete token d)

-- `if token not in token_to_pools: token_to_pools[token] = []`
unfoldable pub ensure : String → TokenToPools → TokenToPools
unfolding get put String_discrete
ensure token d = elim (get String_discrete token d) [
  | none ↦ put String_discrete token [] d
  | some _ ↦ d
]

-- `token_to_pools[token].append(pool)`, where the token has its list.
unfoldable pub append_pool : String → Lp → TokenToPools → TokenToPools
unfolding pools_of put String_discrete
append_pool token pool d = put String_discrete token (pools_of token d ++ pool ∷ []) d

unfoldable pub index_pool : Lp → TokenToPools → TokenToPools
unfolding ensure append_pool
index_pool pool d =
    append_pool pool.token1 pool
      (append_pool pool.token0 pool (ensure pool.token1 (ensure pool.token0 d)))

-- The loop that populates `token_to_pools`.
unfoldable pub token_to_pools : List Lp → TokenToPools → TokenToPools
unfolding index_pool
token_to_pools [] d = d
token_to_pools (pool ∷ pools) d = token_to_pools pools (index_pool pool d)

-- A value of `two_pool_arb_paths`.
pub record ArbPath : Type 0 where
  pub id : String
  pub pools : Dict String Lp
  pub arb_types : List String
  pub path : List String

-- `path_id a b` is `w3.keccak(hexstr="".join([a[2:], b[2:]])).hex()`, at two addresses.
module _ (path_id : String → String → String) (start_token : String) where
  unfoldable pub has_start : Lp → Bool
  unfolding String_discrete
  has_start p =
      holds (String_discrete p.token0 start_token) || holds (String_discrete p.token1 start_token)

  unfoldable pub other_token : Lp → String
  unfolding String_discrete
  other_token p = if holds (String_discrete p.token0 start_token) then p.token1 else p.token0

  unfoldable pub arb_path : Lp → Lp → ArbPath
  unfolding put String_discrete
  arb_path a b = record {
    id = path_id a.pool_address b.pool_address;
    pools = put String_discrete b.pool_address b (put String_discrete a.pool_address a []);
    arb_types = "cycle" ∷ [];
    path = a.pool_address ∷ b.pool_address ∷ [];
  }

  -- The body of the inner loop.
  unfoldable pub add_path : Lp → Lp → Dict String ArbPath → Dict String ArbPath
  unfolding has_start arb_path put String_discrete
  add_path a b d =
      if has_start b
      then if holds (String_discrete b.pool_address a.pool_address)
        then d
        else put String_discrete (path_id a.pool_address b.pool_address) (arb_path a b) d
      else d

  unfoldable pub paths_from : Lp → List Lp → Dict String ArbPath → Dict String ArbPath
  unfolding add_path
  paths_from a [] d = d
  paths_from a (b ∷ bs) d = paths_from a bs (add_path a b d)

  -- The outer loop, over the pools of the start token.
  unfoldable pub all_paths : TokenToPools → List Lp → Dict String ArbPath → Dict String ArbPath
  unfolding has_start other_token paths_from pools_of
  all_paths index [] d = d
  all_paths index (a ∷ rest) d =
      all_paths index rest
        (if has_start a then paths_from a (pools_of (other_token a) index) d else d)

  -- From the files of both versions to `two_pool_arb_paths`.
  unfoldable pub two_pool_arb_paths : (v2_files v3_files : List Lp) → Dict String ArbPath
  unfolding load_pools all_pools token_to_pools all_paths pools_of
  two_pool_arb_paths v2_files v3_files =
      let pools = values (all_pools (load_pools v2_files []) (load_pools v3_files [])) in
      let index = token_to_pools pools [] in all_paths index (pools_of start_token index) []
