-- ===== src/Builders/ThreePool.antt =====
-- builders/arbs_3pool.py: the arbitrage paths of three pools, from the loaded pool data on.
pub mod Multigraph
pub mod Triangles
pub mod Pairs
pub mod Found
use cream_bots.Prelude.{
  ℕ, String, String_discrete, Bool, Option, none, some, List, [], ◌∷◌, holds, if◌then◌else◌, Result,
  ok, raise, other_error, attribute_error, ◌>>=◌, select, ltb,
}
use cream_bots.Prelude.Dict.{Dict, get, put, values}
use cream_bots.Prelude.Loops.{for_each, product, combinations}
use cream_bots.Builders.LpFetcher.{Lp}
use cream_bots.Builders.TwoPool.{load_pools}

-- The attributes of an edge of the graph.
pub record PoolEdge : Type 0 where
  pub lp_address : String
  pub pool_type : String

-- What the script uses of networkx: `MultiGraph()`, `add_edge(u, v, ...)`, `list(neighbors(u))`,
-- `degree(u)`, `(u, v) in edges()`, and the values of `get_edge_data(u, v)`, if this is a
-- dictionary.
pub record Networkx : Type 1 where
  pub MultiGraph : Type 0
  pub multi_graph : MultiGraph
  pub add_edge : (u v : String) → PoolEdge → MultiGraph → MultiGraph
  pub neighbors : MultiGraph → String → Result (List String)
  pub degree : MultiGraph → String → ℕ
  pub has_edge : MultiGraph → String → String → Bool
  pub get_edge_data : MultiGraph → String → String → Option (List PoolEdge)

-- A value of `three_pool_arb_paths`.
pub record PoolsPath : Type 0 where
  pub id : String
  pub pools : Dict String (Option Lp)
  pub arb_types : List String
  pub path : List String

-- A pool of the cycle: its edge and its dictionary, if it was found.
abbrev pub PathPool : Type 0
PathPool = PoolEdge × Option Lp

-- `data.values()`
abbrev pub edges_of_data : Option (List PoolEdge) → Result (List PoolEdge)
edges_of_data none = raise attribute_error
edges_of_data (some edges) = ok edges

module _ (nx : Networkx) where
  -- `G.add_edge(...)` for the pools of one version.
  unfoldable pub add_edges : (pool_type : String) → List Lp → nx.MultiGraph → nx.MultiGraph
  add_edges pool_type [] graph = graph
  add_edges pool_type (pool ∷ pools) graph = add_edges pool_type pools (
      nx.add_edge pool.token0 pool.token1
        (record { lp_address = pool.pool_address; pool_type = pool_type }) graph)

  unfoldable pub graph_of_pools : (v2_lp_data v3_lp_data : Dict String Lp) → nx.MultiGraph
  unfolding add_edges
  graph_of_pools v2_lp_data v3_lp_data =
      add_edges "UniswapV3" (values v3_lp_data)
        (add_edges "UniswapV2" (values v2_lp_data) nx.multi_graph)

  unfoldable pub filtered_tokens : nx.MultiGraph → List String → List String
  unfolding select
  filtered_tokens graph tokens = select (λ token. ltb 1 (nx.degree graph token)) tokens

-- `path_id a b c` is `w3.keccak(hexstr="".join([a[2:], b[2:], c[2:]])).hex()`.
module _ (path_id : String → String → String → String) where
  abbrev pub id_of : PathPool → PathPool → PathPool → String
  id_of a b c = path_id a.0.lp_address b.0.lp_address c.0.lp_address

  unfoldable pub pools_path : PathPool → PathPool → PathPool → PoolsPath
  unfolding put String_discrete
  pools_path a b c = record {
    id = id_of a b c;
    pools =
        put String_discrete c.0.lp_address c.1
          (put String_discrete b.0.lp_address b.1 (put String_discrete a.0.lp_address a.1 []));
    arb_types = "cycle" ∷ "flash_borrow_lp_swap" ∷ [];
    path = a.0.lp_address ∷ b.0.lp_address ∷ c.0.lp_address ∷ [];
  }

  -- A path and the reversed path.
  unfoldable pub store_paths :
      PathPool → PathPool → PathPool → Dict String PoolsPath → Dict String PoolsPath
  unfolding pools_path put String_discrete
  store_paths a b c d =
      put String_discrete (id_of c b a) (pools_path c b a)
        (put String_discrete (id_of a b c) (pools_path a b c) d)

  module _ (v2_lp_data v3_lp_data : Dict String Lp) where
    unfoldable pub pool_dict : PoolEdge → Result PathPool
    unfolding get String_discrete
    pool_dict pool =
        if holds (String_discrete pool.pool_type "UniswapV2")
        then ok (pool, get String_discrete pool.lp_address v2_lp_data)
        else if holds (String_discrete pool.pool_type "UniswapV3")
        then ok (pool, get String_discrete pool.lp_address v3_lp_data)
        else raise other_error

    -- The body of the loop over the products.
    unfoldable pub add_swap_pools :
        PoolEdge × (PoolEdge × PoolEdge) → Dict String PoolsPath → Result (Dict String PoolsPath)
    unfolding pool_dict store_paths
    add_swap_pools (pool_a, (pool_b, pool_c)) d = do
      a ← pool_dict pool_a
      b ← pool_dict pool_b
      c ← pool_dict pool_c
      ok (store_paths a b c d)

    module _ (nx : Networkx) (wrapped_token : String) where
      -- The body of the loop over the pairs of tokens.
      unfoldable pub add_token_pair :
          nx.MultiGraph → String × String → Dict String PoolsPath → Result (Dict String PoolsPath)
      unfolding add_swap_pools for_each product
      add_token_pair graph (token_a, token_b) d =
          if nx.has_edge graph token_a token_b
          then (do
            outside_pools_token_a ← edges_of_data (nx.get_edge_data graph token_a wrapped_token)
            inside_pools ← edges_of_data (nx.get_edge_data graph token_a token_b)
            outside_pools_token_b ← edges_of_data (nx.get_edge_data graph token_b wrapped_token)
            for_each add_swap_pools
                (product outside_pools_token_a (product inside_pools outside_pools_token_b)) d)
          else ok d

      unfoldable pub token_pair_paths : nx.MultiGraph → Result (Dict String PoolsPath)
      unfolding filtered_tokens add_token_pair for_each combinations
      token_pair_paths graph = do
        all_tokens_with_weth_pool ← nx.neighbors graph wrapped_token
        for_each (add_token_pair graph)
            (combinations (filtered_tokens nx graph all_tokens_with_weth_pool)) []

  -- From the files of both versions to `three_pool_arb_paths`.
  unfoldable pub three_pool_arb_paths :
      Networkx
      → (wrapped_token : String) (v2_files v3_files : List Lp) → Result (Dict String PoolsPath)
  unfolding load_pools graph_of_pools token_pair_paths
  three_pool_arb_paths nx wrapped_token v2_files v3_files =
      let v2_lp_data = load_pools v2_files [] in
      let v3_lp_data = load_pools v3_files [] in
      token_pair_paths v2_lp_data v3_lp_data nx wrapped_token
        (graph_of_pools nx v2_lp_data v3_lp_data)
