-- ===== src/Builders/ThreePool/Pairs.antt =====
-- A round of the search, for one pair of tokens.
use cream_bots.Prelude.{String, Bool-cases, some, List, ◌≡◌, inl, inr, refl, sym, subst, Memᴰ}
use cream_bots.Prelude.Dict.{Dict}
use cream_bots.Prelude.Loops.{
  Runs, for_each-Runs, for_each-reaches, product, mem-product, mem_of_product,
}
use cream_bots.Builders.LpFetcher.{Lp}
use cream_bots.Builders.ThreePool.{
  PoolEdge, Networkx, PathPool, PoolsPath, store_paths, add_swap_pools, graph_of_pools,
  add_token_pair,
}
use cream_bots.Builders.ThreePool.Multigraph.{IsMultigraph, Joined, pool_edges, edges_of-graph}
use cream_bots.Builders.ThreePool.Triangles.{IsTriangle, Has, store_paths-Has, add_swap_pools-Runs}

module _ (path_id : String → String → String → String) (nx : Networkx) (laws : IsMultigraph nx)
    (wrapped_token : String) where
  module _ (v2_lp_data v3_lp_data : Dict String Lp) where
    abbrev pub graph : nx.MultiGraph
    graph = graph_of_pools nx v2_lp_data v3_lp_data

    abbrev pub Joins : String → String → PoolEdge → Type 0
    Joins = Joined (pool_edges v2_lp_data v3_lp_data)

    pub to_Joins : (u v : String) (e : PoolEdge) → Joined (laws.edges_of graph) u v e → Joins u v e
    to_Joins u v e = subst (λ es. Joined es u v e) (edges_of-graph nx laws v2_lp_data v3_lp_data)

    pub of_Joins : (u v : String) (e : PoolEdge) → Joins u v e → Joined (laws.edges_of graph) u v e
    of_Joins u v e =
        subst (λ es. Joined es u v e) (sym (edges_of-graph nx laws v2_lp_data v3_lp_data))

    -- The pools between two tokens, if there are any.
    data_between :
        (u v : String) (e : PoolEdge)
        → Joins u v e
        → (es : List PoolEdge) × (nx.get_edge_data graph u v ≡ some es)
          × ((f : PoolEdge) → Memᴰ f es → Joins u v f)
          × ((f : PoolEdge) → Joins u v f → Memᴰ f es)
    data_between u v e j =
        let (es, h) = laws.data_of_joined graph u v e (of_Joins u v e j) in
        (
          es,
          h,
          λ f m. to_Joins u v f ((laws.mem_data graph u v es f h).0 m),
          λ f k. (laws.mem_data graph u v es f h).1 (of_Joins u v f k),
        )

    abbrev pub Trades : String → Type 0
    Trades t = (e : PoolEdge) × Joins t wrapped_token e

    -- What is kept by storing a triangle, and its reversed path, is kept by a pair of tokens.
    pub add_token_pair-Runs :
        (P : Dict String PoolsPath → Type 0)
        → ((x y z : PathPool)
            → IsTriangle path_id wrapped_token v2_lp_data v3_lp_data x y z
            → (d : Dict String PoolsPath) → P d
            → P (store_paths path_id x y z d))
        → (ta tb : String) → Trades ta
        → Trades tb
        → Runs P P (add_token_pair path_id v2_lp_data v3_lp_data nx wrapped_token graph (ta, tb))
    unfolding add_token_pair
    add_token_pair-Runs P step ta tb (ea, ja) (eb, jb) d p =
        elim (Bool-cases (nx.has_edge graph ta tb)) [
          | inr f ↦ rw f (d, refl, p)
          | inl t ↦
              let (e, je) = (laws.has_edge_iff graph ta tb).0 t in
              let (xs, ha, of_a, _) = data_between ta wrapped_token ea ja in
              let (bs, hb, of_b, _) = data_between ta tb e (to_Joins ta tb e je) in
              let (cs, hc, of_c, _) = data_between tb wrapped_token eb jb in
              rw (t, ha, hb, hc)
                (for_each-Runs (add_swap_pools path_id v2_lp_data v3_lp_data) P
                  (product xs (product bs cs))
                  (λ pools m.
                    let (ma, rest) = mem_of_product xs (product bs cs) m in
                    let (mb, mc) = mem_of_product bs cs rest in
                    add_swap_pools-Runs path_id wrapped_token v2_lp_data v3_lp_data P P ta tb
                      pools.0 pools.1.0 pools.1.1 (of_a _ ma) (of_b _ mb) (of_c _ mc) step)
                  d p)
        ]

    -- A pair of tokens stores what its triangle stores.
    pub Has-add_token_pair :
        (id : String) (a b c : PathPool)
        (t : IsTriangle path_id wrapped_token v2_lp_data v3_lp_data a b c)
        → ((d : Dict String PoolsPath)
            → Has path_id wrapped_token v2_lp_data v3_lp_data id (store_paths path_id a b c d))
        → Runs
            (λ _. Unit {0})
            (Has path_id wrapped_token v2_lp_data v3_lp_data id)
            (add_token_pair path_id v2_lp_data v3_lp_data nx wrapped_token graph
              (t.token_a, t.token_b))
    unfolding add_token_pair add_swap_pools
    Has-add_token_pair id a b c t stored d p =
        let (xs, ha, of_a, in_a) = data_between t.token_a wrapped_token a.0 t.starts in
        let (bs, hb, of_b, in_b) = data_between t.token_a t.token_b b.0 t.connects in
        let (cs, hc, of_c, in_c) = data_between t.token_b wrapped_token c.0 t.ends in
        let holds_edge =
          (laws.has_edge_iff graph t.token_a t.token_b).1
            (b.0, of_Joins t.token_a t.token_b b.0 t.connects) in
        let step : (P : Dict String PoolsPath → Type 0)
            → ((x y z : PathPool)
                → IsTriangle path_id wrapped_token v2_lp_data v3_lp_data x y z
                → (d : Dict String PoolsPath) → P d
                → P (store_paths path_id x y z d))
            → (pools : PoolEdge × (PoolEdge × PoolEdge)) → Memᴰ pools (product xs (product bs cs))
            → Runs P P (add_swap_pools path_id v2_lp_data v3_lp_data pools) =
          λ P keep pools m.
            let (ma, rest) = mem_of_product xs (product bs cs) m in
            let (mb, mc) = mem_of_product bs cs rest in
            add_swap_pools-Runs path_id wrapped_token v2_lp_data v3_lp_data P P t.token_a t.token_b
              pools.0 pools.1.0 pools.1.1 (of_a _ ma) (of_b _ mb) (of_c _ mc) keep in
        rw (holds_edge, ha, hb, hc)
          (for_each-reaches (add_swap_pools path_id v2_lp_data v3_lp_data) (λ _. Unit {0})
            (Has path_id wrapped_token v2_lp_data v3_lp_data id) (product xs (product bs cs))
            (step (λ _. Unit {0}) (λ _ _ _ _ _ _. tt))
            (step (Has path_id wrapped_token v2_lp_data v3_lp_data id) (λ x y z _ e h.
              store_paths-Has path_id wrapped_token v2_lp_data v3_lp_data id x y z e h))
            (mem-product xs (product bs cs) (in_a a.0 t.starts)
              (mem-product bs cs (in_b b.0 t.connects) (in_c c.0 t.ends)))
            (λ e _.
              (store_paths path_id a b c e, rw (t.found_a, t.found_b, t.found_c) refl, stored e))
            d p)
