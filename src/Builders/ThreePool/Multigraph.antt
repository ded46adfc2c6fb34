-- ===== src/Builders/ThreePool/Multigraph.antt =====
-- What networkx documents of its multigraphs, and the edges of the graph that the script builds.
use cream_bots.Prelude.{
  String, String_discrete, true, Option, some, List, [], ◌∷◌, ◌++◌, map, ◌≡◌, ◌≢◌, ◌↔◌, ◌⊎◌, inl,
  inr, refl, sym, ap, ◌∙◌, subst, Memᴰ, ◌≤◌, ok,
}
use mathlib.Core.List.Memᴰ
use mathlib.Core.List.{append_assoc, append-nil}
use cream_bots.Prelude.Dict.{Dict, values, get}
use cream_bots.Builders.LpFetcher.{Lp}
use cream_bots.Builders.ThreePool.{PoolEdge, Networkx, add_edges, graph_of_pools, pool_dict}

abbrev pub GraphEdge : Type 0
GraphEdge = String × (String × PoolEdge)

-- One of the edges joins u and v, in either direction.
abbrev pub Joined : List GraphEdge → String → String → PoolEdge → Type 0
Joined edges u v e = Memᴰ (u, (v, e)) edges ⊎ Memᴰ (v, (u, e)) edges

pub Joined-sym :
    (edges : List GraphEdge) (u v : String) (e : PoolEdge) → Joined edges u v e → Joined edges v u e
Joined-sym edges u v e (inl m) = inr m
Joined-sym edges u v e (inr m) = inl m

-- The operations follow the edges that were added.
pub record IsMultigraph (nx : Networkx) : Type 0 where
  pub edges_of : nx.MultiGraph → List GraphEdge
  pub edges_of_new : edges_of nx.multi_graph ≡ []
  pub edges_of_added :
      (u v : String) (e : PoolEdge) (g : nx.MultiGraph)
      → edges_of (nx.add_edge u v e g) ≡ edges_of g ++ (u, (v, e)) ∷ []
  pub neighbors_of_joined :
      (g : nx.MultiGraph) (u v : String) (e : PoolEdge)
      → Joined (edges_of g) u v e
      → (vs : List String) × (nx.neighbors g u ≡ ok vs)
  pub mem_neighbors :
      (g : nx.MultiGraph) (u : String) (vs : List String) (v : String)
      → nx.neighbors g u ≡ ok vs
      → Memᴰ v vs ↔ ((e : PoolEdge) × Joined (edges_of g) v u e)
  pub degree_of_joined :
      (g : nx.MultiGraph) (t u v : String) (e f : PoolEdge)
      → Joined (edges_of g) t u e
      → Joined (edges_of g) t v f
      → u ≢ v
      → 2 ≤ nx.degree g t
  pub has_edge_iff :
      (g : nx.MultiGraph) (u v : String)
      → (nx.has_edge g u v ≡ true) ↔ ((e : PoolEdge) × Joined (edges_of g) u v e)
  pub data_of_joined :
      (g : nx.MultiGraph) (u v : String) (e : PoolEdge)
      → Joined (edges_of g) u v e
      → (es : List PoolEdge) × (nx.get_edge_data g u v ≡ some es)
  pub mem_data :
      (g : nx.MultiGraph) (u v : String) (es : List PoolEdge) (e : PoolEdge)
      → nx.get_edge_data g u v ≡ some es
      → Memᴰ e es ↔ Joined (edges_of g) u v e

-- The edge of a pool.
abbrev pub edge_of : String → Lp → GraphEdge
edge_of pool_type pool =
    (pool.token0, (pool.token1, record { lp_address = pool.pool_address; pool_type = pool_type }))

-- The edges of the loaded pools.
abbrev pub pool_edges : (v2_lp_data v3_lp_data : Dict String Lp) → List GraphEdge
pool_edges v2_lp_data v3_lp_data =
    map (edge_of "UniswapV2") (values v2_lp_data) ++ map (edge_of "UniswapV3") (values v3_lp_data)

module _ (nx : Networkx) (laws : IsMultigraph nx) where
  edges_of-add_edges :
      (t : String) (pools : List Lp) (g : nx.MultiGraph)
      → laws.edges_of (add_edges nx t pools g) ≡ laws.edges_of g ++ map (edge_of t) pools
  unfolding add_edges
  edges_of-add_edges t [] g = sym (append-nil (laws.edges_of g))
  edges_of-add_edges t (p ∷ pools) g =
      edges_of-add_edges t pools _
      ∙ ap (λ es. es ++ map (edge_of t) pools) (laws.edges_of_added p.token0 p.token1 _ g)
      ∙ append_assoc (laws.edges_of g) (edge_of t p ∷ []) (map (edge_of t) pools)

  pub edges_of-graph :
      (v2_lp_data v3_lp_data : Dict String Lp)
      → laws.edges_of (graph_of_pools nx v2_lp_data v3_lp_data) ≡ pool_edges v2_lp_data v3_lp_data
  unfolding graph_of_pools
  edges_of-graph v2_lp_data v3_lp_data =
      edges_of-add_edges "UniswapV3" (values v3_lp_data) _
      ∙ ap (λ es. es ++ map (edge_of "UniswapV3") (values v3_lp_data))
          (edges_of-add_edges "UniswapV2" (values v2_lp_data) nx.multi_graph
            ∙ ap (λ es. es ++ map (edge_of "UniswapV2") (values v2_lp_data)) laws.edges_of_new)

module _ (path_id : String → String → String → String)
    (v2_lp_data v3_lp_data : Dict String Lp) where
  pool_dict_mem :
      {u v : String} {e : PoolEdge}
      → Memᴰ (u, (v, e)) (pool_edges v2_lp_data v3_lp_data)
      → (found : Option Lp) × (pool_dict path_id v2_lp_data v3_lp_data e ≡ ok (e, found))
  unfolding pool_dict String_discrete
  pool_dict_mem m = elim (Memᴰ.append_cases (map (edge_of "UniswapV2") (values v2_lp_data)) m) [
    | inl l ↦
        let (p, n, h) = Memᴰ.of_map (edge_of "UniswapV2") (values v2_lp_data) l in
        let same = ap (λ x. x.1.1) h in
        subst
          (λ e. (found : Option Lp) × (pool_dict path_id v2_lp_data v3_lp_data e ≡ ok (e, found)))
          same (get String_discrete p.pool_address v2_lp_data, refl)
    | inr r ↦
        let (p, n, h) = Memᴰ.of_map (edge_of "UniswapV3") (values v3_lp_data) r in
        let same = ap (λ x. x.1.1) h in
        subst
          (λ e. (found : Option Lp) × (pool_dict path_id v2_lp_data v3_lp_data e ≡ ok (e, found)))
          same (get String_discrete p.pool_address v3_lp_data, refl)
  ]

  -- The type of every edge is one of the two.
  pub pool_dict-Joined :
      (u v : String) (e : PoolEdge)
      → Joined (pool_edges v2_lp_data v3_lp_data) u v e
      → (found : Option Lp) × (pool_dict path_id v2_lp_data v3_lp_data e ≡ ok (e, found))
  pool_dict-Joined u v e (inl m) = pool_dict_mem m
  pool_dict-Joined u v e (inr m) = pool_dict_mem m
