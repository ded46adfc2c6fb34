-- ===== src/Builders/ThreePool/Found.antt =====
-- What the search over the pairs of tokens finds.
use cream_bots.Prelude.{
  String, String_discrete, List, [], some, subst, sym, ◌∙◌, ok-injective, ◌≡◌, ◌≢◌, inl, inr, Memᴰ,
  ok, mem-select, mem_of_select, lt→ltb,
}
use cream_bots.Prelude.Dict.{Dict, get}
use cream_bots.Prelude.Loops.{
  Runs, for_each, for_each-Runs, for_each-reaches, combinations, mem-combinations,
  mem_of_combinations,
}
use cream_bots.Builders.LpFetcher.{Lp}
use cream_bots.Builders.TwoPool.{load_pools}
use cream_bots.Builders.ThreePool.{
  PoolEdge, Networkx, PathPool, PoolsPath, id_of, graph_of_pools, filtered_tokens, add_token_pair,
  token_pair_paths, three_pool_arb_paths,
}
use cream_bots.Builders.ThreePool.Multigraph.{IsMultigraph, Joined, Joined-sym, pool_edges}
use cream_bots.Builders.ThreePool.Triangles.{
  IsTriangle, IsSound, Has, IsSaved, reversed, store_paths-IsSound, store_paths-Has,
  Has-store_paths, Has-store_paths_reversed,
}
use cream_bots.Builders.ThreePool.Pairs.{
  to_Joins, of_Joins, add_token_pair-Runs, Has-add_token_pair,
}

module _ (path_id : String → String → String → String) (nx : Networkx) (laws : IsMultigraph nx)
    (wrapped_token : String) where
  module _ (v2_lp_data v3_lp_data : Dict String Lp) where
    abbrev graph : nx.MultiGraph
    graph = graph_of_pools nx v2_lp_data v3_lp_data

    abbrev Joins : String → String → PoolEdge → Type 0
    Joins = Joined (pool_edges v2_lp_data v3_lp_data)

    abbrev Trades : String → Type 0
    Trades t = (e : PoolEdge) × Joins t wrapped_token e

    -- The tokens that share a pool with the wrapped token, of which there is one.
    neighbors_are :
        (t : String)
        → Trades t
        → (ts : List String) × (nx.neighbors graph wrapped_token ≡ ok ts)
          × ((u : String) → Memᴰ u ts → Trades u)
          × ((u : String) → Trades u → Memᴰ u ts)
    neighbors_are t (e, j) =
        let (ts, h) = laws.neighbors_of_joined graph wrapped_token t e (
          Joined-sym _ t wrapped_token e
            (of_Joins path_id nx laws wrapped_token v2_lp_data v3_lp_data t wrapped_token e j)) in
        (
          ts,
          h,
          λ u m.
              let (f, k) = (laws.mem_neighbors graph wrapped_token ts u h).0 m in
              (f, to_Joins path_id nx laws wrapped_token v2_lp_data v3_lp_data u wrapped_token f k),
          λ u (f, k).
              (laws.mem_neighbors graph wrapped_token ts u h).1 (
                f,
                of_Joins path_id nx laws wrapped_token v2_lp_data v3_lp_data u wrapped_token f k,
              ),
        )

    filtered_tokens-Trades :
        (ts : List String)
        → ((u : String) → Memᴰ u ts → Trades u)
        → (u : String) → Memᴰ u (filtered_tokens nx graph ts)
        → Trades u
    unfolding filtered_tokens
    filtered_tokens-Trades ts trades u m = trades u (mem_of_select _ ts m).0

    -- A token with pools to two others is kept.
    mem-filtered_tokens :
        (ts : List String) (t u : String) (f : PoolEdge)
        → Memᴰ t ts
        → Trades t
        → Joins t u f
        → wrapped_token ≢ u
        → Memᴰ t (filtered_tokens nx graph ts)
    unfolding filtered_tokens
    mem-filtered_tokens ts t u f m (e, j) k apart = mem-select _ ts m (
        lt→ltb 1 (nx.degree graph t) (
          laws.degree_of_joined graph t wrapped_token u e f
            (of_Joins path_id nx laws wrapped_token v2_lp_data v3_lp_data t wrapped_token e j)
            (of_Joins path_id nx laws wrapped_token v2_lp_data v3_lp_data t u f k) apart))

    token_pair_paths-IsSound :
        (t : String)
        → Trades t
        → (d : Dict String PoolsPath) × (token_pair_paths path_id v2_lp_data v3_lp_data nx
              wrapped_token graph
            ≡ ok d)
          × IsSound path_id wrapped_token v2_lp_data v3_lp_data d
    unfolding token_pair_paths get
    token_pair_paths-IsSound t trades =
        let (ts, h, of_mem, _) = neighbors_are t trades in
        rw h (
          for_each-Runs (add_token_pair path_id v2_lp_data v3_lp_data nx wrapped_token graph)
            (IsSound path_id wrapped_token v2_lp_data v3_lp_data)
            (combinations (filtered_tokens nx graph ts))
            (λ pair m.
              let (ma, mb) = mem_of_combinations (filtered_tokens nx graph ts) m in
              add_token_pair-Runs path_id nx laws wrapped_token v2_lp_data v3_lp_data
                (IsSound path_id wrapped_token v2_lp_data v3_lp_data)
                (λ x y z k d s.
                  store_paths-IsSound path_id wrapped_token v2_lp_data v3_lp_data x y z d k s)
                pair.0 pair.1 (filtered_tokens-Trades ts of_mem pair.0 ma)
                (filtered_tokens-Trades ts of_mem pair.1 mb))
            [] (λ id path e. cc))

    -- The three tokens of a triangle differ.
    pub record IsApart (a b c : PathPool)
        (t : IsTriangle path_id wrapped_token v2_lp_data v3_lp_data a b c) : Type 0 where
      pub a_b : t.token_a ≢ t.token_b
      pub w_a : wrapped_token ≢ t.token_a
      pub w_b : wrapped_token ≢ t.token_b

    token_pair_paths-Has :
        (a b c : PathPool) (t : IsTriangle path_id wrapped_token v2_lp_data v3_lp_data a b c)
        → IsApart a b c t
        → (d : Dict String PoolsPath) × (token_pair_paths path_id v2_lp_data v3_lp_data nx
              wrapped_token graph
            ≡ ok d)
          × Has path_id wrapped_token v2_lp_data v3_lp_data (id_of path_id a b c) d
    unfolding token_pair_paths
    token_pair_paths-Has a b c t apart =
        let (ts, h, of_mem, in_mem) = neighbors_are t.token_a (a.0, t.starts) in
        let tokens = filtered_tokens nx graph ts in
        let has = Has path_id wrapped_token v2_lp_data v3_lp_data (id_of path_id a b c) in
        let reaches : (pair : String × String)
            → Memᴰ pair (combinations tokens)
            → Runs (λ _. Unit {0}) has
                (add_token_pair path_id v2_lp_data v3_lp_data nx wrapped_token graph pair)
            → (d : Dict String PoolsPath) × (for_each
                  (add_token_pair path_id v2_lp_data v3_lp_data nx wrapped_token graph)
                  (combinations tokens) []
                ≡ ok d)
              × has d =
          λ pair m one.
            for_each-reaches (add_token_pair path_id v2_lp_data v3_lp_data nx wrapped_token graph)
              (λ _. Unit {0}) has (combinations tokens)
              (λ p n.
                let (ma, mb) = mem_of_combinations tokens n in
                add_token_pair-Runs path_id nx laws wrapped_token v2_lp_data v3_lp_data
                  (λ _. Unit {0}) (λ _ _ _ _ _ _. tt) p.0 p.1
                  (filtered_tokens-Trades ts of_mem p.0 ma)
                  (filtered_tokens-Trades ts of_mem p.1 mb))
              (λ p n.
                let (ma, mb) = mem_of_combinations tokens n in
                add_token_pair-Runs path_id nx laws wrapped_token v2_lp_data v3_lp_data has
                  (λ x y z _ e k.
                    store_paths-Has path_id wrapped_token v2_lp_data v3_lp_data _ x y z e k)
                  p.0 p.1 (filtered_tokens-Trades ts of_mem p.0 ma)
                  (filtered_tokens-Trades ts of_mem p.1 mb))
              m one [] tt in
        rw h
          (elim (mem-combinations tokens
            (mem-filtered_tokens ts t.token_a t.token_b b.0 (in_mem t.token_a (a.0, t.starts))
              (a.0, t.starts) t.connects apart.w_b)
            (mem-filtered_tokens ts t.token_b t.token_a b.0 (in_mem t.token_b (c.0, t.ends))
              (c.0, t.ends) (Joined-sym _ t.token_a t.token_b b.0 t.connects) apart.w_a)
            apart.a_b) [
              | inl m ↦ reaches _ m (
                  Has-add_token_pair path_id nx laws wrapped_token v2_lp_data v3_lp_data
                    (id_of path_id a b c) a b c t
                    (Has-store_paths path_id wrapped_token v2_lp_data v3_lp_data a b c))
              | inr m ↦ reaches _ m (
                  Has-add_token_pair path_id nx laws wrapped_token v2_lp_data v3_lp_data
                    (id_of path_id a b c) c b a
                    (reversed path_id wrapped_token v2_lp_data v3_lp_data a b c t)
                    (Has-store_paths_reversed path_id wrapped_token v2_lp_data v3_lp_data c b a))
            ])

  -- If a loaded pool has the wrapped token, the search returns, and each entry that it saves
  -- belongs to three loaded pools that form a triangle at the wrapped token: it is their path,
  -- under the hash of their addresses.
  pub three_pool_arb_paths-IsSound :
      (v2_files v3_files : List Lp) (token : String) (edge : PoolEdge)
      → Joined
          (pool_edges (load_pools v2_files []) (load_pools v3_files []))
          token
          wrapped_token
          edge
      → (d : Dict String PoolsPath) × (three_pool_arb_paths path_id nx wrapped_token v2_files
            v3_files
          ≡ ok d)
        × IsSound path_id wrapped_token (load_pools v2_files []) (load_pools v3_files []) d
  unfolding three_pool_arb_paths
  three_pool_arb_paths-IsSound v2_files v3_files token edge j =
      token_pair_paths-IsSound (load_pools v2_files []) (load_pools v3_files []) token (edge, j)

  -- Of every three loaded pools that form a triangle at the wrapped token, with three different
  -- tokens, the search returns and saves a path under the hash of their addresses, in this order:
  -- theirs, or that of another triangle if that one has the same hash.
  pub three_pool_arb_paths-IsSaved :
      (v2_files v3_files : List Lp) (a b c : PathPool)
      (t : IsTriangle path_id wrapped_token (load_pools v2_files []) (load_pools v3_files []) a b c)
      → IsApart (load_pools v2_files []) (load_pools v3_files []) a b c t
      → (d : Dict String PoolsPath) × (three_pool_arb_paths path_id nx wrapped_token v2_files
            v3_files
          ≡ ok d)
        × IsSaved path_id wrapped_token
            (load_pools v2_files [])
            (load_pools v3_files [])
            (path_id a.0.lp_address b.0.lp_address c.0.lp_address)
            d
  three_pool_arb_paths-IsSaved v2_files v3_files a b c t apart =
      let (d, runs, (path, found)) = has in
      let (other, ended, sound) =
        three_pool_arb_paths-IsSound v2_files v3_files t.token_a a.0 t.starts in
      (
        d,
        runs,
        record {
          path = path;
          found = found;
          path_of = sound _ path (
              subst (λ e. get String_discrete (id_of path_id a b c) e ≡ some path)
                (ok-injective (sym runs ∙ ended)) found);
        },
      )
    where
      has :
          (d : Dict String PoolsPath) × (three_pool_arb_paths path_id nx wrapped_token v2_files
              v3_files
            ≡ ok d)
          × Has path_id wrapped_token
              (load_pools v2_files [])
              (load_pools v3_files [])
              (id_of path_id a b c)
              d
      has =
          unfold three_pool_arb_paths in
          token_pair_paths-Has (load_pools v2_files []) (load_pools v3_files []) a b c t apart
