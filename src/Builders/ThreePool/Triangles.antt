-- ===== src/Builders/ThreePool/Triangles.antt =====
-- The saved paths are the triangles of pools at the wrapped token, and all of them.
use cream_bots.Prelude.{String, String_discrete, some, [], ◌∷◌, ◌≡◌, refl, ok}
use cream_bots.Prelude.Dict.{Dict, get, put, get-put_all, get-put_kept, get-put_self}
use cream_bots.Prelude.Loops.{Runs}
use cream_bots.Builders.LpFetcher.{Lp}
use cream_bots.Builders.ThreePool.{
  PoolEdge, PathPool, PoolsPath, id_of, pools_path, store_paths, pool_dict, add_swap_pools,
}
use cream_bots.Builders.ThreePool.Multigraph.{Joined, Joined-sym, pool_edges, pool_dict-Joined}

module _ (path_id : String → String → String → String) (wrapped_token : String)
    (v2_lp_data v3_lp_data : Dict String Lp) where
  abbrev Joins : String → String → PoolEdge → Type 0
  Joins = Joined (pool_edges v2_lp_data v3_lp_data)

  -- Three pools: of the wrapped token and token_a, of token_a and token_b, and of token_b and the
  -- wrapped token, each with what is stored at its address.
  pub record IsTriangle (a b c : PathPool) : Type 0 where
    pub token_a : String
    pub token_b : String
    pub starts : Joined (pool_edges v2_lp_data v3_lp_data) token_a wrapped_token a.0
    pub connects : Joined (pool_edges v2_lp_data v3_lp_data) token_a token_b b.0
    pub ends : Joined (pool_edges v2_lp_data v3_lp_data) token_b wrapped_token c.0
    pub found_a : pool_dict path_id v2_lp_data v3_lp_data a.0 ≡ ok a
    pub found_b : pool_dict path_id v2_lp_data v3_lp_data b.0 ≡ ok b
    pub found_c : pool_dict path_id v2_lp_data v3_lp_data c.0 ≡ ok c

  pub record IsPathOf (id : String) (path : PoolsPath) : Type 0 where
    pub a : PathPool
    pub b : PathPool
    pub c : PathPool
    pub triangle : IsTriangle a b c
    pub is_id : id ≡ path_id a.0.lp_address b.0.lp_address c.0.lp_address
    pub is_path : path ≡ record {
      id = path_id a.0.lp_address b.0.lp_address c.0.lp_address;
      pools =
          put String_discrete c.0.lp_address c.1
            (put String_discrete b.0.lp_address b.1 (put String_discrete a.0.lp_address a.1 []));
      arb_types = "cycle" ∷ "flash_borrow_lp_swap" ∷ [];
      path = a.0.lp_address ∷ b.0.lp_address ∷ c.0.lp_address ∷ [];
    }

  abbrev pub IsSound : Dict String PoolsPath → Type 0
  IsSound d =
      (id : String) (path : PoolsPath) → get String_discrete id d ≡ some path → IsPathOf id path

  abbrev pub Has : String → Dict String PoolsPath → Type 0
  Has id d = (path : PoolsPath) × (get String_discrete id d ≡ some path)

  -- The entry of a key is the path of a triangle with that key as its hash.
  pub record IsSaved (id : String) (d : Dict String PoolsPath) : Type 0 where
    pub path : PoolsPath
    pub found : get String_discrete id d ≡ some path
    pub path_of : IsPathOf id path

  abbrev pub reversed : (a b c : PathPool) → IsTriangle a b c → IsTriangle c b a
  reversed a b c t = record {
    token_a = t.token_b;
    token_b = t.token_a;
    starts = t.ends;
    connects = Joined-sym _ t.token_a t.token_b b.0 t.connects;
    ends = t.starts;
    found_a = t.found_c;
    found_b = t.found_b;
    found_c = t.found_a;
  }

  path_of :
      (a b c : PathPool)
      → IsTriangle a b c
      → IsPathOf (id_of path_id a b c) (pools_path path_id a b c)
  unfolding pools_path
  path_of a b c t = record { a = a; b = b; c = c; triangle = t; is_id = refl; is_path = refl }

  pub store_paths-IsSound :
      (a b c : PathPool) (d : Dict String PoolsPath)
      → IsTriangle a b c
      → IsSound d
      → IsSound (store_paths path_id a b c d)
  unfolding store_paths
  store_paths-IsSound a b c d t h =
      get-put_all String_discrete IsPathOf _ _ _ (path_of c b a (reversed a b c t))
        (get-put_all String_discrete IsPathOf _ _ d (path_of a b c t) h)

  pub store_paths-Has :
      (id : String) (a b c : PathPool) (d : Dict String PoolsPath)
      → Has id d
      → Has id (store_paths path_id a b c d)
  unfolding store_paths
  store_paths-Has id a b c d h =
      get-put_kept String_discrete _ id _ _ (get-put_kept String_discrete _ id _ d h)

  pub Has-store_paths :
      (a b c : PathPool) (d : Dict String PoolsPath)
      → Has (id_of path_id a b c) (store_paths path_id a b c d)
  unfolding store_paths
  Has-store_paths a b c d =
      get-put_kept String_discrete (id_of path_id c b a) (id_of path_id a b c)
        (pools_path path_id c b a)
        (put String_discrete (id_of path_id a b c) (pools_path path_id a b c) d)
        (
          pools_path path_id a b c,
          get-put_self String_discrete (id_of path_id a b c) (pools_path path_id a b c) d,
        )

  pub Has-store_paths_reversed :
      (a b c : PathPool) (d : Dict String PoolsPath)
      → Has (id_of path_id c b a) (store_paths path_id a b c d)
  unfolding store_paths
  Has-store_paths_reversed a b c d = (
    pools_path path_id c b a,
    get-put_self String_discrete (id_of path_id c b a) (pools_path path_id c b a)
        (put String_discrete (id_of path_id a b c) (pools_path path_id a b c) d),
  )

  -- A round for three pools that are a triangle.
  pub add_swap_pools-Runs :
      (P Q : Dict String PoolsPath → Type 0) (ta tb : String) (a b c : PoolEdge)
      → Joins ta wrapped_token a
      → Joins ta tb b
      → Joins tb wrapped_token c
      → ((x y z : PathPool)
          → IsTriangle x y z
          → (d : Dict String PoolsPath) → P d
          → Q (store_paths path_id x y z d))
      → Runs P Q (add_swap_pools path_id v2_lp_data v3_lp_data (a, (b, c)))
  unfolding add_swap_pools
  add_swap_pools-Runs P Q ta tb a b c ja jb jc step d p =
      let (fa, ea) = pool_dict-Joined path_id v2_lp_data v3_lp_data ta wrapped_token a ja in
      let (fb, eb) = pool_dict-Joined path_id v2_lp_data v3_lp_data ta tb b jb in
      let (fc, ec) = pool_dict-Joined path_id v2_lp_data v3_lp_data tb wrapped_token c jc in
      (
        store_paths path_id (a, fa) (b, fb) (c, fc) d,
        rw (ea, eb, ec) refl,
        step (a, fa) (b, fb) (c, fc)
            (record {
              token_a = ta;
              token_b = tb;
              starts = ja;
              connects = jb;
              ends = jc;
              found_a = ea;
              found_b = eb;
              found_c = ec;
            })
            d p,
      )
