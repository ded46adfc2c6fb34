-- ===== src/Builders/TwoPool/Complete.antt =====
-- The builder saves a path for every cycle.
use cream_bots.Prelude.{
  String, String_discrete, Bool-cases, holds, of_holds, some, List, [], ◌∷◌, ◌≡◌, if◌then◌else◌,
  subst, Memᴰ, inl, inr,
}
use mathlib.Core.List.Memᴰ
use mathlib.Core.List.Memᴰ.{head, tail}
use cream_bots.Prelude.Dict.{Dict, get, put, get-put_self, get-put_kept}
use cream_bots.Builders.LpFetcher.{Lp}
use cream_bots.Builders.TwoPool.{
  TokenToPools, ArbPath, pools_of, token_to_pools, has_start, other_token, arb_path, add_path,
  paths_from, all_paths, two_pool_arb_paths,
}
use cream_bots.Builders.TwoPool.Index.{mem-token_to_pools}
use cream_bots.Builders.TwoPool.Paths.{
  loaded, IsCycle, IsPathOf, has_start_of, two_pool_arb_paths-IsSound,
}

-- The dictionary has an entry.
abbrev Has : String → Dict String ArbPath → Type 0
Has id d = (path : ArbPath) × (get String_discrete id d ≡ some path)

put-Has :
    (k id : String) (v : ArbPath) (d : Dict String ArbPath)
    → Has id d
    → Has id (put String_discrete k v d)
put-Has k id v d h = get-put_kept String_discrete k id v d h

module _ (path_id : String → String → String) (start_token : String) where
  add_path-Has :
      (a b : Lp) (id : String) (d : Dict String ArbPath)
      → Has id d
      → Has id (add_path path_id start_token a b d)
  unfolding add_path
  add_path-Has a b id d h = elim (Bool-cases (has_start path_id start_token b)) [
    | inr f ↦ rw f h
    | inl t ↦ elim (Bool-cases (holds (String_discrete b.pool_address a.pool_address))) [
      | inl same ↦ rw (t, same) h
      | inr other ↦ rw (t, other) (put-Has _ id (arb_path path_id start_token a b) d h)
    ]
  ]

  paths_from-Has :
      (a : Lp) (bs : List Lp) (id : String) (d : Dict String ArbPath)
      → Has id d
      → Has id (paths_from path_id start_token a bs d)
  unfolding paths_from
  paths_from-Has a [] id d h = h
  paths_from-Has a (b ∷ bs) id d h =
      paths_from-Has a bs id (add_path path_id start_token a b d) (add_path-Has a b id d h)

  all_paths-Has :
      (index : TokenToPools) (rest : List Lp) (id : String) (d : Dict String ArbPath)
      → Has id d
      → Has id (all_paths path_id start_token index rest d)
  unfolding all_paths
  all_paths-Has index [] id d h = h
  all_paths-Has index (a ∷ rest) id d h = elim (Bool-cases (has_start path_id start_token a)) [
    | inr f ↦ rw f (all_paths-Has index rest id d h)
    | inl t ↦ rw t (
        all_paths-Has index rest id _
          (paths_from-Has a (pools_of (other_token path_id start_token a) index) id d h))
  ]

  module _ (pools : List Lp) (a b : Lp) (c : IsCycle path_id start_token pools a b) where
    Has-add_path :
        (d : Dict String ArbPath)
        → Has (path_id a.pool_address b.pool_address) (add_path path_id start_token a b d)
    unfolding add_path
    Has-add_path d = elim (Bool-cases (holds (String_discrete b.pool_address a.pool_address))) [
      | inl same ↦ absurd (c.apart (of_holds (String_discrete b.pool_address a.pool_address) same))
      | inr other ↦
          rw (has_start_of path_id start_token b c.ends, other)
            (arb_path path_id start_token a b, get-put_self String_discrete _ _ d)
    ]

    Has-paths_from :
        (bs : List Lp) (d : Dict String ArbPath)
        → Memᴰ b bs
        → Has (path_id a.pool_address b.pool_address) (paths_from path_id start_token a bs d)
    unfolding paths_from
    Has-paths_from [] d m = absurd (Memᴰ.not-nil m)
    Has-paths_from (x ∷ bs) d (head e) = paths_from-Has a bs _ _ (
        subst
          (λ y. Has (path_id a.pool_address b.pool_address) (add_path path_id start_token a y d)) e
          (Has-add_path d))
    Has-paths_from (x ∷ bs) d (tail m) = Has-paths_from bs (add_path path_id start_token a x d) m

    Has-all_paths :
        (index : TokenToPools) (rest : List Lp) (d : Dict String ArbPath)
        → Memᴰ b (pools_of (other_token path_id start_token a) index)
        → Memᴰ a rest
        → Has (path_id a.pool_address b.pool_address) (all_paths path_id start_token index rest d)
    unfolding all_paths
    Has-all_paths index [] d mb m = absurd (Memᴰ.not-nil m)
    Has-all_paths index (x ∷ rest) d mb (tail m) = Has-all_paths index rest _ mb m
    Has-all_paths index (x ∷ rest) d mb (head e) = all_paths-Has index rest _ _ (
        subst
          (λ y. Has (path_id a.pool_address b.pool_address) (
            if has_start path_id start_token y
            then paths_from path_id start_token y
                (pools_of (other_token path_id start_token y) index) d
            else d))
          e (rw (has_start_of path_id start_token a c.starts) (Has-paths_from _ d mb)))

  -- The entry of a key is the path of a cycle with that key as its hash.
  pub record IsSaved (pools : List Lp) (id : String) (d : Dict String ArbPath) : Type 0 where
    pub path : ArbPath
    pub found : get String_discrete id d ≡ some path
    pub path_of : IsPathOf path_id start_token pools id path

  -- Of every two pools of the files that have different addresses and both trade the start token,
  -- where the second one trades the other token of the first, the builder saves a path under the
  -- hash of their addresses, in this order: theirs, or that of other two such pools if these have
  -- the same hash.
  pub two_pool_arb_paths-IsSaved :
      (v2_files v3_files : List Lp) (a b : Lp)
      → IsCycle path_id start_token (loaded v2_files v3_files) a b
      → IsSaved
          (loaded v2_files v3_files)
          (path_id a.pool_address b.pool_address)
          (two_pool_arb_paths path_id start_token v2_files v3_files)
  unfolding two_pool_arb_paths
  two_pool_arb_paths-IsSaved v2_files v3_files a b c =
      let pools = loaded v2_files v3_files in
      let (path, found) =
        Has-all_paths pools a b c (token_to_pools pools []) _ []
          (mem-token_to_pools (other_token path_id start_token a) pools [] c.second_pool c.connects)
          (mem-token_to_pools start_token pools [] c.first_pool c.starts) in
      record {
        path = path;
        found = found;
        path_of =
            two_pool_arb_paths-IsSound path_id start_token v2_files v3_files
              (path_id a.pool_address b.pool_address) path found;
      }
