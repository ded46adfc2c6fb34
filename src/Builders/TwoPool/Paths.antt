-- ===== src/Builders/TwoPool/Paths.antt =====
-- The paths that the builder finds are the cycles through two different pools, and all of them.
use cream_bots.Prelude.{
  String, String_discrete, true, some, List, [], ◌∷◌, ◌≡◌, ◌≢◌, refl, sym, ap, ◌∙◌, Memᴰ,
  Bool-cases, inl, inr, holds, holds_of, of_holds,
}
use mathlib.Core.List.Memᴰ
use mathlib.Core.List.Memᴰ.{head, tail}
use mathlib.Core.Option.{some-injective}
use cream_bots.Prelude.Dict.{Dict, get, put, values, get-put_self, get-put_ne}
use cream_bots.Builders.LpFetcher.{Lp}
use cream_bots.Builders.TwoPool.{
  ArbPath, load_pools, all_pools, pools_of, token_to_pools, has_start, other_token, arb_path,
  add_path, paths_from, all_paths, two_pool_arb_paths,
}
use cream_bots.Builders.TwoPool.Index.{IsTokenOf, mem_of_token_to_pools}

-- The pools of the files.
abbrev pub loaded : (v2_files v3_files : List Lp) → List Lp
unfolding load_pools all_pools
loaded v2_files v3_files = values (all_pools (load_pools v2_files []) (load_pools v3_files []))

module _ (path_id : String → String → String) (start_token : String) where
  -- Two pools of different addresses: both trade the start token, and the second one also trades
  -- the other token of the first.
  pub record IsCycle (pools : List Lp) (a b : Lp) : Type 0 where
    pub first_pool : Memᴰ a pools
    pub second_pool : Memᴰ b pools
    pub starts : IsTokenOf start_token a
    pub connects : IsTokenOf (other_token path_id start_token a) b
    pub ends : IsTokenOf start_token b
    pub apart : b.pool_address ≢ a.pool_address

  pub has_start_of : (p : Lp) → IsTokenOf start_token p → has_start path_id start_token p ≡ true
  unfolding has_start
  has_start_of p (inl e) = rw (holds_of (String_discrete p.token0 start_token) e) refl
  has_start_of p (inr e) = elim (Bool-cases (holds (String_discrete p.token0 start_token))) [
    | inl t ↦ rw t refl
    | inr f ↦ rw (f, holds_of (String_discrete p.token1 start_token) e) refl
  ]

  of_has_start : (p : Lp) → has_start path_id start_token p ≡ true → IsTokenOf start_token p
  unfolding has_start
  of_has_start p h = elim (Bool-cases (holds (String_discrete p.token0 start_token))) [
    | inl t ↦ inl (of_holds (String_discrete p.token0 start_token) t)
    | inr f ↦ inr (of_holds (String_discrete p.token1 start_token) (rw f at h))
  ]

  -- An entry of the dictionary is the path of a cycle: the two addresses in their order, with the
  -- pool of each.
  pub record IsPathOf (pools : List Lp) (id : String) (path : ArbPath) : Type 0 where
    pub a : Lp
    pub b : Lp
    pub cycle : IsCycle pools a b
    pub id_of : id ≡ path_id a.pool_address b.pool_address
    pub path_of : path ≡ record {
      id = path_id a.pool_address b.pool_address;
      pools = put String_discrete b.pool_address b (put String_discrete a.pool_address a []);
      arb_types = "cycle" ∷ [];
      path = a.pool_address ∷ b.pool_address ∷ [];
    }

  abbrev pub IsSound : List Lp → Dict String ArbPath → Type 0
  IsSound pools d =
      (id : String) (path : ArbPath) → get String_discrete id d ≡ some path → IsPathOf pools id path

  abbrev key : Lp → Lp → String
  key a b = path_id a.pool_address b.pool_address

  put-IsSound :
      (pools : List Lp) (d : Dict String ArbPath) (a b : Lp)
      → IsCycle pools a b
      → IsSound pools d
      → IsSound pools (put String_discrete (key a b) (arb_path path_id start_token a b) d)
  unfolding arb_path
  put-IsSound pools d a b c h id path e = elim (String_discrete (key a b) id) [
    | no n ↦ h id path (sym (get-put_ne String_discrete (key a b) id _ d n) ∙ e)
    | yes same ↦ record {
      a = a;
      b = b;
      cycle = c;
      id_of = sym same;
      path_of = sym (
          some-injective _ _ (
            sym (get-put_self String_discrete (key a b) (arb_path path_id start_token a b) d)
            ∙ ap
                (λ x.
                  get String_discrete x
                    (put String_discrete (key a b) (arb_path path_id start_token a b) d))
                same
            ∙ e));
    }
  ]

  add_path-IsSound :
      (pools : List Lp) (a b : Lp) (d : Dict String ArbPath)
      → Memᴰ a pools
      → Memᴰ b pools
      → IsTokenOf start_token a
      → IsTokenOf (other_token path_id start_token a) b
      → IsSound pools d
      → IsSound pools (add_path path_id start_token a b d)
  unfolding add_path
  add_path-IsSound pools a b d ma mb sa cb h = elim (Bool-cases (has_start path_id start_token b)) [
    | inr f ↦ rw f h
    | inl t ↦ elim (Bool-cases (holds (String_discrete b.pool_address a.pool_address))) [
      | inl same ↦ rw (t, same) h
      | inr other ↦
          rw (t, other)
            (put-IsSound pools d a b
              (record {
                first_pool = ma;
                second_pool = mb;
                starts = sa;
                connects = cb;
                ends = of_has_start b t;
                apart = λ e. cc (other, holds_of (String_discrete b.pool_address a.pool_address) e);
              })
              h)
    ]
  ]

  paths_from-IsSound :
      (pools : List Lp) (a : Lp) (bs : List Lp) (d : Dict String ArbPath)
      → Memᴰ a pools
      → IsTokenOf start_token a
      → ((b : Lp) → Memᴰ b bs → Memᴰ b pools × IsTokenOf (other_token path_id start_token a) b)
      → IsSound pools d
      → IsSound pools (paths_from path_id start_token a bs d)
  unfolding paths_from
  paths_from-IsSound pools a [] d ma sa within h = h
  paths_from-IsSound pools a (b ∷ bs) d ma sa within h =
      let (mb, cb) = within b (head refl) in
      paths_from-IsSound pools a bs (add_path path_id start_token a b d) ma sa
        (λ x m. within x (tail m)) (add_path-IsSound pools a b d ma mb sa cb h)

  -- What the index of the pools lists under a token.
  indexed :
      (pools : List Lp) (t : String) (q : Lp)
      → Memᴰ q (pools_of t (token_to_pools pools []))
      → Memᴰ q pools × IsTokenOf t q
  unfolding pools_of get
  indexed pools t q m = elim (mem_of_token_to_pools t pools [] m) [
    | inl found ↦ found
    | inr n ↦ absurd (Memᴰ.not-nil n)
  ]

  all_paths-IsSound :
      (pools rest : List Lp) (d : Dict String ArbPath)
      → ((a : Lp) → Memᴰ a rest → Memᴰ a pools)
      → IsSound pools d
      → IsSound pools (all_paths path_id start_token (token_to_pools pools []) rest d)
  unfolding all_paths
  all_paths-IsSound pools [] d within h = h
  all_paths-IsSound pools (a ∷ rest) d within h =
      elim (Bool-cases (has_start path_id start_token a)) [
        | inr f ↦ rw f (all_paths-IsSound pools rest d (λ x m. within x (tail m)) h)
        | inl t ↦ rw t (
            all_paths-IsSound pools rest _ (λ x m. within x (tail m))
              (paths_from-IsSound pools a _ d (within a (head refl)) (of_has_start a t)
                (indexed pools (other_token path_id start_token a)) h))
      ]

  nothing-IsSound : (pools : List Lp) → IsSound pools []
  unfolding get
  nothing-IsSound pools id path e = cc

  -- Each entry that the builder saves belongs to two pools of the files, of different addresses,
  -- that both trade the start token and share the other token of the first: it is their path, under
  -- the hash of their two addresses.
  pub two_pool_arb_paths-IsSound :
      (v2_files v3_files : List Lp) (id : String) (path : ArbPath)
      → get String_discrete id (two_pool_arb_paths path_id start_token v2_files v3_files)
        ≡ some path
      → IsPathOf (loaded v2_files v3_files) id path
  unfolding two_pool_arb_paths
  two_pool_arb_paths-IsSound v2_files v3_files =
      let pools = loaded v2_files v3_files in
      all_paths-IsSound pools _ [] (λ a m. (indexed pools start_token a m).0)
        (nothing-IsSound pools)
