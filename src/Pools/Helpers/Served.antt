-- ===== src/Pools/Helpers/Served.antt =====
-- Calls of get_pool, their answers, and the counters of create_pool_helpers.
use cream_bots.Prelude.{
  ℕ, suc, ◌+◌, arith, true, false, List, [], ◌∷◌, ◌++◌, ◌≡◌, refl, sym, ap, subst, ◌∙◌, ok, raise,
  manager_error,
}
use mathlib.Core.List.{append_assoc, append-nil}
use cream_bots.Pools.Helpers.{PoolRequest, PoolLib, HelpersState}

module _ (lib : PoolLib) where
  abbrev pub Request : Type 0
  Request = lib.Manager × PoolRequest

  -- Calls of get_pool, one behind the other: each answers with a helper or raises a ManagerError.
  -- The two numbers are those of the helpers of v2 and of v3 pools.
  pub data Served : List Request → lib.Store → lib.Store → ℕ → ℕ → Type 0 where
    nothing : (store : lib.Store) → Served [] store store 0 0
    v2_helper :
        (m : lib.Manager) (q : PoolRequest) (rs : List Request) (a b c : lib.Store)
        (helper : lib.Helper) (v2 v3 : ℕ)
        → lib.get_pool m q a ≡ (b, ok helper)
        → lib.is_v3 helper ≡ false
        → Served rs b c v2 v3
        → Served ((m, q) ∷ rs) a c (suc v2) v3
    v3_helper :
        (m : lib.Manager) (q : PoolRequest) (rs : List Request) (a b c : lib.Store)
        (helper : lib.Helper) (v2 v3 : ℕ)
        → lib.get_pool m q a ≡ (b, ok helper)
        → lib.is_v3 helper ≡ true
        → Served rs b c v2 v3
        → Served ((m, q) ∷ rs) a c v2 (suc v3)
    refused :
        (m : lib.Manager) (q : PoolRequest) (rs : List Request) (a b c : lib.Store) (v2 v3 : ℕ)
        → lib.get_pool m q a ≡ (b, raise manager_error)
        → Served rs b c v2 v3
        → Served ((m, q) ∷ rs) a c v2 v3

  fit :
      (rs : List Request) (a c : lib.Store) (m m' n n' : ℕ)
      → m ≡ m'
      → n ≡ n'
      → Served rs a c m n
      → Served rs a c m' n'
  fit rs a c m m' n n' e h s =
      subst (λ k. Served rs a c m' k) h (subst (λ k. Served rs a c k n) e s)

  Served-append :
      (xs ys : List Request) (a b c : lib.Store) (m n v w : ℕ)
      → Served xs a b m n
      → Served ys b c v w
      → Served (xs ++ ys) a c (m + v) (n + w)
  Served-append _ ys a _ c _ _ v w (nothing _) t =
      fit ys a c v (0 + v) w (0 + w) (omega arith) (omega arith) t
  Served-append _ ys a b c _ _ v w (v2_helper m q rs _ d _ h i j e k s) t =
      fit ((m, q) ∷ (rs ++ ys)) a c (suc (i + v)) (suc i + v) (j + w) (j + w) (omega arith) refl (
        v2_helper m q (rs ++ ys) a d c h (i + v) (j + w) e k
          (Served-append rs ys d b c i j v w s t))
  Served-append _ ys a b c _ _ v w (v3_helper m q rs _ d _ h i j e k s) t =
      fit ((m, q) ∷ (rs ++ ys)) a c (i + v) (i + v) (suc (j + w)) (suc j + w) refl (omega arith) (
        v3_helper m q (rs ++ ys) a d c h (i + v) (j + w) e k
          (Served-append rs ys d b c i j v w s t))
  Served-append _ ys a b c _ _ v w (refused m q rs _ d _ i j e s) t =
      refused m q (rs ++ ys) a d c (i + v) (j + w) e (Served-append rs ys d b c i j v w s t)

  -- From one state to another by these calls.
  pub record IsServed (rs : List Request) (s s' : HelpersState lib) : Type 0 where
    pub v2 : ℕ
    pub v3 : ℕ
    pub served : Served rs s.store s'.store v2 v3
    pub v2_pools : s'.v2_pools ≡ s.v2_pools + v2
    pub v3_pools : s'.v3_pools ≡ s.v3_pools + v3
    pub asked : s'.asked ≡ s.asked ++ rs

  pub IsServed-nothing : (s : HelpersState lib) → IsServed [] s s
  IsServed-nothing s = record {
    v2 = 0;
    v3 = 0;
    served = nothing s.store;
    v2_pools = omega arith;
    v3_pools = omega arith;
    asked = sym (append-nil s.asked);
  }

  pub IsServed-append :
      (xs ys : List Request) (s s' t : HelpersState lib)
      → IsServed xs s s'
      → IsServed ys s' t
      → IsServed (xs ++ ys) s t
  IsServed-append xs ys s s' t p q = record {
    v2 = p.v2 + q.v2;
    v3 = p.v3 + q.v3;
    served = Served-append xs ys s.store s'.store t.store p.v2 p.v3 q.v2 q.v3 p.served q.served;
    v2_pools = omega (arith, p.v2_pools, q.v2_pools);
    v3_pools = omega (arith, p.v3_pools, q.v3_pools);
    asked = q.asked ∙ ap (λ l. l ++ ys) p.asked ∙ append_assoc s.asked xs ys;
  }
