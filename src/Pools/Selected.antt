-- ===== src/Pools/Selected.antt =====
-- What the files are filtered for: pools that are not excluded, paths through stored pools.
use cream_bots.Prelude.{
  String, String_discrete, Bool, true, false, not, ◌&&◌, some, List, [], ◌∷◌, ◌≡◌, refl, sym, ap,
  ◌∙◌, Memᴰ, any, any_of_mem, contains, Bool-cases, Option-cases, inl, inr, subst,
}
use mathlib.Core.List.Memᴰ
use mathlib.Core.Option.{some-injective}
use cream_bots.Prelude.Dict.{Dict, get, put, get-put_self, get-put_ne}
use cream_bots.Builders.LpFetcher.{Lp}
use cream_bots.Blacklist.{Blacklists}
use cream_bots.Pools.{
  ArbData, is_excluded, is_missing, liquidity_pool_data, passed_checks, arb_paths,
}

module _ (lists : Blacklists) where
  -- The address has a pool in the table, which is its own and passed the tests.
  pub record IsStored (data_by_pool : Dict String Lp) (address : String) : Type 0 where
    pub pool : Lp
    pub entry : get String_discrete address data_by_pool ≡ some pool
    pub own : pool.pool_address ≡ address
    pub kept : is_excluded lists pool ≡ false

  abbrev IsClean : Dict String Lp → Type 0
  IsClean d =
      (a : String) (p : Lp)
      → get String_discrete a d ≡ some p
      → (p.pool_address ≡ a) × (is_excluded lists p ≡ false)

  put-IsClean :
      (p : Lp) (d : Dict String Lp)
      → is_excluded lists p ≡ false
      → IsClean d
      → IsClean (put String_discrete p.pool_address p d)
  put-IsClean p d kept h a q e = elim (String_discrete p.pool_address a) [
    | no n ↦ h a q (sym (get-put_ne String_discrete p.pool_address a p d n) ∙ e)
    | yes same ↦
        let is : p ≡ q = some-injective p q (
          sym (get-put_self String_discrete a p d)
          ∙ ap (λ x. get String_discrete a (put String_discrete x p d)) (sym same)
          ∙ e) in
        subst (λ x. (x.pool_address ≡ a) × (is_excluded lists x ≡ false)) is (same, kept)
  ]

  data-IsClean :
      (ps : List Lp) (d : Dict String Lp) → IsClean d → IsClean (liquidity_pool_data lists ps d)
  unfolding liquidity_pool_data
  data-IsClean [] d h = h
  data-IsClean (p ∷ ps) d h = elim (Bool-cases (is_excluded lists p)) [
    | inl out ↦ rw out (data-IsClean ps d h)
    | inr kept ↦ rw kept (data-IsClean ps _ (put-IsClean p d kept h))
  ]

  empty-IsClean : IsClean []
  unfolding get
  empty-IsClean a p e = cc

  abbrev path_misses : Dict String Lp → ArbData → Bool
  path_misses d arb = any (λ a. is_missing (get String_discrete a d)) arb.path

  stored_of_passed :
      (d : Dict String Lp) (arb_id : String) (arb : ArbData)
      → IsClean d
      → passed_checks lists d arb_id arb ≡ true
      → (a : String) → Memᴰ a arb.path
      → IsStored d a
  unfolding passed_checks
  stored_of_passed d arb_id arb clean passed a m = elim (Option-cases (get String_discrete a d)) [
    | inr (p, e) ↦ record { pool = p; entry = e; own = (clean a p e).0; kept = (clean a p e).1 }
    | inl e ↦
        let misses : path_misses d arb ≡ true =
          any_of_mem (λ x. is_missing (get String_discrete x d)) arb.path m (rw e refl) in
        absurd (refused (contains String_discrete lists.arbs arb_id) misses passed)
  ]
    where
      refused : (b : Bool) {c : Bool} → c ≡ true → (not b && not c) ≡ true → ⊥
      refused true {c} h t = cc
      refused false {c} h t = cc (ap not h, t)

  -- Each path that is selected goes through stored pools.
  pub arb_paths-IsStored :
      (ps : List Lp) (items : Dict String ArbData) (arb : ArbData)
      → Memᴰ arb (arb_paths lists (liquidity_pool_data lists ps []) items)
      → (a : String) → Memᴰ a arb.path
      → IsStored (liquidity_pool_data lists ps []) a
  unfolding arb_paths
  arb_paths-IsStored ps [] arb m a within = absurd (Memᴰ.not-nil m)
  arb_paths-IsStored ps ((arb_id, first) ∷ items) arb m a within =
      elim (Bool-cases (passed_checks lists (liquidity_pool_data lists ps []) arb_id first)) [
        | inr fails ↦ arb_paths-IsStored ps items arb (rw fails at m) a within
        | inl passed ↦
            let m' : Memᴰ arb (first ∷ arb_paths lists (liquidity_pool_data lists ps []) items) =
              rw passed at m in
            elim (Memᴰ.cases_cons m') [
              | inr n ↦ arb_paths-IsStored ps items arb n a within
              | inl same ↦
                  stored_of_passed (liquidity_pool_data lists ps []) arb_id first
                    (data-IsClean ps [] empty-IsClean) passed a
                    (subst (λ x. Memᴰ a x.path) same within)
            ]
      ]
