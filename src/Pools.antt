-- ===== src/Pools.antt =====
-- app/core/pool_service.py: load_pools, which selects pools and arbitrage paths and fills the table
-- `bot_state.all_arbs` that the arbitrage service works on.
pub mod Selected
pub mod Keyed
pub mod Managers
pub mod Helpers
pub mod Loading
use cream_bots.Prelude.{
  String, String_discrete, Bool, true, false, not, ◌&&◌, ◌||◌, Option, none, some, List, [], ◌∷◌,
  Result, ok, ◌>>=◌, contains, any, length, ◌==◌, if◌then◌else◌, ◌≡◌,
}
use cream_bots.Prelude.Dict.{Dict, get, put}
use cream_bots.Degenbot.{Degenbot}
use cream_bots.Arbitrage.Types.{AllArbs}
use cream_bots.Builders.LpFetcher.{Lp}
use cream_bots.Blacklist.{Blacklists}

-- What the service reads of an arbitrage of the path files.
pub record ArbData : Type 0 where
  pub id : String
  pub path : List String

-- The three tests in front of `liquidity_pool_data[pool_address] = pool`; the tokens, too, are
-- looked up in the list of the pools.
unfoldable pub is_excluded : Blacklists → Lp → Bool
unfolding contains String_discrete
is_excluded lists p =
    contains String_discrete lists.pools p.pool_address
    || contains String_discrete lists.pools p.token0
    || contains String_discrete lists.pools p.token1

-- The loops over the pool files, from behind one another.
unfoldable pub liquidity_pool_data : Blacklists → List Lp → Dict String Lp → Dict String Lp
unfolding is_excluded put String_discrete
liquidity_pool_data lists [] d = d
liquidity_pool_data lists (p ∷ ps) d =
    liquidity_pool_data lists ps
      (if is_excluded lists p then d else put String_discrete p.pool_address p d)

abbrev pub is_missing : {A : Type 0} → Option A → Bool
is_missing none = true
is_missing (some _) = false

-- `passed_checks`, for an item of a path file.
unfoldable pub passed_checks : Blacklists → Dict String Lp → (arb_id : String) → ArbData → Bool
unfolding contains any get String_discrete
passed_checks lists data_by_pool arb_id arb =
    not (contains String_discrete lists.arbs arb_id)
    && not (any (λ a. is_missing (get String_discrete a data_by_pool)) arb.path)

-- `arb_paths`
unfoldable pub arb_paths : Blacklists → Dict String Lp → Dict String ArbData → List ArbData
unfolding passed_checks
arb_paths lists data_by_pool [] = []
arb_paths lists data_by_pool ((arb_id, arb) ∷ items) =
    let rest = arb_paths lists data_by_pool items in
    if passed_checks lists data_by_pool arb_id arb then arb ∷ rest else rest

-- degenbot's table `all_pools` and the constructor UniswapLpCycle, which may raise, and whose cycle
-- has the id and the pools that it is given.
pub record Cycles (lib : Degenbot) : Type 0 where
  pub all_pools : String → Option (Degenbot.Pool lib)
  pub make_cycle : List (Degenbot.Pool lib) → (id : String) → Result (Degenbot.Cycle lib)
  pub id_of_cycle :
      (ps : List (Degenbot.Pool lib)) (id : String) (c : Degenbot.Cycle lib)
      → make_cycle ps id ≡ ok c
      → Degenbot.cycle_id lib c ≡ id
  pub pools_of_cycle :
      (ps : List (Degenbot.Pool lib)) (id : String) (c : Degenbot.Cycle lib)
      → make_cycle ps id ≡ ok c
      → Degenbot.swap_pools lib c ≡ ps

-- `if not pool_obj: break`, else `append`.
abbrev pub break_or_add : {A : Type 0} → Option A → List A → List A
break_or_add none pools = []
break_or_add (some p) pools = p ∷ pools

module _ (lib : Degenbot) (cycles : Cycles lib) (lists : Blacklists) where
  open lib use {Pool, Cycle}

  -- The inner loop: it ends at the first address without a pool.
  unfoldable pub swap_pools_of : List String → List Pool
  swap_pools_of [] = []
  swap_pools_of (a ∷ rest) = break_or_add (cycles.all_pools a) (swap_pools_of rest)

  -- The body of the loop over `arb_paths`.
  unfoldable pub add_arb : ArbData → AllArbs Cycle → Result (AllArbs Cycle)
  unfolding swap_pools_of contains put String_discrete
  add_arb arb all_arbs =
      if contains String_discrete lists.arbs arb.id
      then ok all_arbs
      else if length (swap_pools_of arb.path) == length arb.path
      then (do
        c ← cycles.make_cycle (swap_pools_of arb.path) arb.id
        ok (put String_discrete arb.id (record { lp_cycle = c; status = "load" }) all_arbs))
      else ok all_arbs

  unfoldable pub add_arbs : List ArbData → AllArbs Cycle → Result (AllArbs Cycle)
  unfolding add_arb
  add_arbs [] all_arbs = ok all_arbs
  add_arbs (arb ∷ arbs) all_arbs = do after ← add_arb arb all_arbs; add_arbs arbs after

  -- `load_pools`, from the contents of the pool files and of the path files on.
  unfoldable pub load_pools :
      (pool_files : List Lp) (arb_files : Dict String ArbData)
      → AllArbs Cycle
      → Result (AllArbs Cycle)
  unfolding liquidity_pool_data arb_paths add_arbs
  load_pools pool_files arb_files all_arbs =
      add_arbs (arb_paths lists (liquidity_pool_data lists pool_files []) arb_files) all_arbs
