-- ===== src/Pools/Keyed.antt =====
-- The table that load_pools fills is keyed by the ids of its cycles, as process_onchain_arbs wants
-- it.
use cream_bots.Prelude.{
  String, String_discrete, false, some, List, ◌≡◌, Memᴰ, map, raise, Exception, contains,
}
use cream_bots.Prelude.Dict.{Dict, get}
use cream_bots.Degenbot.{Degenbot}
use cream_bots.Arbitrage.Types.{ArbDetails, AllArbs}
use cream_bots.Builders.LpFetcher.{Lp}
use cream_bots.Pools.Selected.{IsStored}
use cream_bots.Blacklist.{Blacklists}
use cream_bots.Pools.{ArbData, Cycles, swap_pools_of}

module _ (lib : Degenbot) (cycles : Cycles lib) (lists : Blacklists)
    (data_by_pool : Dict String Lp) where
  open lib use {Pool, Cycle, cycle_id, swap_pools}

  -- An entry whose cycle has the key as its id, the key is not blacklisted, and some arbitrage with
  -- this id has a path through just the cycle's pools, all of them stored.
  pub record IsLoaded (key : String) (details : ArbDetails Cycle) : Type 0 where
    pub arb : ArbData
    pub has_key : key ≡ arb.id
    pub allowed : contains String_discrete lists.arbs key ≡ false
    pub id : cycle_id details.lp_cycle ≡ key
    pub stored : (a : String) → Memᴰ a arb.path → IsStored lists data_by_pool a
    pub along : map cycles.all_pools arb.path ≡ map (λ p. some p) (swap_pools details.lp_cycle)

  abbrev pub IsKeyed : AllArbs Cycle → Type 0
  IsKeyed all_arbs =
      (key : String) (details : ArbDetails Cycle)
      → get String_discrete key all_arbs ≡ some details
      → IsLoaded key details

  -- The constructor of the cycles raises the exception on the pools of an arbitrage's path.
  abbrev pub IsRefused : Exception → Type 0
  IsRefused e =
      (arb : ArbData) × (cycles.make_cycle (swap_pools_of lib cycles lists arb.path) arb.id
        ≡ raise e)
