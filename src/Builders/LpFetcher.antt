-- ===== src/Builders/LpFetcher.antt =====
-- builders/lp_fetcher_v2.py and builders/lp_fetcher_v3.py: the loop over an exchange of a chain.
-- The two differ in the event that they ask for, and in the entry that they write for it.
pub mod Visits
pub mod Coverage
pub mod Exchange
use cream_bots.Prelude.{
  ℕ, zero, suc, ◌+◌, ◌-◌, String, Bool, true, false, not, Option, none, some, List, [], ◌∷◌, ◌++◌,
  map, Result, ok, raise, Exception, out_of_fuel, ltb, if◌then◌else◌,
}

-- BLOCK_SPAN
abbrev pub block_span : ℕ
block_span = 10_000

-- An entry of the file `<chain>_<exchange>_v2.json` or `_v3.json`. `pool_id` says whether it has
-- that key: the v2 script writes `event.args.get("")` to it, which is null.
pub record Lp : Type 0 where
  pub pool_address : String
  pub fee : Option ℕ
  pub token0 : String
  pub token1 : String
  pub block_number : ℕ
  pub pool_id : Bool
  pub type : String
  pub exchange : String

-- A PairCreated event of a v2 factory.
pub record PairCreated : Type 0 where
  pub pair : String
  pub token0 : String
  pub token1 : String
  pub block_number : ℕ

-- A PoolCreated event of a v3 factory.
pub record PoolCreated : Type 0 where
  pub pool : String
  pub fee : ℕ
  pub token0 : String
  pub token1 : String
  pub block_number : ℕ

-- The dictionaries that are appended to `lp_data`. The fee of a v2 exchange is its own.
unfoldable pub v2_entry : Option ℕ → String → PairCreated → Lp
v2_entry fee exchange e = record {
  pool_address = e.pair;
  fee = fee;
  token0 = e.token0;
  token1 = e.token1;
  block_number = e.block_number;
  pool_id = true;
  type = "UniswapV2";
  exchange = exchange;
}

unfoldable pub v3_entry : String → PoolCreated → Lp
v3_entry exchange e = record {
  pool_address = e.pool;
  fee = some e.fee;
  token0 = e.token0;
  token1 = e.token1;
  block_number = e.block_number;
  pool_id = false;
  type = "UniswapV3";
  exchange = exchange;
}

-- `lp_data`, and the content of the data file, if there is one.
pub record Progress : Type 0 where
  pub lp_data : List Lp
  pub file : Option (List Lp)

-- How the loop ends: at the end of the range, by `break`, or by an exception.
pub data Ending : Type 0 where
  finished interrupted : Ending
  failed : Exception → Ending

-- `ujson.dump(lp_data, file)`
abbrev pub save : Progress → Progress
save p = record p { file = some p.lp_data }

unfoldable pub end_block : ℕ → ℕ → ℕ
end_block i current_block =
    if ltb current_block (i + block_span) then current_block else i + block_span

-- `lp_data[-1].get("block_number")`, or the factory's block.
unfoldable pub previous_block : ℕ → List Lp → ℕ
previous_block factory_deployment_block [] = factory_deployment_block
previous_block factory_deployment_block (lp ∷ lps) = previous_block lp.block_number lps

-- The content of the data file, or no entries if there is none.
abbrev pub stored : Option (List Lp) → List Lp
stored none = []
stored (some lps) = lps

-- `if not keep_running`, behind the loop; an exception does not come there.
unfoldable pub final_save : (running_after : Bool) → Progress × Ending → Progress × Ending
final_save running_after (p, failed e) = (p, failed e)
final_save true (p, ending) = (p, ending)
final_save false (p, ending) = (save p, ending)

-- `keep_running i` is the flag as the round from block `i` reads it.
module _ {Event : Type 0} (get_logs : ℕ → ℕ → Result (List Event)) (entry : Event → Lp)
    (keep_running : ℕ → Bool) (current_block : ℕ) where
  -- The `for` loop from `i` on; a round is one unit of fuel.
  unfoldable pub scan : ℕ → ℕ → Progress → Progress × Ending
  unfolding end_block
  scan zero i p = (p, failed out_of_fuel)
  scan (suc fuel) i p =
      if ltb i (current_block + 1)
      then if keep_running i
        then elim (get_logs i (end_block i current_block)) [
          | raise e ↦ (p, failed e)
          | ok events ↦
              scan fuel (i + block_span)
                (save (record p { lp_data = p.lp_data ++ map entry events }))
        ]
        else (p, interrupted)
      else (p, finished)

  -- An exchange: the file is read, the blocks behind its last pool are scanned, and the data is
  -- saved once more if the flag is down. The range has no more rounds than blocks.
  unfoldable pub fetch_exchange :
      (factory_deployment_block : ℕ) (running_after : Bool) → Option (List Lp) → Progress × Ending
  unfolding scan previous_block final_save
  fetch_exchange factory_deployment_block running_after file =
      let lp_data = stored file in
      let start = previous_block factory_deployment_block lp_data + 1 in
      final_save running_after
        (scan (suc (current_block + 1 - start)) start (record { lp_data = lp_data; file = file }))

-- The work of lp_fetcher_v3.py on an exchange: the same, with its own query and entries.
unfoldable pub fetch_v3_exchange :
    (get_logs : ℕ → ℕ → Result (List PoolCreated)) (exchange_name : String)
    (keep_running : ℕ → Bool) (current_block : ℕ) (factory_deployment_block : ℕ)
    (running_after : Bool)
    → Option (List Lp)
    → Progress × Ending
unfolding fetch_exchange v3_entry
fetch_v3_exchange get_logs exchange_name = fetch_exchange get_logs (v3_entry exchange_name)
