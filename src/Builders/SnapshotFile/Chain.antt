-- ===== src/Builders/SnapshotFile/Chain.antt =====
-- builders/liquidity_fetcher.py the work on a chain, from its files to the new snapshot.
use cream_bots.Prelude.{
  ℕ, String, String_discrete, Bool, Option, none, some, List, [], ◌∷◌, foldl, Result, ok, ◌>>=◌,
  if◌then◌else◌, ◌==◌,
}
use cream_bots.Prelude.Dict.{Dict, put}
use cream_bots.Builders.LpFetcher.{Lp}
use cream_bots.Builders.Liquidity.{LiquidityEvent, GetLogs, start_block_default, liquidity_events}
use cream_bots.Builders.Snapshot.{PoolHelper, update_snapshot}
use cream_bots.Builders.SnapshotFile.{Codec, JsonSnapshot, load_snapshot, save_snapshot}

-- `lp_data[lp["pool_address"]] = lp`, for the pools of a file.
unfoldable pub add_lps : List Lp → Dict String Lp → Dict String Lp
unfolding put String_discrete
add_lps lps lp_data = foldl (λ d lp. put String_discrete lp.pool_address lp d) lp_data lps

-- The loop over the data files; a file that is not there ends it, and the script.
abbrev pub add_file : Option (List Lp) → Dict String Lp → Option (Dict String Lp)
unfolding add_lps
add_file none lp_data = none
add_file (some lps) lp_data = some (add_lps lps lp_data)

abbrev pub then_files :
    Option (Dict String Lp) → (Dict String Lp → Option (Dict String Lp)) → Option (Dict String Lp)
then_files none next = none
then_files (some lp_data) next = next lp_data

unfoldable pub load_lp_data : List (Option (List Lp)) → Dict String Lp → Option (Dict String Lp)
unfolding add_lps
load_lp_data [] lp_data = some lp_data
load_lp_data (file ∷ files) lp_data = then_files (add_file file lp_data) (load_lp_data files)

-- `snapshot_last_block or UNISWAPV3_START_BLOCK`
abbrev pub block_or_start : Option ℕ → ℕ
block_or_start none = start_block_default
block_or_start (some n) = if n == 0 then start_block_default else n

-- The height and the logs of a chain.
pub record LiquidityNode : Type 0 where
  pub newest_block : Result ℕ
  pub mints : GetLogs
  pub burns : GetLogs

module _ (Tick Bitmap Rest : Type 0) (codec : Codec Tick Bitmap)
    (external_update : LiquidityEvent
      → PoolHelper Tick Bitmap Rest
      → Result (PoolHelper Tick Bitmap Rest))
    (has_bits : Bitmap → Bool) (new_helper : Rest) (fuel : ℕ) where
  -- From the pools of the data files and the content of the snapshot file on.
  unfoldable pub update_file :
      LiquidityNode
      → (newest_block : ℕ) (lp_data : Dict String Lp) → Option (JsonSnapshot Tick Bitmap Rest codec)
      → Result (JsonSnapshot Tick Bitmap Rest codec)
  unfolding load_snapshot liquidity_events update_snapshot save_snapshot
  update_file node newest_block lp_data file = do
    loaded ← load_snapshot Tick Bitmap Rest codec newest_block file
    events ← liquidity_events node.mints node.burns newest_block loaded.1 fuel
    snapshot ←
        update_snapshot Tick Bitmap Rest external_update has_bits lp_data events
          (block_or_start loaded.1) (record { snapshot = loaded.0; helper_rest = new_helper })
    ok (save_snapshot Tick Bitmap Rest codec newest_block snapshot)
