-- ===== src/Builders/SnapshotFile.antt =====
-- builders/liquidity_fetcher.py: the snapshot file, the data files of the pools, and the work on a
-- chain from the files to the file.
pub mod Dumped
pub mod Reloaded
pub mod Chain
pub mod Chains
use cream_bots.Prelude.{
  ℕ, String, String_discrete, Bool, true, false, not, Option, none, some, List, [], ◌∷◌, foldl, map,
  Result, ok, raise, key_error, type_error, assertion_error, attribute_error, ◌>>=◌, select, ltb,
  ◌==◌, holds, if◌then◌else◌,
}
use cream_bots.Prelude.Int.{ℤ}
use cream_bots.Prelude.Dict.{Dict, get, put}
use cream_bots.Prelude.Items.{dict_of}
use cream_bots.Builders.LpFetcher.{Lp}
use cream_bots.Builders.Liquidity.{
  LiquidityEvent, LiquidityEvents, GetLogs, start_block_default, liquidity_events,
}
use cream_bots.Builders.Snapshot.{
  ℤ_discrete, PoolTicks, PoolHelper, Snapshot, Merge, update_snapshot,
}

-- degenbot's UniswapV3LiquidityAtTick and UniswapV3BitmapAtWord, made from a dictionary and made a
-- dictionary; `int(text)`, the text that ujson makes of a key, and the order in which it dumps a
-- dictionary.
pub record Codec (Tick Bitmap : Type 0) : Type 1 where
  pub JsonTick : Type 0
  pub JsonBitmap : Type 0
  pub tick_of_dict : JsonTick → Result Tick
  pub tick_to_dict : Tick → JsonTick
  pub bitmap_of_dict : JsonBitmap → Result Bitmap
  pub bitmap_to_dict : Bitmap → JsonBitmap
  pub int_of_text : String → Result ℤ
  pub text_of_int : ℤ → String
  pub sort_keys : {K V : Type 0} → Dict K V → Dict K V

module _ (Tick Bitmap Rest : Type 0) (codec : Codec Tick Bitmap) where
  open codec use {JsonTick, JsonBitmap}

  -- A value of the file: the block of the snapshot, or the ticks of a pool.
  pub record JsonTicks : Type 0 where
    pub tick_bitmap : Dict String JsonBitmap
    pub tick_data : Dict String JsonTick

  pub data JsonEntry : Type 0 where
    json_block : ℕ → JsonEntry
    json_ticks : JsonTicks → JsonEntry

  abbrev pub JsonSnapshot : Type 0
  JsonSnapshot = Dict String JsonEntry

  -- An item of the comprehensions.
  unfoldable pub int_item : {J V : Type 0} → (J → Result V) → String × J → Result (ℤ × V)
  int_item value_of (k, v) = do key ← codec.int_of_text k; value ← value_of v; ok (key, value)

  -- A number has no `["tick_bitmap"]`.
  unfoldable pub load_entry : JsonEntry → Result (PoolTicks Tick Bitmap Rest)
  unfolding int_item dict_of ℤ_discrete
  load_entry (json_block _) = raise type_error
  load_entry (json_ticks snapshot) = do
    tick_bitmap ← dict_of ℤ_discrete (int_item codec.bitmap_of_dict) snapshot.tick_bitmap []
    tick_data ← dict_of ℤ_discrete (int_item codec.tick_of_dict) snapshot.tick_data []
    ok (record { tick_bitmap = tick_bitmap; tick_data = tick_data })

  unfoldable pub pool_item : String × JsonEntry → Result (String × PoolTicks Tick Bitmap Rest)
  unfolding load_entry
  pool_item (pool_address, snapshot) = do ticks ← load_entry snapshot; ok (pool_address, ticks)

  -- `pop("snapshot_block")`, and what it leaves. The value is compared with a number.
  abbrev pub popped : Option JsonEntry → Result ℕ
  popped none = raise key_error
  popped (some (json_block n)) = ok n
  popped (some (json_ticks _)) = raise type_error

  abbrev pub is_pool : String → Bool
  is_pool key = not (holds (String_discrete key "snapshot_block"))

  abbrev pub without_block : JsonSnapshot → JsonSnapshot
  without_block file = select (λ e. is_pool e.0) file

  abbrev pub check_block : (snapshot_last_block newest_block : ℕ) → Result (Unit {0})
  check_block snapshot_last_block newest_block =
      if ltb snapshot_last_block newest_block then ok tt else raise assertion_error

  -- The snapshot and its block; without a file that can be read, an empty one without a block.
  unfoldable pub load_snapshot :
      (newest_block : ℕ) → Option JsonSnapshot → Result (Snapshot Tick Bitmap Rest × Option ℕ)
  unfolding pool_item dict_of select get String_discrete
  load_snapshot newest_block none = ok ([], none)
  load_snapshot newest_block (some file) = do
    snapshot_last_block ← popped (get String_discrete "snapshot_block" file)
    _ ← check_block snapshot_last_block newest_block
    snapshot ← dict_of String_discrete pool_item (without_block file) []
    ok (snapshot, some snapshot_last_block)

  -- The items of the dump of a dictionary: `value.to_dict()`, and the keys as texts.
  unfoldable pub dump_items : {J V : Type 0} → (V → J) → Dict ℤ V → Dict String J
  dump_items to_dict d =
      map (λ e. (codec.text_of_int e.0, e.1)) (codec.sort_keys (map (λ e. (e.0, to_dict e.1)) d))

  unfoldable pub dump_ticks : PoolTicks Tick Bitmap Rest → JsonTicks
  unfolding dump_items
  dump_ticks ticks = record {
    tick_bitmap = dump_items codec.bitmap_to_dict ticks.tick_bitmap;
    tick_data = dump_items codec.tick_to_dict ticks.tick_data;
  }

  -- The new content of the file.
  unfoldable pub save_snapshot : (newest_block : ℕ) → Snapshot Tick Bitmap Rest → JsonSnapshot
  unfolding dump_ticks put String_discrete
  save_snapshot newest_block snapshot = codec.sort_keys (
      put String_discrete "snapshot_block" (json_block newest_block)
        (map (λ e. (e.0, json_ticks (dump_ticks e.1))) snapshot))
