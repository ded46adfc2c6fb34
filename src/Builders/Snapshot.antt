-- ===== src/Builders/Snapshot.antt =====
-- builders/liquidity_fetcher.py: the merge of the collected events into the liquidity snapshot.
pub mod Merged
use cream_bots.Prelude.{
  ℕ, ℕ_discrete, String, String_discrete, Bool, Option, none, some, List, [], ◌∷◌, foldl, map,
  Result, ok, raise, key_error, unbound_error, ◌>>=◌, select, ◌==◌, if◌then◌else◌,
}
use cream_bots.Prelude.Int.{ℤ}
use cream_bots.Prelude.Dict.{Dict, get, put, keys}
use cream_bots.Prelude.Loops.{for_each}
use cream_bots.Builders.LpFetcher.{Lp}
use cream_bots.Builders.Liquidity.{
  LiquidityEvent, LiquidityEvents, events_of, sorted_liquidity_events,
}

-- TICKSPACING_BY_FEE[fee]
abbrev pub table_entry : ℕ → Result ℕ
table_entry fee =
    if fee == 100
    then ok 1
    else if fee == 200
    then ok 4
    else if fee == 300
    then ok 6
    else if fee == 400
    then ok 8
    else if fee == 500
    then ok 10
    else if fee == 2500
    then ok 50
    else if fee == 3000
    then ok 60
    else if fee == 10000
    then ok 200
    else raise key_error

unfoldable pub tick_spacing_by_fee : Option ℕ → Result ℕ
tick_spacing_by_fee none = raise key_error
tick_spacing_by_fee (some fee) = table_entry fee

unfoldable pub ℤ_discrete : Discrete ℤ
ℤ_discrete = hlevel ℕ_discrete

module _ (Tick Bitmap Rest : Type 0) where
  -- An entry of `liquidity_snapshot`.
  pub record PoolTicks : Type 0 where
    pub tick_bitmap : Dict ℤ Bitmap
    pub tick_data : Dict ℤ Tick

  -- The attributes of `lp_helper` that the loop sets from the pool (it also sets the address, the
  -- liquidity and the tick to constants), the others, and the two dictionaries of the snapshot that
  -- it was given: as long as they are its own, an update changes them too.
  pub record PoolHelper : Type 0 where
    pub tick_data : Dict ℤ Tick
    pub tick_bitmap : Dict ℤ Bitmap
    pub previous : PoolTicks
    pub update_block : ℕ
    pub fee : Option ℕ
    pub tick_spacing : ℕ
    pub rest : Rest

  abbrev pub Snapshot : Type 0
  Snapshot = Dict String PoolTicks

  -- The snapshot, and what one pool leaves of the helper to the next.
  pub record Merge : Type 0 where
    pub snapshot : Snapshot
    pub helper_rest : Rest

  abbrev pub previous_ticks : Option PoolTicks → PoolTicks
  previous_ticks none = record { tick_bitmap = []; tick_data = [] }
  previous_ticks (some ticks) = ticks

  -- The entry that the helper's dictionaries are merged into: a new one, or the one that it was
  -- given.
  abbrev pub entry_to_update : Option PoolTicks → PoolHelper → PoolTicks
  entry_to_update none helper = record { tick_bitmap = []; tick_data = [] }
  entry_to_update (some _) helper = helper.previous

  -- `d.update(other)`
  unfoldable pub update : {A : Type 0} → Dict ℤ A → Dict ℤ A → Dict ℤ A
  unfolding put ℤ_discrete
  update d other = foldl (λ e x. put ℤ_discrete x.0 x.1 e) d other

  -- `lp_helper.external_update(...)` is `external_update`; `value.bitmap` is tested by `has_bits`.
  module _ (external_update : LiquidityEvent → PoolHelper → Result PoolHelper)
      (has_bits : Bitmap → Bool) (lp_data : Dict String Lp) (liquidity_events : LiquidityEvents)
      (start_block : ℕ) where
    unfoldable pub fresh_helper : PoolTicks → Option ℕ → (tick_spacing : ℕ) → Rest → PoolHelper
    fresh_helper ticks fee tick_spacing rest = record {
      tick_data = ticks.tick_data;
      tick_bitmap = ticks.tick_bitmap;
      previous = ticks;
      update_block = start_block;
      fee = fee;
      tick_spacing = tick_spacing;
      rest = rest;
    }

    unfoldable pub merged : Option PoolTicks → PoolHelper → PoolTicks
    unfolding update
    merged old helper = record {
      tick_bitmap = update (entry_to_update old helper).tick_bitmap helper.tick_bitmap;
      tick_data = update (entry_to_update old helper).tick_data helper.tick_data;
    }

    -- The body of the loop, for a pool of the data files.
    unfoldable pub merge_known : (pool_address : String) → Lp → Merge → Result Merge
    unfolding tick_spacing_by_fee fresh_helper for_each merged get put String_discrete
        sorted_liquidity_events
    merge_known pool_address lp s = do
      tick_spacing ← tick_spacing_by_fee lp.fee
      let old = get String_discrete pool_address s.snapshot
      helper ←
          for_each external_update
            (sorted_liquidity_events (events_of pool_address liquidity_events))
            (fresh_helper (previous_ticks old) lp.fee tick_spacing s.helper_rest)
      ok (record {
        snapshot = put String_discrete pool_address (merged old helper) s.snapshot;
        helper_rest = helper.rest;
      })

    abbrev pub merge_if_known : (pool_address : String) → Option Lp → Merge → Result Merge
    merge_if_known pool_address none s = ok s
    merge_if_known pool_address (some lp) s = merge_known pool_address lp s

    -- The body of the loop.
    unfoldable pub merge_pool : (pool_address : String) → Merge → Result Merge
    unfolding merge_known get String_discrete
    merge_pool pool_address s =
        merge_if_known pool_address (get String_discrete pool_address lp_data) s

    -- The bitmaps without bits are dropped before the snapshot is written.
    unfoldable pub without_empty : PoolTicks → PoolTicks
    unfolding select
    without_empty ticks = record {
      tick_bitmap = select (λ x. has_bits x.1) ticks.tick_bitmap;
      tick_data = ticks.tick_data;
    }

    abbrev pub written : Result Merge → Result Snapshot
    written (ok s) = ok (map (λ e. (e.0, without_empty e.1)) s.snapshot)
    written (raise e) = raise e

    -- The variable `lp` is what the last loop over a data file left; without a pool it is not
    -- bound.
    abbrev pub if_bound : Dict String Lp → Result Snapshot → Result Snapshot
    if_bound [] r = raise unbound_error
    if_bound (_ ∷ _) r = r

    unfoldable pub update_snapshot : Merge → Result Snapshot
    unfolding merge_pool without_empty for_each
    update_snapshot s = if_bound lp_data (written (for_each merge_pool (keys liquidity_events) s))
