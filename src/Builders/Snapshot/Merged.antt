-- ===== src/Builders/Snapshot/Merged.antt =====
-- When the merge returns, and what it leaves alone.
use cream_bots.Prelude.{
  ℕ, String, String_discrete, Bool, Option, none, some, [], ◌∷◌, ◌≡◌, refl, Memᴰ, Exception, Result,
  ◌⊎◌, raise,
}
use mathlib.Core.List.Memᴰ
use cream_bots.Prelude.Dict.{Dict, get, keys}
use cream_bots.Prelude.Loops.{for_each, for_each-raises}
use cream_bots.Builders.LpFetcher.{Lp}
use cream_bots.Builders.Liquidity.{LiquidityEvent, LiquidityEvents}
use cream_bots.Builders.Snapshot.{
  PoolTicks, PoolHelper, Snapshot, Merge, tick_spacing_by_fee, merge_known, merge_pool,
  without_empty, written, if_bound, update_snapshot,
}

module _ (Tick Bitmap Rest : Type 0)
    (external_update : LiquidityEvent
      → PoolHelper Tick Bitmap Rest
      → Result (PoolHelper Tick Bitmap Rest))
    (has_bits : Bitmap → Bool) (lp_data : Dict String Lp) (liquidity_events : LiquidityEvents)
    (start_block : ℕ) where
  -- What ends the merge: degenbot's update of a pool by an event, the look-up of the fee of a pool
  -- that has events, or that there is no pool at all.
  abbrev pub IsCause : Exception → Type 0
  IsCause x =
      ((e : LiquidityEvent) × (h : PoolHelper Tick Bitmap Rest) × (external_update e h ≡ raise x))
      ⊎ ((a : String) × (lp : Lp) × Memᴰ a (keys liquidity_events)
          × (get String_discrete a lp_data ≡ some lp)
          × (tick_spacing_by_fee lp.fee ≡ raise x))
      ⊎ ((lp_data ≡ []) × (x ≡ Exception.unbound_error))

  -- The entry of an address is what it was.
  abbrev At : String → Option (PoolTicks Tick Bitmap Rest) → Merge Tick Bitmap Rest → Type 0
  At a o s = get String_discrete a s.snapshot ≡ o

  abbrev pub Ticks : Type 0
  Ticks = PoolTicks Tick Bitmap Rest

  -- What is written for a pool.
  abbrev pub saved : Option Ticks → Option Ticks
  saved none = none
  saved (some ticks) = some (
      without_empty Tick Bitmap Rest external_update has_bits lp_data liquidity_events start_block
        ticks)

  -- A pool with events whose fee is not in the table ends the whole merge by an exception.
  pub update_snapshot-raises :
      (s : Merge Tick Bitmap Rest) (a : String) (lp : Lp) (x : Exception)
      → Memᴰ a (keys liquidity_events)
      → get String_discrete a lp_data ≡ some lp
      → tick_spacing_by_fee lp.fee ≡ raise x
      → (e : Exception) × (update_snapshot Tick Bitmap Rest external_update has_bits lp_data
            liquidity_events start_block s
          ≡ raise e)
  unfolding update_snapshot merge_pool merge_known
  update_snapshot-raises s a lp x m known bad =
      let (e, r) =
        for_each-raises
          (merge_pool Tick Bitmap Rest external_update has_bits lp_data liquidity_events
            start_block)
          (keys liquidity_events) m (λ d. (x, rw (known, bad) refl)) s in
      go lp_data e r
    where
      go :
          (d : Dict String Lp) (e : Exception)
          → for_each
              (merge_pool Tick Bitmap Rest external_update has_bits lp_data liquidity_events
                start_block)
              (keys liquidity_events)
              s
            ≡ raise e
          → (e' : Exception) × (if_bound Tick Bitmap Rest external_update has_bits lp_data
                liquidity_events start_block d
                (written Tick Bitmap Rest external_update has_bits lp_data liquidity_events
                  start_block
                  (for_each
                    (merge_pool Tick Bitmap Rest external_update has_bits lp_data liquidity_events
                      start_block)
                    (keys liquidity_events)
                    s))
              ≡ raise e')
      go [] e r = (Exception.unbound_error, refl)
      go (_ ∷ _) e r = (e, rw r refl)
