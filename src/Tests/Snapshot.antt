-- ===== src/Tests/Snapshot.antt =====
-- The merge of one event, of a pool that the snapshot does not have, into a snapshot of another
-- pool.
use mathlib.Core.List.Memᴰ.{head}
use cream_bots.Prelude.{
  ℕ, String, String_discrete, Bool, false, true, some, [], ◌∷◌, ◌≡◌, refl, Exception, key_error,
  Result, ok, raise,
}
use mathlib.Core.List.Memᴰ
use cream_bots.Prelude.Int.{ℤ, pos}
use cream_bots.Prelude.Dict.{Dict, get}
use cream_bots.Builders.LpFetcher.{Lp}
use cream_bots.Builders.Liquidity.{LiquidityEvent, LiquidityEvents}
use cream_bots.Builders.Snapshot.{
  PoolTicks, PoolHelper, Snapshot, Merge, tick_spacing_by_fee, update_snapshot,
}
use cream_bots.Builders.Snapshot.Merged.{update_snapshot-raises}
use cream_bots.Tests.Pools.{pool}

abbrev pub Helper : Type 0
Helper = PoolHelper ℤ Bool (Unit {0})

-- An update that stores the liquidity at the lower tick.
abbrev pub external_update : LiquidityEvent → Helper → Result Helper
external_update e h = ok (record h {
  tick_data = (e.tick_lower, e.liquidity) ∷ h.tick_data;
  tick_bitmap = (e.tick_lower, true) ∷ h.tick_bitmap;
})

abbrev pub of_fee : ℕ → Lp
of_fee fee = record (pool "0xa") { type = "UniswapV3"; fee = some fee }

abbrev pools_of_fee : ℕ → Dict String Lp
pools_of_fee fee = ("0xa", of_fee fee) ∷ []

abbrev event : LiquidityEvent
event = record {
  block = 7;
  tx_index = 0;
  liquidity = pos 5;
  tick_lower = pos 10;
  tick_upper = pos 20;
}

abbrev events : LiquidityEvents
events = ("0xa", event ∷ []) ∷ []

abbrev pub old : PoolTicks ℤ Bool (Unit {0})
old = record { tick_bitmap = (pos 1, false) ∷ (pos 2, true) ∷ []; tick_data = (pos 3, pos 4) ∷ [] }

abbrev before : Merge ℤ Bool (Unit {0})
before = record { snapshot = ("0xb", old) ∷ []; helper_rest = tt }

abbrev merge : ℕ → Result (Snapshot ℤ Bool (Unit {0}))
merge fee =
    update_snapshot ℤ Bool (Unit {0}) external_update (λ b. b) (pools_of_fee fee) events 1000 before

merge_test :
    merge 500
    ≡ ok (
        ("0xb", record old { tick_bitmap = (pos 2, true) ∷ [] })
        ∷ ("0xa", record { tick_bitmap = (pos 10, true) ∷ []; tick_data = (pos 10, pos 5) ∷ [] })
        ∷ [])
unfolding update_snapshot String_discrete
merge_test = refl

update_snapshot-raises_example : (e : Exception) × (merge 600 ≡ raise e)
unfolding tick_spacing_by_fee get String_discrete
update_snapshot-raises_example =
    update_snapshot-raises ℤ Bool (Unit {0}) external_update (λ b. b) (pools_of_fee 600) events 1000
      before "0xa" (of_fee 600) key_error (head refl) refl refl
