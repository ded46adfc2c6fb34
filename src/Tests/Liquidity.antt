-- ===== src/Tests/Liquidity.antt =====
-- The liquidity fetcher on two pools, and a node that fails in its first round.
use mathlib.Core.List.{Perm}
use cream_bots.Prelude.{
  ℕ, ◌≡◌, refl, Bool, ◌&&◌, String, none, List, [], ◌∷◌, ◌++◌, ok, arith, map, select, ltb, ◌==◌,
}
use cream_bots.Prelude.Int.{pos, negsuc}
use cream_bots.Prelude.Sort.{IsSorted}
use cream_bots.Builders.Liquidity.{
  Log, mint, burn, LiquidityEvent, LiquidityEvents, liquidity_event, events_of, first_block,
  liquidity_events, not_after, sorted_liquidity_events,
}
use cream_bots.Builders.Liquidity.Logs.{node_logs, SettlesAt}
use cream_bots.Builders.Liquidity.Scan.{IsExact}
use cream_bots.Builders.Liquidity.Grouping.{concerns, sorted_liquidity_events-IsSorted}
use cream_bots.Builders.Liquidity.Collected.{liquidity_events-IsExact}

abbrev minted : String → ℕ → Log
minted pool n = record {
  address = pool;
  block_number = n;
  transaction_index = 0;
  event = mint;
  amount = 7;
  tick_lower = negsuc 9;
  tick_upper = pos 10;
}

abbrev burned : String → ℕ → Log
burned pool n = record (minted pool n) { event = burn }

abbrev mints : List Log
mints = minted "p" 1500 ∷ minted "q" 9000 ∷ []

abbrev burns : List Log
burns = burned "p" 1400 ∷ []

abbrev late : ℕ → Bool
late round = ltb 0 round

late-SettlesAt : SettlesAt late 1
late-SettlesAt round h = ground arith

collected :
    liquidity_events (node_logs late mints) (node_logs late burns) 20_000 none 10
    ≡ ok (
        ("p", liquidity_event (minted "p" 1500) ∷ liquidity_event (burned "p" 1400) ∷ [])
        ∷ ("q", liquidity_event (minted "q" 9000) ∷ [])
        ∷ [])
unfolding liquidity_events select
collected = refl

liquidity_events-IsExact_example :
    (d : LiquidityEvents) × (ml : List Log) × (bl : List Log) × (liquidity_events
        (node_logs late mints)
        (node_logs late burns)
        20_000
        none
        20_010
      ≡ ok d)
    × IsExact late mints 20_000 (first_block none) ml
    × IsExact late burns 20_000 (first_block none) bl
    × ((pool : String)
        → events_of pool d
          ≡ map liquidity_event (select (concerns pool) ml)
            ++ map liquidity_event (select (concerns pool) bl))
liquidity_events-IsExact_example =
    liquidity_events-IsExact late 1 late-SettlesAt mints burns 20_000 none 20_010 (omega arith)

abbrev two : List LiquidityEvent
two = liquidity_event (minted "p" 1500) ∷ liquidity_event (burned "p" 1400) ∷ []

sorted_liquidity_events-IsSorted_test :
    IsSorted not_after (sorted_liquidity_events two)
    × Perm (sorted_liquidity_events two) two
    × ((b t : ℕ)
        → select (λ e. e.block == b && e.tx_index == t) (sorted_liquidity_events two)
          ≡ select (λ e. e.block == b && e.tx_index == t) two)
sorted_liquidity_events-IsSorted_test = sorted_liquidity_events-IsSorted two
