-- ===== src/Builders/Liquidity/Collected.antt =====
-- The two passes together.
use cream_bots.Prelude.{
  ℕ, ◌+◌, ◌<◌, ◌≡◌, refl, ◌∙◌, ap, Bool, Option, List, [], ◌++◌, foldl, map, select, ok, arith,
  String, ◌>>=◌,
}
use cream_bots.Builders.Liquidity.{
  Log, LiquidityEvents, events_of, add_log, liquidity_event, first_block, cursor, fetch_events,
  liquidity_events,
}
use cream_bots.Builders.Liquidity.Logs.{node_logs, SettlesAt}
use cream_bots.Builders.Liquidity.Scan.{IsExact, fetch_events-IsExact}
use cream_bots.Builders.Liquidity.Grouping.{concerns, events_of-foldl}

module _ (answers : ℕ → Bool) (settled : ℕ) (up : SettlesAt answers settled)
    (mints burns : List Log) (newest_block : ℕ) (snapshot_last_block : Option ℕ) where
  -- If the node fails in the first `settled` rounds at most, both passes end. There is a list of
  -- Mint logs and one of Burn logs, which hold each event of the blocks behind the snapshot up to
  -- the newest one exactly once, and nothing else. The table holds for each pool the events of
  -- those logs that change its liquidity, first those of the Mint logs, then those of the Burn
  -- logs.
  pub liquidity_events-IsExact :
      (fuel : ℕ)
      → settled + newest_block + 2 < fuel
      → (d : LiquidityEvents) × (ml : List Log) × (bl : List Log) × (liquidity_events
            (node_logs answers mints)
            (node_logs answers burns)
            newest_block
            snapshot_last_block
            fuel
          ≡ ok d)
        × IsExact answers mints newest_block (first_block snapshot_last_block) ml
        × IsExact answers burns newest_block (first_block snapshot_last_block) bl
        × ((pool : String)
            → events_of pool d
              ≡ map liquidity_event (select (concerns pool) ml)
                ++ map liquidity_event (select (concerns pool) bl))
  unfolding liquidity_events
  liquidity_events-IsExact fuel h =
      let start = first_block snapshot_last_block in
      let (ml, runs, exact) =
        fetch_events-IsExact answers mints newest_block settled fuel (cursor start []) up refl
          (omega arith) in
      let (bl, runs', exact') =
        fetch_events-IsExact answers burns newest_block settled fuel
          (cursor start (foldl add_log [] ml)) up refl (omega arith) in
      (
        foldl add_log (foldl add_log [] ml) bl,
        ml,
        bl,
        ap
              (λ r. r >>= λ events.
                fetch_events (node_logs answers burns) newest_block fuel (cursor start events))
              runs
            ∙ runs',
        exact,
        exact',
        λ pool.
            events_of-foldl pool (foldl add_log [] ml) bl
            ∙ ap (λ l. l ++ map liquidity_event (select (concerns pool) bl))
                (events_of-foldl pool [] ml),
      )
