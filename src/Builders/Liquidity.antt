-- ===== src/Builders/Liquidity.antt =====
-- builders/liquidity_fetcher.py: the collection of the Mint and Burn events of a chain, and their
-- order for each pool.
pub mod Logs
pub mod Scan
pub mod Grouping
pub mod Collected
use cream_bots.Prelude.{
  ℕ, zero, suc, ◌+◌, ◌*◌, ◌/◌, String, String_discrete, Bool, true, false, ◌&&◌, ◌||◌, Option, none,
  some, List, [], ◌∷◌, ◌++◌, foldl, Result, ok, raise, out_of_fuel, ltb, leb, ◌==◌, if◌then◌else◌,
  ◌>>=◌,
}
use cream_bots.Prelude.Int.{ℤ, pos, neg}
use cream_bots.Prelude.Dict.{Dict, get, put}
use cream_bots.Prelude.Sort.{sorted}
use Prim.Native.Nat.{min, max}

-- UNISWAPV3_START_BLOCK and BLOCK_SPAN
abbrev pub start_block_default : ℕ
start_block_default = 1000

abbrev pub block_span_default : ℕ
block_span_default = 10_000

pub data Kind : Type 0 where
  mint burn : Kind

-- A decoded event.
pub record Log : Type 0 where
  pub address : String
  pub block_number : ℕ
  pub transaction_index : ℕ
  pub event : Kind
  pub amount : ℕ
  pub tick_lower : ℤ
  pub tick_upper : ℤ

-- A tuple of `liquidity_events`.
pub record LiquidityEvent : Type 0 where
  pub block : ℕ
  pub tx_index : ℕ
  pub liquidity : ℤ
  pub tick_lower : ℤ
  pub tick_upper : ℤ

-- `amount * (-1 if event == "Burn" else 1)`
unfoldable pub signed : Kind → ℕ → ℤ
signed mint amount = pos amount
signed burn amount = neg (pos amount)

unfoldable pub liquidity_event : Log → LiquidityEvent
unfolding signed
liquidity_event log = record {
  block = log.block_number;
  tx_index = log.transaction_index;
  liquidity = signed log.event log.amount;
  tick_lower = log.tick_lower;
  tick_upper = log.tick_upper;
}

-- `liquidity == 0`
abbrev pub is_zero : ℤ → Bool
is_zero (pos n) = n == 0
is_zero _ = false

abbrev pub LiquidityEvents : Type 0
LiquidityEvents = Dict String (List LiquidityEvent)

-- `liquidity_events[pool_address]`, made an empty list first if there is none.
abbrev pub events_of : String → LiquidityEvents → List LiquidityEvent
events_of pool_address d = elim (get String_discrete pool_address d) [ none ↦ [] | some l ↦ l ]

-- The body of the loop over `event_logs`.
unfoldable pub add_log : LiquidityEvents → Log → LiquidityEvents
unfolding liquidity_event get put String_discrete
add_log d log =
    let e = liquidity_event log in
    if is_zero e.liquidity
    then d
    else put String_discrete log.address (events_of log.address d ++ e ∷ []) d

-- `int(0.75 * block_span)` and `int(1.05 * block_span)`. The products of floats round down to these
-- for every span that the loop meets (they are below 2 ^ 40).
abbrev pub shrink : ℕ → ℕ
shrink span = 3 * span / 4

abbrev pub grow : ℕ → ℕ
grow span = 21 * span / 20

abbrev pub first_block : Option ℕ → ℕ
first_block none = start_block_default
first_block (some snapshot_last_block) = max start_block_default (snapshot_last_block + 1)

-- The answer of the node to the query of a round; rounds are numbered.
abbrev pub GetLogs : Type 0
GetLogs = (round first last : ℕ) → Result (List Log)

-- The variables of the loop over the blocks.
pub record Cursor : Type 0 where
  pub round : ℕ
  pub start_block : ℕ
  pub span : ℕ
  pub events : LiquidityEvents
  pub done : Bool

-- The body of `while not done`.
unfoldable pub fetch_round : GetLogs → (newest_block : ℕ) → Cursor → Cursor
unfolding add_log
fetch_round get_logs newest_block c =
    let end_block = min newest_block (c.start_block + c.span) in
    elim (get_logs c.round c.start_block end_block) [
      | raise _ ↦ record c { round = suc c.round; span = shrink c.span }
      | ok logs ↦
          let after : Cursor = record c {
            round = suc c.round;
            events = foldl add_log c.events logs;
          } in
          if end_block == newest_block
          then record after { done = true }
          else record after { start_block = end_block + 1; span = grow c.span }
    ]

-- The loop; a round is one unit of fuel.
unfoldable pub fetch_events : GetLogs → (newest_block fuel : ℕ) → Cursor → Result LiquidityEvents
unfolding fetch_round
fetch_events get_logs newest_block zero c = raise out_of_fuel
fetch_events get_logs newest_block (suc fuel) c =
    let rest = fetch_events get_logs newest_block fuel (fetch_round get_logs newest_block c) in
    if c.done then ok c.events else rest

abbrev pub cursor : ℕ → LiquidityEvents → Cursor
cursor start events = record {
  round = 0;
  start_block = start;
  span = block_span_default;
  events = events;
  done = false;
}

-- The loop over the two kinds of event: first all Mint events, then all Burn events.
unfoldable pub liquidity_events :
    (mints burns : GetLogs) (newest_block : ℕ) (snapshot_last_block : Option ℕ) (fuel : ℕ)
    → Result LiquidityEvents
unfolding fetch_events
liquidity_events mints burns newest_block snapshot_last_block fuel = do
  let start = first_block snapshot_last_block
  events ← fetch_events mints newest_block fuel (cursor start [])
  fetch_events burns newest_block fuel (cursor start events)

-- `key=lambda event: (event[0], event[1])`
abbrev pub not_after : LiquidityEvent → LiquidityEvent → Bool
not_after e f = ltb e.block f.block || (e.block == f.block && leb e.tx_index f.tx_index)

-- `sorted_liquidity_events`
unfoldable pub sorted_liquidity_events : List LiquidityEvent → List LiquidityEvent
unfolding sorted
sorted_liquidity_events events = sorted not_after events
