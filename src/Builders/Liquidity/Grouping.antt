-- ===== src/Builders/Liquidity/Grouping.antt =====
-- The table of the events of each pool, and their order.
use mathlib.Core.List.{Perm, append-nil, append_assoc, map-append}
use cream_bots.Prelude.{
  ℕ, ◌≡◌, sym, ◌∙◌, ap, Bool, not, ◌&&◌, String, String_discrete, List, [], ◌∷◌, ◌++◌, foldl, map,
  select, arith, holds, select-append, Bool-cases, inl, inr, ◌==◌,
}
use cream_bots.Prelude.Dict.{get-put}
use cream_bots.Prelude.Sort.{IsSorted, sorted-IsSorted, sorted-perm, select-sorted}
use cream_bots.Builders.Liquidity.{
  Log, LiquidityEvent, LiquidityEvents, is_zero, liquidity_event, events_of, add_log, not_after,
  sorted_liquidity_events,
}

-- A log of the pool that changes its liquidity.
unfoldable pub concerns : String → Log → Bool
concerns pool log =
    holds (String_discrete log.address pool) && not (is_zero (liquidity_event log).liquidity)

events_of-add_log :
    (pool : String) (d : LiquidityEvents) (log : Log)
    → events_of pool (add_log d log)
      ≡ events_of pool d ++ map liquidity_event (select (concerns pool) (log ∷ []))
unfolding add_log concerns select
events_of-add_log pool d log = elim (Bool-cases (is_zero e.liquidity)) [
  | inl zero_is ↦ ground (arith, append-nil (events_of pool d))
  | inr moves ↦ ground (
    arith,
    append-nil (events_of pool d),
    get-put String_discrete log.address pool (events_of log.address d ++ e ∷ []) d,
  )
]
  where
    e : LiquidityEvent
    e = liquidity_event log

-- The events that the table holds for a pool are those of the logs of that pool which change its
-- liquidity, in the order in which they came, behind the events that it held before.
pub events_of-foldl :
    (pool : String) (d : LiquidityEvents) (logs : List Log)
    → events_of pool (foldl add_log d logs)
      ≡ events_of pool d ++ map liquidity_event (select (concerns pool) logs)
events_of-foldl pool d [] = unfold select in sym (append-nil (events_of pool d))
events_of-foldl pool d (log ∷ logs) =
    events_of-foldl pool (add_log d log) logs
    ∙ ap (λ l. l ++ map liquidity_event (select (concerns pool) logs))
        (events_of-add_log pool d log)
    ∙ append_assoc (events_of pool d) (map liquidity_event (select (concerns pool) (log ∷ []))) _
    ∙ ap (λ l. events_of pool d ++ l)
        (sym (map-append liquidity_event (select (concerns pool) (log ∷ [])) _)
          ∙ ap (map liquidity_event) (sym (select-append (concerns pool) (log ∷ []) logs)))

-- The events of a pool are put in the order of their blocks, and of the transactions within a
-- block; none is lost, and those of one transaction stay in the order in which they came.
pub sorted_liquidity_events-IsSorted :
    (events : List LiquidityEvent)
    → IsSorted not_after (sorted_liquidity_events events)
      × Perm (sorted_liquidity_events events) events
      × ((b t : ℕ)
          → select (λ e. e.block == b && e.tx_index == t) (sorted_liquidity_events events)
            ≡ select (λ e. e.block == b && e.tx_index == t) events)
unfolding sorted_liquidity_events
sorted_liquidity_events-IsSorted events = (
  sorted-IsSorted not_after (λ e f h. ground arith) (λ e f g h k. ground arith) events,
  sorted-perm not_after events,
  λ b t. select-sorted not_after _ events (λ e f h k. ground arith),
)
