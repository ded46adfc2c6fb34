-- ===== src/Builders/Liquidity/Scan.antt =====
-- The loop asks for each block exactly once, however often the node fails and the span changes.
use Prim.Native.Nat.{min}
use mathlib.Core.Bool.{false≢true}
use mathlib.Core.List.{foldl-append}
use cream_bots.Prelude.{
  ℕ, zero, suc, ◌+◌, ◌-◌, ◌≤◌, ◌<◌, ◌≡◌, refl, sym, ◌∙◌, ap, Bool, true, false, List, [], ◌∷◌, ◌++◌,
  foldl, select, count_if, count_if-append, ok, arith, Bool-cases, inl, inr, Result, dec_le,
}
use cream_bots.Builders.Liquidity.{
  Log, LiquidityEvents, add_log, shrink, grow, Cursor, fetch_round, fetch_events,
}
use cream_bots.Builders.Liquidity.Logs.{in_range, node_logs, SettlesAt}

count-piece :
    (q : Log → Bool) (start mid newest : ℕ) (chain : List Log)
    → start ≤ mid + 1
    → mid ≤ newest
    → count_if q (select (in_range start newest) chain)
      ≡ count_if q (select (in_range start mid) chain)
        + count_if q (select (in_range (mid + 1) newest) chain)
unfolding count_if select
count-piece q start mid newest [] h k = refl
count-piece q start mid newest (log ∷ chain) h k =
    ground (arith, count-piece q start mid newest chain h k)

module _ (answers : ℕ → Bool) (chain : List Log) (newest_block : ℕ) where
  -- The logs of the blocks from `start` on, each once: as many of each sort as the chain has.
  abbrev pub IsExact : ℕ → List Log → Type 0
  IsExact start logs =
      (q : Log → Bool) → count_if q logs ≡ count_if q (select (in_range start newest_block) chain)

  abbrev piece : ℕ → ℕ → List Log
  piece start last = select (in_range start last) chain

  abbrev body : Cursor → Cursor
  body = fetch_round (node_logs answers chain) newest_block

  abbrev run : ℕ → Cursor → Result LiquidityEvents
  run = fetch_events (node_logs answers chain) newest_block

  body_fails :
      (c : Cursor)
      → answers c.round ≡ false
      → body c ≡ record c { round = suc c.round; span = shrink c.span }
  unfolding fetch_round
  body_fails c no_answer = ground arith

  body_ends :
      (c : Cursor)
      → answers c.round ≡ true
      → newest_block ≤ c.start_block + c.span
      → body c ≡ record c {
        round = suc c.round;
        events = foldl add_log c.events (piece c.start_block newest_block);
        done = true;
      }
  unfolding fetch_round
  body_ends c answer h =
      let last : min newest_block (c.start_block + c.span) ≡ newest_block = omega arith in
      ground (arith, last)

  body_goes_on :
      (c : Cursor)
      → answers c.round ≡ true
      → c.start_block + c.span < newest_block
      → body c ≡ record c {
        round = suc c.round;
        start_block = c.start_block + c.span + 1;
        span = grow c.span;
        events = foldl add_log c.events (piece c.start_block (c.start_block + c.span));
      }
  unfolding fetch_round
  body_goes_on c answer h =
      let last : min newest_block (c.start_block + c.span) ≡ c.start_block + c.span = omega arith in
      ground (arith, last)

  run_on : (fuel : ℕ) (c : Cursor) → c.done ≡ false → run (suc fuel) c ≡ run fuel (body c)
  unfolding fetch_events
  run_on fuel c going = rw going

  run_done : (fuel : ℕ) (c : Cursor) → c.done ≡ true → run (suc fuel) c ≡ ok c.events
  unfolding fetch_events
  run_done fuel c over = rw over

  -- From round `settled` on the node always answers. Then the loop ends, and its table is the one
  -- that results from a list of logs that holds each event of the blocks from the start block to
  -- the newest one exactly once, and nothing else.
  pub fetch_events-IsExact :
      (settled fuel : ℕ) (c : Cursor)
      → SettlesAt answers settled
      → c.done ≡ false
      → (settled - c.round) + (newest_block + 1 - c.start_block) + 1 < fuel
      → (logs : List Log) × (run fuel c ≡ ok (foldl add_log c.events logs))
        × IsExact c.start_block logs
  fetch_events-IsExact settled zero c up going h = absurd (omega arith)
  fetch_events-IsExact settled (suc zero) c up going h = absurd (omega arith)
  fetch_events-IsExact settled (suc (suc fuel)) c up going h = elim (Bool-cases (answers c.round)) [
    | inr no_answer ↦
        let early : c.round < settled = early_of no_answer in
        let (logs, runs, exact) =
          fetch_events-IsExact settled (suc fuel)
            (record c { round = suc c.round; span = shrink c.span }) up going (omega arith) in
        (
          logs,
          run_on (suc fuel) c going ∙ ap (run (suc fuel)) (body_fails c no_answer) ∙ runs,
          exact,
        )
    | inl answer ↦ elim (dec_le newest_block (c.start_block + c.span)) [
      | yes last ↦ (
        piece c.start_block newest_block,
        run_on (suc fuel) c going
            ∙ ap (run (suc fuel)) (body_ends c answer last)
            ∙ run_done fuel _ refl,
        λ q. refl,
      )
      | no more ↦
          let mid = c.start_block + c.span in
          let (logs, runs, exact) =
            fetch_events-IsExact settled (suc fuel)
              (record c {
                round = suc c.round;
                start_block = mid + 1;
                span = grow c.span;
                events = foldl add_log c.events (piece c.start_block mid);
              })
              up going (omega arith) in
          (
            piece c.start_block mid ++ logs,
            run_on (suc fuel) c going
                ∙ ap (run (suc fuel)) (body_goes_on c answer (omega arith))
                ∙ runs
                ∙ ap ok (sym (foldl-append add_log c.events (piece c.start_block mid) logs)),
            λ q. omega (
              arith,
              exact q,
              count_if-append q (piece c.start_block mid) logs,
              count-piece q c.start_block mid newest_block chain (omega arith) (omega arith),
            ),
          )
    ]
  ]
    where
      early_of : answers c.round ≡ false → c.round < settled
      early_of no_answer = elim (dec_le settled c.round) [
        | yes late ↦ absurd (false≢true (sym no_answer ∙ up c.round late))
        | no early ↦ omega arith
      ]
