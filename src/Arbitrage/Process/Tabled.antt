-- ===== src/Arbitrage/Process/Tabled.antt =====
-- The run of `settle`: the tables that it builds on the way to its reports.
use mathlib.Core.List.Memᴰ
use cream_bots.Prelude.{
  none, List, [], ◌∷◌, ◌≡◌, refl, ◌≢◌, inl, inr, arith, true, ok, Memᴰ, select, mem-select,
  mem_of_select, arith,
}
use cream_bots.Prelude.Sort.{IsSorted, sorted-IsSorted, mem-sorted, mem_of_sorted}
use cream_bots.Degenbot.{Degenbot}
use cream_bots.Arbitrage.Types.{AllArbs}
use cream_bots.Arbitrage.Ranking.{is_profitable, pays_at_least, ranked}
use cream_bots.Arbitrage.Reduction.Greedy.{IsReduced, arbs_without_overlap-IsReduced}
use cream_bots.Arbitrage.Process.{
  Report, profitable_arbs, results_by_arb_id, report_all, reduce_and_report, settle,
}
use cream_bots.Arbitrage.Process.Matching.{
  arb_of, Matched, profitable_arbs-Matched, IsPairing, zip_strict-IsPairing,
}
use cream_bots.Arbitrage.Process.Results.{results_by_arb_id_complete}
use cream_bots.Arbitrage.Process.Reporting.{IsReporting, report_all-IsReporting}

module _ (lib : Degenbot) where
  open lib use {Cycle, cycle_id, Calculation}

  -- The ranking: the profitable results, the larger profits first.
  pub ranked-IsSorted :
      (results : List Calculation) → IsSorted (pays_at_least lib) (ranked lib results)
  unfolding ranked
  ranked-IsSorted results =
      sorted-IsSorted (pays_at_least lib) (λ r s h. ground arith) (λ r s t h k. ground arith)
        (select (is_profitable lib) results)

  pub mem-ranked :
      (results : List Calculation) {r : Calculation}
      → Memᴰ r results
      → is_profitable lib r ≡ true
      → Memᴰ r (ranked lib results)
  unfolding ranked
  mem-ranked results m h =
      mem-sorted (pays_at_least lib) (select (is_profitable lib) results)
        (mem-select (is_profitable lib) results m h)

  pub mem_of_ranked :
      (results : List Calculation) {r : Calculation}
      → Memᴰ r (ranked lib results)
      → Memᴰ r results × (is_profitable lib r ≡ true)
  unfolding ranked
  mem_of_ranked results m =
      mem_of_select (is_profitable lib) results
        (mem_of_sorted (pays_at_least lib) (select (is_profitable lib) results) m)

  module _ (all_arbs : AllArbs Cycle) where
    -- Every profitable result stands for an arbitrage of the table.
    abbrev pub ProfitableKnown : List Calculation → Type 0
    ProfitableKnown results =
        (r : Calculation)
        → Memᴰ r results
        → is_profitable lib r ≡ true
        → arb_of lib all_arbs r ≢ none

    pub record IsTabled (results : List Calculation) (reports : List (Report lib)) : Type 0 where
      pub arbs : List Cycle
      pub pairs : List (Calculation × Cycle)
      pub chosen : List Cycle
      pub matched : Matched lib all_arbs (ranked lib results) arbs
      pub zipped : IsPairing lib all_arbs (ranked lib results) arbs pairs
      pub reduced : IsReduced lib [] arbs chosen
      pub reporting :
          IsReporting lib all_arbs (results_by_arb_id lib all_arbs [] pairs) chosen reports

    abbrev Reduced :
        (rs : List Calculation) (arbs : List Cycle) → List (Calculation × Cycle) → Type 0
    Reduced rs arbs pairs =
        (chosen : List Cycle) × (reports : List (Report lib)) × (reduce_and_report lib all_arbs
            (results_by_arb_id lib all_arbs [] pairs) arbs
          ≡ ok reports)
        × IsReduced lib [] arbs chosen
        × IsReporting lib all_arbs (results_by_arb_id lib all_arbs [] pairs) chosen reports

    reduce_and_report-Reduced :
        (rs : List Calculation) (arbs : List Cycle) (pairs : List (Calculation × Cycle))
        → IsPairing lib all_arbs rs arbs pairs
        → Reduced rs arbs pairs
    unfolding reduce_and_report report_all
    reduce_and_report-Reduced rs [] pairs z = (
      [],
      [],
      refl,
      record {
        kept = λ c m. m;
        drawn = λ c m. inl m;
        disjoint = λ c d m. absurd (Memᴰ.not-nil m);
        covered = λ d m. absurd (Memᴰ.not-nil m);
      },
      record {
        runs = refl;
        sound = λ p m. absurd (Memᴰ.not-nil m);
        complete = λ c m. absurd (Memᴰ.not-nil m);
      },
    )
    reduce_and_report-Reduced rs (best ∷ rest) pairs z =
        let (chosen, runs, reduced) = arbs_without_overlap-IsReduced lib best rest in
        let (reports, reporting) =
          report_all-IsReporting lib all_arbs (results_by_arb_id lib all_arbs [] pairs) chosen
            (λ c m. elim (reduced.drawn c m) [
              | inl nowhere ↦ absurd (Memᴰ.not-nil nowhere)
              | inr old ↦
                  let (r, paired) = z.complete c old in
                  results_by_arb_id_complete lib all_arbs pairs [] paired
            ]) in
        (chosen, reports, rw (runs, reporting.runs), reduced, reporting)

    pub settle-IsTabled :
        (results : List Calculation)
        → ProfitableKnown results
        → (reports : List (Report lib)) × (settle lib all_arbs results ≡ ok reports)
          × IsTabled results reports
    unfolding settle
    settle-IsTabled results known =
        let rs = ranked lib results in
        let arbs = profitable_arbs lib all_arbs rs in
        let matched =
          profitable_arbs-Matched lib all_arbs rs
            (λ r m. let (old, pays) = mem_of_ranked results m in known r old pays) in
        let (pairs, zipped) = zip_strict-IsPairing lib all_arbs rs arbs matched in
        let (chosen, reports, runs, reduced, reporting) =
          reduce_and_report-Reduced rs arbs pairs zipped in
        (
          reports,
          rw (zipped.runs, runs),
          record {
            arbs = arbs;
            pairs = pairs;
            chosen = chosen;
            matched = matched;
            zipped = zipped;
            reduced = reduced;
            reporting = reporting;
          },
        )
