-- ===== src/Arbitrage/Process.antt =====
-- app/core/arbitrage_service.py: process_onchain_arbs, from the calculation of the profits to the
-- reported arbitrages. The steps from the sorting on are those of process_backrun_arbs too.
pub mod Collected
pub mod Matching
pub mod Results
pub mod Reporting
pub mod Tabled
pub mod Reports
pub mod Settled
pub mod Failures
pub mod Onchain
use cream_bots.Prelude.{
  String, String_discrete, Option, none, some, List, [], ◌∷◌, Result, ok, raise, value_error,
  key_error, ◌>>=◌,
}
use cream_bots.Prelude.Dict.{Dict, get, put}
use cream_bots.Degenbot.{Degenbot, Executor}
use cream_bots.Arbitrage.Types.{ArbDetails, AllArbs}
use cream_bots.Arbitrage.Ranking.{ranked}
use cream_bots.Arbitrage.Reduction.{arbs_without_overlap}

-- `zip(..., strict=True)`, exhausted.
unfoldable pub zip_strict {ℓ} : {A B : Type ℓ} → List A → List B → Result (List (A × B))
zip_strict [] [] = ok []
zip_strict (x ∷ xs) (y ∷ ys) = do rest ← zip_strict xs ys; ok ((x, y) ∷ rest)
zip_strict xs ys = raise value_error

module _ (lib : Degenbot) (exec : Executor lib) where
  open lib use {Cycle, Calculation}
  open exec use {Override, Future, calculate_with_pool, outcome, as_completed}

  -- `calculation_futures`: a cycle whose call raises is passed over.
  unfoldable pub submit : Option Override → List Cycle → List Future
  submit override [] = []
  submit override (c ∷ cs) =
      let rest = submit override cs in
      elim (calculate_with_pool override c) [ ok future ↦ future ∷ rest | raise _ ↦ rest ]

  -- `calculation_results`: so is a future that fails.
  unfoldable pub collect : List Future → List Calculation
  collect [] = []
  collect (future ∷ futures) =
      let rest = collect futures in elim (outcome future) [ ok r ↦ r ∷ rest | raise _ ↦ rest ]

  unfoldable pub calculation_results : Option Override → List Cycle → List Calculation
  unfolding submit collect
  calculation_results override helpers = collect (as_completed (submit override helpers))

-- What is printed for an arbitrage that is found profitable: `arb_details` and `arb_result`.
pub record Report (lib : Degenbot) : Type 0 where
  pub details : Option (ArbDetails (Degenbot.Cycle lib))
  pub result : Degenbot.Calculation lib

module _ (lib : Degenbot) where
  open lib use {Cycle, cycle_id, Calculation, calculation_id}

  module _ (all_arbs : AllArbs Cycle) where
    -- `all_profitable_arbs`: a result whose id is not in the table is passed over.
    unfoldable pub profitable_arbs : List Calculation → List Cycle
    unfolding get String_discrete
    profitable_arbs [] = []
    profitable_arbs (r ∷ rs) =
        let rest = profitable_arbs rs in
        elim (get String_discrete (calculation_id r) all_arbs) [
          | none ↦ rest
          | some d ↦ d.lp_cycle ∷ rest
        ]

    -- `results_by_arb_id`, from the zipped pairs.
    unfoldable pub results_by_arb_id :
        Dict String Calculation → List (Calculation × Cycle) → Dict String Calculation
    unfolding put String_discrete
    results_by_arb_id table [] = table
    results_by_arb_id table ((r, c) ∷ pairs) =
        results_by_arb_id (put String_discrete (cycle_id c) r table) pairs

    -- `d[k]`
    abbrev pub required : Option Calculation → Result Calculation
    required none = raise key_error
    required (some r) = ok r

    -- The loop over `arbs_without_overlap`. That is a set in the source, whose order is not
    -- specified; here it is the list of the cycles as they were chosen.
    unfoldable pub report_all : Dict String Calculation → List Cycle → Result (List (Report lib))
    unfolding get String_discrete
    report_all table [] = ok []
    report_all table (c ∷ cs) = do
      r ← required (get String_discrete (cycle_id c) table)
      rest ← report_all table cs
      ok (record { details = get String_discrete (calculation_id r) all_arbs; result = r } ∷ rest)

    -- From `if not all_profitable_arbs` on.
    unfoldable pub reduce_and_report :
        Dict String Calculation → List Cycle → Result (List (Report lib))
    unfolding arbs_without_overlap report_all
    reduce_and_report table [] = ok []
    reduce_and_report table (best ∷ rest) = do
      chosen ← arbs_without_overlap lib best rest
      report_all table chosen

    -- From the sorting on.
    unfoldable pub settle : List Calculation → Result (List (Report lib))
    unfolding ranked profitable_arbs zip_strict results_by_arb_id reduce_and_report
    settle results = do
      let rs = ranked lib results
      let arbs = profitable_arbs rs
      pairs ← zip_strict rs arbs
      reduce_and_report (results_by_arb_id [] pairs) arbs

-- `process_onchain_arbs(arb_helpers)`; an exception ends the task that runs it.
unfoldable pub process_onchain_arbs :
    (lib : Degenbot)
    → Executor lib
    → AllArbs (Degenbot.Cycle lib)
    → List (Degenbot.Cycle lib)
    → Result (List (Report lib))
unfolding calculation_results settle
process_onchain_arbs lib exec all_arbs [] = ok []
process_onchain_arbs lib exec all_arbs (h ∷ hs) =
    settle lib all_arbs (calculation_results lib exec none (h ∷ hs))
