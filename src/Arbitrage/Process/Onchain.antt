-- ===== src/Arbitrage/Process/Onchain.antt =====
-- process_onchain_arbs as a whole.
use mathlib.Core.List.Memᴰ
use mathlib.Core.List.Perm
use mathlib.Core.List.{filter_map}
use cream_bots.Prelude.{List, [], ◌∷◌, ◌≡◌, refl, sym, subst, none, ok}
use cream_bots.Degenbot.{Degenbot, Executor}
use cream_bots.Arbitrage.Types.{AllArbs}
use cream_bots.Arbitrage.Process.{
  Report, submit, collect, calculation_results, process_onchain_arbs,
}
use cream_bots.Arbitrage.Process.Collected.{calculation_results-perm}
use cream_bots.Arbitrage.Process.Tabled.{ProfitableKnown}
use cream_bots.Arbitrage.Process.Reports.{IsKeyed, IdsDiffer, IsSettled}
use cream_bots.Arbitrage.Process.Settled.{settle-IsSettled}

module _ (lib : Degenbot) (exec : Executor lib) (all_arbs : AllArbs (Degenbot.Cycle lib)) where
  open lib use {Cycle}

  calculation_results-nil : calculation_results lib exec none [] ≡ []
  unfolding submit collect filter_map
  calculation_results-nil = Perm.eq-nil (calculation_results-perm lib exec none [])

  nothing-IsSettled : IsSettled lib all_arbs [] []
  nothing-IsSettled = record {
    sound = λ p m. absurd (Memᴰ.not-nil m);
    disjoint = λ p q d e m. absurd (Memᴰ.not-nil m);
    covered = λ r d m. absurd (Memᴰ.not-nil m);
  }

  -- For the results that the executor gives for the helpers: if each profitable one stands for an
  -- arbitrage of `all_arbs`, whose keys are the ids, and no two different results carry one id,
  -- then process_onchain_arbs ends with reports. They are of profitable results, two reported
  -- arbitrages with different ids share no pool, and each profitable arbitrage is reported, or
  -- shares a pool with a reported one that pays at least as much.
  pub process_onchain_arbs-IsSettled :
      (helpers : List Cycle)
      → IsKeyed lib all_arbs
      → ProfitableKnown lib all_arbs (calculation_results lib exec none helpers)
      → IdsDiffer lib all_arbs (calculation_results lib exec none helpers)
      → (reports : List (Report lib)) × (process_onchain_arbs lib exec all_arbs helpers
          ≡ ok reports)
        × IsSettled lib all_arbs (calculation_results lib exec none helpers) reports
  unfolding process_onchain_arbs
  process_onchain_arbs-IsSettled [] keyed known differ = (
    [],
    refl,
    subst (λ results. IsSettled lib all_arbs results []) (sym calculation_results-nil)
        nothing-IsSettled,
  )
  process_onchain_arbs-IsSettled (h ∷ hs) keyed known differ =
      settle-IsSettled lib all_arbs (calculation_results lib exec none (h ∷ hs)) keyed known differ
