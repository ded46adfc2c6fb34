-- ===== src/Tests/Arbitrage.antt =====
-- The arbitrage service on four cycles.
use native.Mathlib.Decide.{ℕ_discrete}
use mathlib.Core.List.{Perm, filter_map}
use cream_bots.Prelude.{
  String, String_discrete, Option, Result, key_error, none, some, List, [], ◌∷◌, ◌≡◌, refl, ◌≢◌,
  ◌↔◌, ◌⊎◌, ok, raise, value_error, attribute_error, true, All, All-mem, ne_of_compare, Memᴰ, map,
  arith,
}
use cream_bots.Prelude.Int.{pos, negsuc}
use cream_bots.Prelude.Dict.{get, get-All, values}
use cream_bots.Arbitrage.Types.{ArbDetails, AllArbs}
use cream_bots.Arbitrage.Affected.{find_affected_arbs}
use cream_bots.Arbitrage.Affected.Found.{IsHit, find_affected_arbs_iff}
use cream_bots.Arbitrage.Ranking.{is_profitable}
use cream_bots.Arbitrage.Reduction.{arbs_without_overlap}
use cream_bots.Arbitrage.Reduction.Greedy.{IsReduced, arbs_without_overlap-IsReduced}
use cream_bots.Arbitrage.Process.{Report, calculation_results, settle, process_onchain_arbs}
use cream_bots.Arbitrage.Process.Collected.{calculated, calculation_results-perm}
use cream_bots.Arbitrage.Process.Matching.{arb_of}
use cream_bots.Arbitrage.Process.Tabled.{ProfitableKnown}
use cream_bots.Arbitrage.Process.Reports.{IsKeyed, IdsDiffer, IsSettled}
use cream_bots.Arbitrage.Process.Failures.{Stray, settle-cases}
use cream_bots.Arbitrage.Process.Onchain.{process_onchain_arbs-IsSettled}
use cream_bots.Arbitrage.Service.{find_onchain_arbs, init, process_backrun_arbs}
use cream_bots.Arbitrage.Service.Queue.{nonempty, find_onchain_arbs_drains}
use cream_bots.Json.{Value, text, number, Object}
use cream_bots.Tests.Toy.{ToyCycle, ToyResult, toy, toy_executor, calculate, ToyCycle-discrete}

abbrev low : ToyCycle
low = record { id = "low"; pools = "p" ∷ "q" ∷ []; profit = pos 5 }

abbrev high : ToyCycle
high = record { id = "high"; pools = "q" ∷ "r" ∷ []; profit = pos 9 }

abbrev flat : ToyCycle
flat = record { id = "flat"; pools = "s" ∷ "t" ∷ "u" ∷ []; profit = pos 0 }

abbrev loss : ToyCycle
loss = record { id = "loss"; pools = "v" ∷ "w" ∷ []; profit = negsuc 0 }

abbrev arb : ToyCycle → String × ArbDetails ToyCycle
arb c = (c.id, record { lp_cycle = c; status = "load" })

abbrev table : AllArbs ToyCycle
table = arb low ∷ arb high ∷ arb flat ∷ arb loss ∷ []

abbrev report : ToyCycle → Report toy
report c = record {
  details = some (record { lp_cycle = c; status = "load" });
  result = record { id = c.id; profit = c.profit };
}

program : Unit {0}
unfolding find_affected_arbs process_onchain_arbs calculate ToyCycle-discrete String_discrete
    ℕ_discrete
program = tt

affected : find_affected_arbs toy table "q" ≡ low ∷ high ∷ []
unfolding program
affected = refl

processed :
    process_onchain_arbs toy toy_executor table (low ∷ high ∷ flat ∷ loss ∷ [])
    ≡ ok (report high ∷ report flat ∷ [])
unfolding program
processed = refl

abbrev helpers : List ToyCycle
helpers = low ∷ high ∷ flat ∷ []

abbrev results : List ToyResult
results = (report flat).result ∷ (report high).result ∷ (report low).result ∷ []

results_are : calculation_results toy toy_executor none helpers ≡ results
unfolding calculation_results program
results_are = refl

table-IsKeyed : IsKeyed toy table
table-IsKeyed =
    get-All String_discrete (λ e. e.1.lp_cycle.id ≡ e.0) table (refl, (refl, (refl, (refl, tt))))

results-ProfitableKnown : ProfitableKnown toy table results
unfolding get program
results-ProfitableKnown =
    All-mem (λ r. is_profitable toy r ≡ true → arb_of toy table r ≢ none) results
      (λ _ e. cc, (λ _ e. cc, (λ _ e. cc, tt)))

results-IdsDiffer : IdsDiffer toy table results
results-IdsDiffer r s m n =
    All-mem (λ s. r.id ≡ s.id → r ≡ s) results
      (All-mem (λ r. All (λ s. r.id ≡ s.id → r ≡ s) results) results
        (
          (
            λ _. refl,
            (
              λ e. absurd (ne_of_compare "flat" "high" refl e),
              (λ e. absurd (ne_of_compare "flat" "low" refl e), tt),
            ),
          ),
          (
            (
              λ e. absurd (ne_of_compare "high" "flat" refl e),
              (λ _. refl, (λ e. absurd (ne_of_compare "high" "low" refl e), tt)),
            ),
            (
              (
                λ e. absurd (ne_of_compare "low" "flat" refl e),
                (λ e. absurd (ne_of_compare "low" "high" refl e), (λ _. refl, tt)),
              ),
              tt,
            ),
          ),
        )
        r m)
      s n

process_onchain_arbs-IsSettled_example :
    (reports : List (Report toy)) × (process_onchain_arbs toy toy_executor table helpers
      ≡ ok reports)
    × IsSettled toy table (calculation_results toy toy_executor none helpers) reports
process_onchain_arbs-IsSettled_example =
    process_onchain_arbs-IsSettled toy toy_executor table helpers table-IsKeyed
      (rw results_are results-ProfitableKnown) (rw results_are results-IdsDiffer)

-- `all_arbs` without the entry of `high`.
abbrev gap : AllArbs ToyCycle
gap = arb low ∷ []

settle-cases_example :
    Stray toy gap results × (settle toy gap results ≡ raise value_error)
    ⊎ (¬ Stray toy gap results)
      × ((reports : List (Report toy)) × (settle toy gap results ≡ ok reports))
settle-cases_example = settle-cases toy gap results

fails : process_onchain_arbs toy toy_executor gap helpers ≡ raise value_error
unfolding program
fails = refl

arbs_without_overlap-IsReduced_example :
    (out : List ToyCycle) × (arbs_without_overlap toy high (low ∷ flat ∷ []) ≡ ok out)
    × IsReduced toy [] (high ∷ low ∷ flat ∷ []) out
arbs_without_overlap-IsReduced_example = arbs_without_overlap-IsReduced toy high (low ∷ flat ∷ [])

find_affected_arbs_iff_example :
    Memᴰ flat (find_affected_arbs toy table "t")
    ↔ (Memᴰ flat (map (λ d. d.lp_cycle) (values table)) × IsHit toy "t" flat.pools)
find_affected_arbs_iff_example = find_affected_arbs_iff toy "t" table flat

find_onchain_arbs_drains_example :
    find_onchain_arbs toy 3 table
      (record { pools_to_process = "q" ∷ "x" ∷ "t" ∷ []; unfinished = 3; tasks = [] })
    ≡ record {
      pools_to_process = [];
      unfinished = 0;
      tasks = nonempty (map (find_affected_arbs toy table) ("q" ∷ "x" ∷ "t" ∷ []));
    }
find_onchain_arbs_drains_example =
    find_onchain_arbs_drains toy table 3 ("q" ∷ "x" ∷ "t" ∷ []) 3 [] (omega arith)

abbrev backrun_of : Option (AllArbs ToyCycle) → Object → Result (List (Report toy))
backrun_of app_state pending_transaction =
    process_backrun_arbs toy toy_executor (λ hash. ok (known hash))
      (record { bot_state = table; app_state = app_state }) pending_transaction none helpers
  where
    known : Value → Option String
    known (text hash) = some "0xaa"
    known _ = none

-- The service as its constructor leaves it has no `app_state`.
no_app_state_test : backrun_of (init toy table).app_state [] ≡ raise attribute_error
unfolding program process_backrun_arbs init
no_app_state_test = refl

no_hash_test : backrun_of (some table) [] ≡ raise key_error
unfolding program process_backrun_arbs
no_hash_test = refl

not_found_test : backrun_of (some table) (("hash", number (pos 2)) ∷ []) ≡ ok []
unfolding program process_backrun_arbs
not_found_test = refl

found_test :
    backrun_of (some table) (("hash", text "0x1") ∷ []) ≡ ok (report high ∷ report flat ∷ [])
unfolding program process_backrun_arbs
found_test = refl

calculation_results-perm_example :
    Perm
      (calculation_results toy toy_executor none helpers)
      (filter_map (calculated toy toy_executor none) helpers)
calculation_results-perm_example = calculation_results-perm toy toy_executor none helpers
