-- ===== src/Arbitrage/Process/Reporting.antt =====
-- The reports of the chosen cycles.
use mathlib.Core.List.Memᴰ
use mathlib.Core.List.Memᴰ.{head, tail}
use cream_bots.Prelude.{String, some, List, [], ◌∷◌, ◌≡◌, refl, inl, inr, ok, Memᴰ}
use cream_bots.Prelude.Dict.{Dict}
use cream_bots.Degenbot.{Degenbot}
use cream_bots.Arbitrage.Types.{AllArbs}
use cream_bots.Arbitrage.Process.{Report, report_all}
use cream_bots.Arbitrage.Process.Matching.{arb_of}
use cream_bots.Arbitrage.Process.Results.{found}

module _ (lib : Degenbot) (all_arbs : AllArbs (Degenbot.Cycle lib)) where
  open lib use {Cycle, cycle_id, Calculation}

  pub record IsReporting (table : Dict String Calculation) (cs : List Cycle)
      (reports : List (Report lib)) : Type 0 where
    pub runs : report_all lib all_arbs table cs ≡ ok reports
    pub sound :
        (p : Report lib)
        → Memᴰ p reports
        → (c : Cycle) × Memᴰ c cs
          × (found lib all_arbs table (cycle_id c) ≡ some p.result)
          × (p.details ≡ arb_of lib all_arbs p.result)
    pub complete :
        (c : Cycle)
        → Memᴰ c cs
        → (p : Report lib) × Memᴰ p reports
          × (found lib all_arbs table (cycle_id c) ≡ some p.result)
          × (p.details ≡ arb_of lib all_arbs p.result)

  pub report_all-IsReporting :
      (table : Dict String Calculation) (cs : List Cycle)
      → ((c : Cycle)
          → Memᴰ c cs
          → (r : Calculation) × (found lib all_arbs table (cycle_id c) ≡ some r))
      → (reports : List (Report lib)) × IsReporting table cs reports
  unfolding report_all
  report_all-IsReporting table [] total = (
    [],
    record {
      runs = refl;
      sound = λ p m. absurd (Memᴰ.not-nil m);
      complete = λ c m. absurd (Memᴰ.not-nil m);
    },
  )
  report_all-IsReporting table (c ∷ cs) total =
      let (r, e) = total c (head refl) in
      let (reports, h) = report_all-IsReporting table cs (λ d m. total d (tail m)) in
      let p : Report lib = record { details = arb_of lib all_arbs r; result = r } in
      (
        p ∷ reports,
        record {
          runs = rw (e, h.runs);
          sound = λ q m. elim (Memᴰ.cases_cons m) [
            | inl same ↦ (c, head refl, rw same e, rw same refl)
            | inr n ↦ let (d, old, key, det) = h.sound q n in (d, tail old, key, det)
          ];
          complete = λ d m. elim (Memᴰ.cases_cons m) [
            | inl same ↦ (p, head refl, rw same e, refl)
            | inr n ↦ let (q, old, key, det) = h.complete d n in (q, tail old, key, det)
          ];
        },
      )
