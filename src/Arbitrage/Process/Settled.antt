-- ===== src/Arbitrage/Process/Settled.antt =====
-- What process_onchain_arbs reports, once every profitable result stands for an arbitrage of the
-- table `all_arbs`.
use mathlib.Core.List.Memᴰ
use native.Mathlib.Nat.{le_refl}
use cream_bots.Prelude.{some, List, [], ◌≡◌, refl, ◌≢◌, ◌⊎◌, inl, inr, true, ok, Memᴰ, sym, ap, ◌∙◌}
use cream_bots.Prelude.Int.{◌≤ℤ◌, leb_ℤ→le}
use cream_bots.Prelude.Dict.{get}
use cream_bots.Prelude.Precedes.{mem_of_Precedes, before_of_Precedes}
use cream_bots.Degenbot.{Degenbot}
use cream_bots.Arbitrage.Types.{ArbDetails, AllArbs}
use cream_bots.Arbitrage.Ranking.{is_profitable, pays_at_least, ranked}
use cream_bots.Arbitrage.Reduction.Greedy.{Overlap}
use cream_bots.Arbitrage.Process.{Report, results_by_arb_id, settle}
use cream_bots.Arbitrage.Process.Matching.{arb_of, CycleOf, Precedes-of_Matched, Matched_mem}
use cream_bots.Arbitrage.Process.Results.{found, results_by_arb_id_sound}
use cream_bots.Arbitrage.Process.Tabled.{
  ranked-IsSorted, mem-ranked, mem_of_ranked, ProfitableKnown, IsTabled, settle-IsTabled,
}
use cream_bots.Arbitrage.Process.Reports.{
  IsKeyed, IdsDiffer, IsSettled, calculation_id-eq_of_CycleOf, arb_of_same_id, lp_cycle-eq,
}

module _ (lib : Degenbot) (all_arbs : AllArbs (Degenbot.Cycle lib)) where
  open lib use {Cycle, cycle_id, Calculation, calculation_id, profit_amount}

  module _ (keyed : IsKeyed lib all_arbs) {results : List Calculation} {reports : List (Report lib)}
      (t : IsTabled lib all_arbs results reports) where
    open t use {arbs, pairs, chosen, matched, zipped, reduced, reporting}

    mem_arbs_of_chosen : {c : Cycle} → Memᴰ c chosen → Memᴰ c arbs
    mem_arbs_of_chosen {c} m = elim (reduced.drawn c m) [
      | inl nowhere ↦ absurd (Memᴰ.not-nil nowhere)
      | inr old ↦ old
    ]

    -- A chosen cycle is reported with a result of its own.
    result_of_chosen :
        {c : Cycle} {r : Calculation}
        → Memᴰ c chosen
        → found lib all_arbs (results_by_arb_id lib all_arbs [] pairs) (cycle_id c) ≡ some r
        → Memᴰ r (ranked lib results) × CycleOf lib all_arbs r c
    unfolding get
    result_of_chosen {c} {r} m e = elim (results_by_arb_id_sound lib all_arbs pairs [] e) [
      | inl nowhere ↦ cc
      | inr (c', paired, key) ↦
          let (in_rs, (d, hit, is)) = zipped.sound r c' paired in
          let (s, paired') = zipped.complete c (mem_arbs_of_chosen m) in
          let (_, (d', hit', is')) = zipped.sound s c paired' in
          let ids : calculation_id s ≡ calculation_id r =
            calculation_id-eq_of_CycleOf lib all_arbs keyed (d', hit', is')
            ∙ sym key
            ∙ sym (calculation_id-eq_of_CycleOf lib all_arbs keyed (d, hit, is)) in
          (in_rs, (d', sym (arb_of_same_id lib all_arbs ids) ∙ hit', is'))
    ]

    report_of_chosen :
        {c : Cycle}
        → Memᴰ c chosen
        → (p : Report lib) × Memᴰ p reports
          × Memᴰ p.result results
          × CycleOf lib all_arbs p.result c
    report_of_chosen {c} m =
        let (p, there, key, _) = reporting.complete c m in
        let (in_rs, of) = result_of_chosen m key in
        (p, there, (mem_of_ranked lib results in_rs).0, of)

    chosen_of_report :
        (p : Report lib)
        → Memᴰ p reports
        → (c : Cycle) × Memᴰ c chosen
          × Memᴰ p.result (ranked lib results)
          × CycleOf lib all_arbs p.result c
          × (p.details ≡ arb_of lib all_arbs p.result)
    chosen_of_report p there =
        let (c, m, key, details) = reporting.sound p there in
        let (in_rs, of) = result_of_chosen m key in (c, m, in_rs, of, details)

    disjoint_reports :
        (p q : Report lib) (d e : ArbDetails Cycle)
        → Memᴰ p reports
        → Memᴰ q reports
        → p.details ≡ some d
        → q.details ≡ some e
        → calculation_id p.result ≢ calculation_id q.result
        → ¬ Overlap lib d.lp_cycle e.lp_cycle
    disjoint_reports p q d e mp mq hp hq ne o =
        let (b, mb, _, ofb, detb) = chosen_of_report p mp in
        let (c, mc, _, ofc, detc) = chosen_of_report q mq in
        let is_b = lp_cycle-eq lib all_arbs p.result (sym detb ∙ hp) ofb in
        let is_c = lp_cycle-eq lib all_arbs q.result (sym detc ∙ hq) ofc in
        reduced.disjoint b c mb mc
          (λ same. ne (
            calculation_id-eq_of_CycleOf lib all_arbs keyed ofb
            ∙ ap cycle_id same
            ∙ sym (calculation_id-eq_of_CycleOf lib all_arbs keyed ofc)))
          (rw (is_b, is_c) at o)

    module _ (differ : IdsDiffer lib all_arbs results) where
      same_result :
          (r s : Calculation) {c : Cycle}
          → Memᴰ r results
          → Memᴰ s results
          → CycleOf lib all_arbs r c
          → CycleOf lib all_arbs s c
          → r ≡ s
      same_result r s mr ms ofr ofs = differ r s mr ms (
          calculation_id-eq_of_CycleOf lib all_arbs keyed ofr
          ∙ sym (calculation_id-eq_of_CycleOf lib all_arbs keyed ofs))

      covered_reports :
          (r : Calculation) (d : ArbDetails Cycle)
          → Memᴰ r results
          → is_profitable lib r ≡ true
          → arb_of lib all_arbs r ≡ some d
          → (p : Report lib) × Memᴰ p reports
            × (profit_amount r ≤ℤ profit_amount p.result)
            × ((p.result ≡ r)
                ⊎ ((e : ArbDetails Cycle) × (p.details ≡ some e)
                    × Overlap lib e.lp_cycle d.lp_cycle))
      covered_reports r d m pays hit =
          let in_arbs =
            Matched_mem lib all_arbs (ranked lib results) arbs matched
              (mem-ranked lib results m pays) hit in
          elim (reduced.covered d.lp_cycle in_arbs) [
            | inl kept ↦
                let (p, there, old, of) = report_of_chosen kept in
                let same = same_result p.result r old m of (d, hit, refl) in
                (p, there, rw same (le_refl _), inl same)
            | inr (b, kept, ahead, o) ↦
                let (rb, s, order, ofb, ofs) =
                  Precedes-of_Matched lib all_arbs (ranked lib results) arbs matched ahead in
                let (mb, ms) = mem_of_Precedes (ranked lib results) order in
                let (p, there, old, of) = report_of_chosen kept in
                let is_rb = same_result p.result rb old (mem_of_ranked lib results mb).0 of ofb in
                let is_s = same_result s r (mem_of_ranked lib results ms).0 m ofs (d, hit, refl) in
                let pays_more =
                  before_of_Precedes (pays_at_least lib) (ranked lib results)
                    (ranked-IsSorted lib results) order in
                let (_, _, _, _, details) = chosen_of_report p there in
                let (e, hit_e, is_e) = of in
                (
                  p,
                  there,
                  rw (is_rb, ← is_s) (leb_ℤ→le (profit_amount s) (profit_amount rb) pays_more),
                  inr (e, details ∙ hit_e, rw is_e o),
                )
          ]

  -- If every profitable result stands for an arbitrage of the table, whose keys are the ids, and no
  -- two results carry one id, then the reports are of profitable arbitrages; two of them share no
  -- pool; and each profitable arbitrage is among them, or shares a pool with a reported one that
  -- pays at least as much.
  pub settle-IsSettled :
      (results : List Calculation)
      → IsKeyed lib all_arbs
      → ProfitableKnown lib all_arbs results
      → IdsDiffer lib all_arbs results
      → (reports : List (Report lib)) × (settle lib all_arbs results ≡ ok reports)
        × IsSettled lib all_arbs results reports
  settle-IsSettled results keyed known differ =
      let (reports, runs, t) = settle-IsTabled lib all_arbs results known in
      (
        reports,
        runs,
        record {
          sound = λ p there.
              let (c, _, in_rs, (d, hit, _), details) = chosen_of_report keyed t p there in
              let (old, pays) = mem_of_ranked lib results in_rs in
              (old, pays, (d, details ∙ hit, hit));
          disjoint = disjoint_reports keyed t;
          covered = covered_reports keyed t differ;
        },
      )
