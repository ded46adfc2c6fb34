-- ===== src/Arbitrage/Process/Matching.antt =====
-- The cycle of each ranked result: `all_profitable_arbs`, and the zipped pairs.
use mathlib.Core.List.Memᴰ
use mathlib.Core.List.Memᴰ.{head, tail}
use cream_bots.Prelude.{
  String_discrete, Option, none, some, List, [], ◌∷◌, ◌≡◌, refl, ◌≢◌, inl, inr, ok, Memᴰ,
  Option-cases, ap, ◌∙◌,
}
use cream_bots.Prelude.Dict.{get}
use cream_bots.Prelude.Precedes.{Precedes, first, later}
use cream_bots.Degenbot.{Degenbot}
use cream_bots.Arbitrage.Types.{ArbDetails, AllArbs}
use cream_bots.Arbitrage.Process.{zip_strict, profitable_arbs}

module _ (lib : Degenbot) (all_arbs : AllArbs (Degenbot.Cycle lib)) where
  open lib use {Cycle, Calculation, calculation_id}

  abbrev pub arb_of : Calculation → Option (ArbDetails Cycle)
  arb_of r = get String_discrete (calculation_id r) all_arbs

  abbrev pub CycleOf : Calculation → Cycle → Type 0
  CycleOf r c = (d : ArbDetails Cycle) × (arb_of r ≡ some d) × (d.lp_cycle ≡ c)

  -- Every result stands for an arbitrage of the table.
  abbrev pub AllKnown : List Calculation → Type 0
  AllKnown rs = (r : Calculation) → Memᴰ r rs → arb_of r ≢ none

  -- Two lists that go together, place by place.
  abbrev pub Matched : List Calculation → List Cycle → Type 0
  Matched [] [] = Unit
  Matched (r ∷ rs) (c ∷ cs) = CycleOf r c × Matched rs cs
  Matched _ _ = ⊥

  pub profitable_arbs-Matched :
      (rs : List Calculation) → AllKnown rs → Matched rs (profitable_arbs lib all_arbs rs)
  unfolding profitable_arbs
  profitable_arbs-Matched [] known = tt
  profitable_arbs-Matched (r ∷ rs) known = elim (Option-cases (arb_of r)) [
    | inl miss ↦ absurd (known r (head refl) miss)
    | inr (d, hit) ↦
        rw (hit, Matched) ((d, hit, refl), profitable_arbs-Matched rs (λ s m. known s (tail m)))
  ]

  -- The zipped pairs of two such lists.
  pub record IsPairing (rs : List Calculation) (cs : List Cycle)
      (pairs : List (Calculation × Cycle)) : Type 0 where
    pub runs : zip_strict rs cs ≡ ok pairs
    pub sound :
        (r : Calculation) (c : Cycle)
        → Memᴰ {A = Calculation × Cycle} (r, c) pairs
        → Memᴰ r rs × CycleOf r c
    pub complete :
        (c : Cycle) → Memᴰ c cs → (r : Calculation) × Memᴰ {A = Calculation × Cycle} (r, c) pairs

  pub zip_strict-IsPairing :
      (rs : List Calculation) (cs : List Cycle)
      → Matched rs cs
      → (pairs : List (Calculation × Cycle)) × IsPairing rs cs pairs
  unfolding zip_strict
  zip_strict-IsPairing [] [] h = (
    [],
    record {
      runs = refl;
      sound = λ r c m. absurd (Memᴰ.not-nil m);
      complete = λ c m. absurd (Memᴰ.not-nil m);
    },
  )
  zip_strict-IsPairing [] (c ∷ cs) h = absurd h
  zip_strict-IsPairing (r ∷ rs) [] h = absurd h
  zip_strict-IsPairing (r ∷ rs) (c ∷ cs) h =
      let (pairs, z) = zip_strict-IsPairing rs cs h.1 in
      (
        (r, c) ∷ pairs,
        record {
          runs = rw z.runs;
          sound = λ s d m. elim (Memᴰ.cases_cons m) [
            | inl e ↦
                let es : s ≡ r = ap (λ (p : Calculation × Cycle). p.0) e in
                let ed : d ≡ c = ap (λ (p : Calculation × Cycle). p.1) e in
                (head es, rw (es, ed) h.0)
            | inr n ↦ let (old, of) = z.sound s d n in (tail old, of)
          ];
          complete = λ d m. elim (Memᴰ.cases_cons m) [
            | inl e ↦ (r, head (ap (λ (x : Cycle). (r, x)) e))
            | inr n ↦ let (s, old) = z.complete d n in (s, tail old)
          ];
        },
      )

  -- In such lists a cycle in front belongs to a result in front.
  mem_of_Matched :
      (rs : List Calculation) (cs : List Cycle) {c : Cycle}
      → Matched rs cs
      → Memᴰ c cs
      → (r : Calculation) × Memᴰ r rs × CycleOf r c
  mem_of_Matched [] [] h m = absurd (Memᴰ.not-nil m)
  mem_of_Matched [] (c ∷ cs) h m = absurd h
  mem_of_Matched (r ∷ rs) [] h m = absurd h
  mem_of_Matched (r ∷ rs) (c ∷ cs) h (head e) = (r, head refl, rw e h.0)
  mem_of_Matched (r ∷ rs) (c ∷ cs) h (tail m) =
      let (s, n, of) = mem_of_Matched rs cs h.1 m in (s, tail n, of)

  pub Precedes-of_Matched :
      (rs : List Calculation) (cs : List Cycle) {c d : Cycle}
      → Matched rs cs
      → Precedes c d cs
      → (r s : Calculation) × Precedes r s rs × CycleOf r c × CycleOf s d
  Precedes-of_Matched [] [] h p = elim p [ ]
  Precedes-of_Matched [] (c ∷ cs) h p = absurd h
  Precedes-of_Matched (r ∷ rs) [] h p = absurd h
  Precedes-of_Matched (r ∷ rs) (c ∷ cs) h (first e m) =
      let (s, n, of) = mem_of_Matched rs cs h.1 m in (r, s, first refl n, rw e h.0, of)
  Precedes-of_Matched (r ∷ rs) (c ∷ cs) h (later p) =
      let (s, t, q, of, of') = Precedes-of_Matched rs cs h.1 p in (s, t, later q, of, of')

  pub Matched_mem :
      (rs : List Calculation) (cs : List Cycle) {r : Calculation} {d : ArbDetails Cycle}
      → Matched rs cs
      → Memᴰ r rs
      → arb_of r ≡ some d
      → Memᴰ d.lp_cycle cs
  Matched_mem [] [] h m e = absurd (Memᴰ.not-nil m)
  Matched_mem [] (c ∷ cs) h m e = absurd h
  Matched_mem (r ∷ rs) [] h m e = absurd h
  Matched_mem (s ∷ rs) (c ∷ cs) {r} {d} h (head same) e =
      let (d', hit, is) = h.0 in
      head (ap (λ (x : ArbDetails Cycle). x.lp_cycle) (same_details d' hit) ∙ is)
    where
      same_details : (d' : ArbDetails Cycle) → arb_of s ≡ some d' → d ≡ d'
      same_details d' hit = cc (e, hit, ap arb_of same)
  Matched_mem (s ∷ rs) (c ∷ cs) h (tail m) e = tail (Matched_mem rs cs h.1 m e)
