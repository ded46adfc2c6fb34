-- ===== src/Arbitrage/Process/Failures.antt =====
-- When `zip(..., strict=True)` ends process_onchain_arbs with a ValueError.
use mathlib.Core.List.Memᴰ
use mathlib.Core.List.Memᴰ.{head, tail}
use cream_bots.Prelude.{
  ◌<◌, ◌≤◌, ◌≡◌, refl, ◌⊎◌, inl, inr, Bool, true, false, none, some, List, [], ◌∷◌, arith, length,
  any, mem_of_any, any_of_mem, Bool-cases, ok, raise, value_error, Memᴰ,
}
use cream_bots.Degenbot.{Degenbot}
use cream_bots.Arbitrage.Types.{AllArbs}
use cream_bots.Arbitrage.Ranking.{is_profitable, ranked}
use cream_bots.Arbitrage.Process.{Report, zip_strict, profitable_arbs, settle}
use cream_bots.Arbitrage.Process.Matching.{arb_of}
use cream_bots.Arbitrage.Process.Tabled.{mem-ranked, ProfitableKnown, settle-IsTabled}

zip_strict_short {ℓ} :
    {A B : Type ℓ} (xs : List A) (ys : List B)
    → length ys < length xs
    → zip_strict xs ys ≡ raise value_error
unfolding zip_strict
zip_strict_short [] ys h = absurd (omega arith)
zip_strict_short (x ∷ xs) [] h = refl
zip_strict_short (x ∷ xs) (y ∷ ys) h = rw (zip_strict_short xs ys (omega arith))

module _ (lib : Degenbot) (all_arbs : AllArbs (Degenbot.Cycle lib)) where
  open lib use {Cycle, Calculation, calculation_id}

  length-profitable_arbs-le :
      (rs : List Calculation) → length (profitable_arbs lib all_arbs rs) ≤ length rs
  unfolding profitable_arbs
  length-profitable_arbs-le [] = omega arith
  length-profitable_arbs-le (r ∷ rs) = ground (arith, length-profitable_arbs-le rs)

  length-profitable_arbs-lt :
      (rs : List Calculation) {r : Calculation}
      → Memᴰ r rs
      → arb_of lib all_arbs r ≡ none
      → length (profitable_arbs lib all_arbs rs) < length rs
  unfolding profitable_arbs
  length-profitable_arbs-lt [] m e = absurd (Memᴰ.not-nil m)
  length-profitable_arbs-lt (s ∷ rs) {r} (head same) e =
      let gone : arb_of lib all_arbs s ≡ none = rw (← same) e in
      rw (gone, length) (omega (arith, length-profitable_arbs-le rs))
  length-profitable_arbs-lt (s ∷ rs) (tail m) e = ground (arith, length-profitable_arbs-lt rs m e)

  -- A profitable result whose id is not a key of the table.
  abbrev pub Stray : List Calculation → Type 0
  Stray results =
      (r : Calculation) × Memᴰ r results
      × (is_profitable lib r ≡ true)
      × (arb_of lib all_arbs r ≡ none)

  is_stray : Calculation → Bool
  is_stray r = elim (arb_of lib all_arbs r) [ none ↦ is_profitable lib r | some _ ↦ false ]

  Stray-cases : (results : List Calculation) → Stray results ⊎ ProfitableKnown lib all_arbs results
  unfolding is_stray
  Stray-cases results = elim (Bool-cases (any is_stray results)) [
    | inl hit ↦
        let (r, m, stray) = mem_of_any is_stray results hit in
        inl (r, m, pays_of r stray, unknown_of r stray)
    | inr none_is ↦
        inr
          (λ r m pays gone. cc (none_is, any_of_mem is_stray results m (rw (gone, is_stray) pays)))
  ]
    where
      pays_of : (r : Calculation) → is_stray r ≡ true → is_profitable lib r ≡ true
      pays_of r h = ground arith

      unknown_of : (r : Calculation) → is_stray r ≡ true → arb_of lib all_arbs r ≡ none
      unknown_of r h = ground arith

  settle_of_Stray :
      (results : List Calculation) → Stray results → settle lib all_arbs results ≡ raise value_error
  unfolding settle
  settle_of_Stray results (r, m, pays, gone) = rw (
      zip_strict_short (ranked lib results) (profitable_arbs lib all_arbs (ranked lib results))
        (length-profitable_arbs-lt (ranked lib results) (mem-ranked lib results m pays) gone))

  -- Either a profitable result has an id that is no key of `all_arbs`, and the task ends with a
  -- ValueError, or there is no such result, and it ends with reports.
  pub settle-cases :
      (results : List Calculation)
      → Stray results × (settle lib all_arbs results ≡ raise value_error)
        ⊎ (¬ Stray results)
          × ((reports : List (Report lib)) × (settle lib all_arbs results ≡ ok reports))
  settle-cases results = elim (Stray-cases results) [
    | inl stray ↦ inl (stray, settle_of_Stray results stray)
    | inr known ↦
        let (reports, runs, _) = settle-IsTabled lib all_arbs results known in
        inr (λ (r, m, pays, gone). known r m pays gone, (reports, runs))
  ]
