-- ===== src/Arbitrage/Process/Collected.antt =====
-- The calculation results: what the executor hands out, in whatever order it completes.
use mathlib.Core.List.Memᴰ
use mathlib.Core.List.Memᴰ.{head, tail}
use mathlib.Core.List.Perm
use mathlib.Core.List.{Perm, filter_map}
use cream_bots.Prelude.{
  Option, none, some, List, [], ◌∷◌, ◌≡◌, refl, inl, inr, Result, ok, raise, Result-cases, Memᴰ, ap,
  sym, ◌∙◌, subst,
}
use cream_bots.Degenbot.{Degenbot, Executor}
use cream_bots.Arbitrage.Process.{submit, collect, calculation_results}

abbrev if_ok {ℓ} : {A : Type ℓ} → Result A → Option A
if_ok (ok a) = some a
if_ok (raise _) = none

module _ (lib : Degenbot) (exec : Executor lib) where
  open lib use {Cycle, Calculation}
  open exec use {Override, Future, calculate_with_pool, outcome, as_completed, as_completed_perm}

  collect-eq-filter_map :
      (futures : List Future)
      → collect lib exec futures ≡ filter_map (λ f. if_ok (outcome f)) futures
  unfolding collect filter_map
  collect-eq-filter_map [] = refl
  collect-eq-filter_map (f ∷ fs) = elim (Result-cases (outcome f)) [
    | inl (r, e) ↦ rw (e, collect) (ap (λ rs. r ∷ rs) (collect-eq-filter_map fs))
    | inr (x, e) ↦ rw (e, collect) (collect-eq-filter_map fs)
  ]

  abbrev pub result_of : Result Future → Option Calculation
  result_of (ok f) = if_ok (outcome f)
  result_of (raise _) = none

  -- The result of a cycle's calculation, if the executor took it and it went through.
  abbrev pub calculated : Option Override → Cycle → Option Calculation
  calculated override c = result_of (calculate_with_pool override c)

  filter_map-cons :
      (override : Option Override) (h : Cycle) (hs : List Cycle) (o : Option Calculation)
      → calculated override h ≡ o
      → filter_map (calculated override) (h ∷ hs) ≡ elim o [
        | none ↦ filter_map (calculated override) hs
        | some r ↦ r ∷ filter_map (calculated override) hs
      ]
  unfolding filter_map
  filter_map-cons override h hs none e = rw e refl
  filter_map-cons override h hs (some r) e = rw e refl

  collect-submit :
      (override : Option Override) (helpers : List Cycle)
      → collect lib exec (submit lib exec override helpers)
        ≡ filter_map (calculated override) helpers
  unfolding submit collect filter_map
  collect-submit override [] = refl
  collect-submit override (h ∷ hs) = elim (Result-cases (calculate_with_pool override h)) [
    | inr (x, e) ↦
        rw (e, submit) (collect-submit override hs)
        ∙ sym (filter_map-cons override h hs none (ap result_of e))
    | inl (f, e) ↦ elim (Result-cases (outcome f)) [
      | inl (r, o) ↦
          rw (e, submit, o, collect) (ap (λ rs. r ∷ rs) (collect-submit override hs))
          ∙ sym (filter_map-cons override h hs (some r) (ap result_of e ∙ ap if_ok o))
      | inr (x, o) ↦
          rw (e, submit, o, collect) (collect-submit override hs)
          ∙ sym (filter_map-cons override h hs none (ap result_of e ∙ ap if_ok o))
    ]
  ]

  -- The calculation results are those of the cycles whose calculation the executor takes and brings
  -- to an end without an exception, one of each, in some order.
  pub calculation_results-perm :
      (override : Option Override) (helpers : List Cycle)
      → Perm
          (calculation_results lib exec override helpers)
          (filter_map (calculated override) helpers)
  unfolding calculation_results
  calculation_results-perm override helpers =
      subst (λ l. Perm (calculation_results lib exec override helpers) l)
        (collect-submit override helpers)
        (rw (collect-eq-filter_map _, collect-eq-filter_map _)
          (Perm.filter_map (λ f. if_ok (outcome f))
            (as_completed_perm (submit lib exec override helpers))))

  -- The calculation of a cycle went through.
  abbrev pub Calculated : Option Override → Cycle → Calculation → Type 0
  Calculated override c r =
      (f : Future) × (calculate_with_pool override c ≡ ok f) × (outcome f ≡ ok r)

  mem-submit :
      (override : Option Override) (helpers : List Cycle) {c : Cycle} {f : Future}
      → Memᴰ c helpers
      → calculate_with_pool override c ≡ ok f
      → Memᴰ f (submit lib exec override helpers)
  unfolding submit
  mem-submit override [] m e = absurd (Memᴰ.not-nil m)
  mem-submit override (h ∷ hs) (head same) e = rw (← same, e, submit) (head refl)
  mem-submit override (h ∷ hs) (tail m) e = elim (Result-cases (calculate_with_pool override h)) [
    | inl (g, p) ↦ rw (p, submit) (tail (mem-submit override hs m e))
    | inr (x, p) ↦ rw (p, submit) (mem-submit override hs m e)
  ]

  mem-collect :
      (futures : List Future) {f : Future} {r : Calculation}
      → Memᴰ f futures
      → outcome f ≡ ok r
      → Memᴰ r (collect lib exec futures)
  unfolding collect
  mem-collect [] m e = absurd (Memᴰ.not-nil m)
  mem-collect (g ∷ gs) (head same) e = rw (← same, e, collect) (head refl)
  mem-collect (g ∷ gs) (tail m) e = elim (Result-cases (outcome g)) [
    | inl (s, p) ↦ rw (p, collect) (tail (mem-collect gs m e))
    | inr (x, p) ↦ rw (p, collect) (mem-collect gs m e)
  ]
