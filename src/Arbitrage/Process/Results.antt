-- ===== src/Arbitrage/Process/Results.antt =====
-- The table `results_by_arb_id`, built from the zipped pairs.
use mathlib.Core.List.Memᴰ
use mathlib.Core.List.Memᴰ.{head, tail}
use cream_bots.Prelude.{
  String, String_discrete, Option, some, List, [], ◌∷◌, ◌≡◌, ◌⊎◌, inl, inr, Memᴰ, sym, ap, ◌∙◌,
}
use cream_bots.Prelude.Dict.{Dict, get, put, get-put_self, get-put_ne}
use cream_bots.Degenbot.{Degenbot}
use cream_bots.Arbitrage.Types.{AllArbs}
use cream_bots.Arbitrage.Process.{results_by_arb_id}

module _ (lib : Degenbot) (all_arbs : AllArbs (Degenbot.Cycle lib)) where
  open lib use {Cycle, cycle_id, Calculation}

  abbrev pub found : Dict String Calculation → String → Option Calculation
  found table k = get String_discrete k table

  pub results_by_arb_id_sound :
      (pairs : List (Calculation × Cycle)) (table : Dict String Calculation) {k : String}
      {r : Calculation}
      → found (results_by_arb_id lib all_arbs table pairs) k ≡ some r
      → (found table k ≡ some r)
        ⊎ ((c : Cycle) × Memᴰ {A = Calculation × Cycle} (r, c) pairs × (cycle_id c ≡ k))
  unfolding results_by_arb_id
  results_by_arb_id_sound [] table e = inl e
  results_by_arb_id_sound ((s, c) ∷ pairs) table {k} {r} e =
      elim (results_by_arb_id_sound pairs (put String_discrete (cycle_id c) s table) e) [
        | inl old ↦ elim (String_discrete (cycle_id c) k) [
          | yes same ↦ inr (c, head (ap (λ (x : Calculation). (x, c)) (is_new same old)), same)
          | no other ↦ inl (sym (get-put_ne String_discrete (cycle_id c) k s table other) ∙ old)
        ]
        | inr (c', m, key) ↦ inr (c', tail m, key)
      ]
    where
      is_new : cycle_id c ≡ k → found (put String_discrete (cycle_id c) s table) k ≡ some r → r ≡ s
      is_new same old = cc (old, get-put_self String_discrete (cycle_id c) s table, same)

  found-put :
      (k j : String) (v r : Calculation) (table : Dict String Calculation)
      → found table k ≡ some r
      → (r' : Calculation) × (found (put String_discrete j v table) k ≡ some r')
  found-put k j v r table e = elim (String_discrete j k) [
    | yes same ↦ (v, rw same (get-put_self String_discrete k v table))
    | no other ↦ (r, get-put_ne String_discrete j k v table other ∙ e)
  ]

  results_by_arb_id_keeps :
      (pairs : List (Calculation × Cycle)) (table : Dict String Calculation) (k : String)
      (r : Calculation)
      → found table k ≡ some r
      → (r' : Calculation) × (found (results_by_arb_id lib all_arbs table pairs) k ≡ some r')
  unfolding results_by_arb_id
  results_by_arb_id_keeps [] table k r e = (r, e)
  results_by_arb_id_keeps ((s, c) ∷ pairs) table k r e =
      let (r', e') = found-put k (cycle_id c) s r table e in
      results_by_arb_id_keeps pairs (put String_discrete (cycle_id c) s table) k r' e'

  pub results_by_arb_id_complete :
      (pairs : List (Calculation × Cycle)) (table : Dict String Calculation) {r : Calculation}
      {c : Cycle}
      → Memᴰ {A = Calculation × Cycle} (r, c) pairs
      → (r' : Calculation) × (found (results_by_arb_id lib all_arbs table pairs) (cycle_id c)
          ≡ some r')
  unfolding results_by_arb_id
  results_by_arb_id_complete [] table m = absurd (Memᴰ.not-nil m)
  results_by_arb_id_complete ((s, d) ∷ pairs) table {r} {c} m = elim (Memᴰ.cases_cons m) [
    | inl e ↦
        let same : c ≡ d = ap (λ (p : Calculation × Cycle). p.1) e in
        rw same (
          results_by_arb_id_keeps pairs (put String_discrete (cycle_id d) s table) (cycle_id d) s
            (get-put_self String_discrete (cycle_id d) s table))
    | inr n ↦ results_by_arb_id_complete pairs (put String_discrete (cycle_id d) s table) n
  ]
