-- ===== src/Builders/LpFetcher/Coverage.antt =====
-- What a complete scan of a chain collects.
use cream_bots.Prelude.{
  ℕ, zero, suc, ◌+◌, ◌-◌, ◌≤◌, ◌<◌, ◌≡◌, refl, Bool, true, some, List, [], ◌++◌, map, arith, Result,
  ok, if◌then◌else◌, select, count_if, count_if-append, ◌∙◌, sym, ap, dec_le, lt→ltb,
}
use mathlib.Core.List.{append_assoc, append-nil}
use cream_bots.Prelude.Sums.{total, total-add, total_congr, total_zero, count_if-map-select}
use cream_bots.Builders.LpFetcher.{
  block_span, Lp, Progress, Ending, finished, save, end_block, scan,
}
use cream_bots.Builders.LpFetcher.Visits.{in_range, visits, visits-step, visits-past}

module _ {Event : Type 0} (block : Event → ℕ) (chain : List Event) (entry : Event → Lp)
    (current_block : ℕ) where
  -- A node that answers every query with the events of the range.
  abbrev pub chain_logs : ℕ → ℕ → Result (List Event)
  chain_logs first last = ok (select (λ e. in_range first last (block e)) chain)

  abbrev pub uninterrupted : ℕ → Bool
  uninterrupted _ = true

  -- How many entries that pass `q` the chain calls for, from block `first` on.
  abbrev pub wanted : (Lp → Bool) → ℕ → ℕ
  wanted q first =
      total (λ e. if q (entry e) then visits first current_block (block e) else 0) chain

  abbrev chunk : ℕ → List Lp
  chunk first =
      map entry (select (λ e. in_range first (end_block first current_block) (block e)) chain)

  wanted-step :
      (q : Lp → Bool) (first : ℕ)
      → first ≤ current_block
      → wanted q first ≡ count_if q (chunk first) + wanted q (first + block_span)
  wanted-step q first h =
      total_congr _ _ chain (λ e. ground (arith, visits-step first current_block (block e) h))
      ∙ sym (
          ap (λ n. n + wanted q (first + block_span)) (count_if-map-select q entry _ chain)
          ∙ total-add _ _ chain)

  wanted-past : (q : Lp → Bool) (first : ℕ) → current_block < first → wanted q first ≡ 0
  wanted-past q first h =
      total_zero _ chain (λ e. ground (arith, visits-past first current_block (block e) h))

  -- The scan from block `first` on ends at the end of its range.
  pub record IsScanned (first : ℕ) (p out : Progress) : Type 0 where
    pub counted : (q : Lp → Bool) → count_if q out.lp_data ≡ count_if q p.lp_data + wanted q first
    pub new : List Lp
    pub extends : out.lp_data ≡ p.lp_data ++ new
    pub keeps_file : p.file ≡ some p.lp_data → out.file ≡ some out.lp_data
    pub saves_file : first ≤ current_block → out.file ≡ some out.lp_data

  abbrev advance : ℕ → Progress → Progress
  advance first p = save (record p { lp_data = p.lp_data ++ chunk first })

  abbrev run : ℕ → ℕ → Progress → Progress × Ending
  run = scan chain_logs entry uninterrupted current_block

  scan_on :
      (fuel first : ℕ) (p : Progress)
      → first ≤ current_block
      → run (suc fuel) first p ≡ run fuel (first + block_span) (advance first p)
  unfolding scan
  scan_on fuel first p h = rw (lt→ltb first (current_block + 1) (omega arith))

  scan_stop :
      (fuel first : ℕ) (p : Progress)
      → current_block < first
      → run (suc fuel) first p ≡ (p, finished)
  unfolding scan
  scan_stop fuel first p h = ground arith

  IsScanned-step :
      (first : ℕ) (p out : Progress)
      → first ≤ current_block
      → IsScanned (first + block_span) (advance first p) out
      → IsScanned first p out
  IsScanned-step first p out h s = record {
    counted = λ q.
        omega
          (arith, s.counted q, wanted-step q first h, count_if-append q p.lp_data (chunk first));
    new = chunk first ++ s.new;
    extends = s.extends ∙ append_assoc p.lp_data (chunk first) s.new;
    keeps_file = λ _. s.keeps_file refl;
    saves_file = λ _. s.keeps_file refl;
  }

  pub scan-IsScanned :
      (fuel first : ℕ) (p : Progress)
      → current_block + 1 - first < fuel
      → (out : Progress) × (run fuel first p ≡ (out, finished)) × IsScanned first p out
  scan-IsScanned zero first p h = absurd (omega arith)
  scan-IsScanned (suc fuel) first p h = elim (dec_le first current_block) [
    | yes more ↦
        let (out, runs, s) =
          scan-IsScanned fuel (first + block_span) (advance first p) (omega arith) in
        (out, scan_on fuel first p more ∙ runs, IsScanned-step first p out more s)
    | no past ↦ (
      p,
      scan_stop fuel first p (omega arith),
      record {
        counted = λ q. omega (arith, wanted-past q first (omega arith));
        new = [];
        extends = sym (append-nil p.lp_data);
        keeps_file = λ f. f;
        saves_file = λ more. absurd (past more);
      },
    )
  ]
