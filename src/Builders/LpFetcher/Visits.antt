-- ===== src/Builders/LpFetcher/Visits.antt =====
-- How often a block is asked for: once, or twice where two ranges meet.
use cream_bots.Prelude.{
  ℕ, ◌+◌, ◌-◌, ◌%◌, ◌≤◌, ◌<◌, ◌≡◌, Bool, ◌&&◌, arith, ltb, leb, ◌==◌, if◌then◌else◌,
}
use cream_bots.Builders.LpFetcher.{block_span, end_block}

-- A block from `first` to `last`.
abbrev pub in_range : ℕ → ℕ → ℕ → Bool
in_range first last b = leb first b && leb b last

-- Blocks outside the range are never asked for. Of those inside it, each is asked for once, but one
-- that lies a multiple of BLOCK_SPAN behind the first is asked for twice.
abbrev pub visits : ℕ → ℕ → ℕ → ℕ
visits first last b =
    if in_range first last b
    then if ltb first b && ((b - first) % block_span == 0) then 2 else 1
    else 0

pub visits-step :
    (first last b : ℕ)
    → first ≤ last
    → visits first last b
      ≡ (if in_range first (end_block first last) b then 1 else 0)
        + visits (first + block_span) last b
unfolding end_block
visits-step first last b h = ground arith

pub visits-past : (first last b : ℕ) → last < first → visits first last b ≡ 0
visits-past first last b h = ground arith
