-- ===== src/Builders/LpFetcher/Exchange.antt =====
-- The run for an exchange, from the file to the file.
use cream_bots.Prelude.{
  ℕ, suc, ◌+◌, ◌-◌, ◌≤◌, ◌≡◌, Bool, true, Option, some, List, ◌++◌, arith, count_if, ap,
}
use cream_bots.Builders.LpFetcher.{
  Lp, stored, Progress, Ending, finished, previous_block, final_save, fetch_exchange,
}
use cream_bots.Builders.LpFetcher.Coverage.{chain_logs, uninterrupted, wanted, scan-IsScanned}

module _ {Event : Type 0} (block : Event → ℕ) (chain : List Event) (entry : Event → Lp)
    (current_block deployment : ℕ) (file : Option (List Lp)) where
  abbrev pub first_block : ℕ
  first_block = previous_block deployment (stored file) + 1

  -- The script run with the flag up, on a node that answers every query.
  abbrev pub fetched : Progress × Ending
  fetched =
      fetch_exchange (chain_logs block chain entry current_block) entry
        (uninterrupted block chain entry current_block) current_block deployment true file

  pub fetch_exchange-finished : (out : Progress) × (fetched ≡ (out, finished))
  unfolding fetch_exchange
  fetch_exchange-finished =
      let (out, runs, _) =
        scan-IsScanned block chain entry current_block (suc (current_block + 1 - first_block))
          first_block (record { lp_data = stored file; file = file }) (omega arith) in
      (out, ap (final_save true) runs)

  -- An uninterrupted run on a node that answers every query comes to its end. The entries in front
  -- stay, and those that are added are the entries of the chain's events behind the last stored
  -- block, up to the current block: each once, and twice if its block lies a positive multiple of
  -- BLOCK_SPAN behind the first. If there was a block to scan, the file holds them all.
  pub fetch_exchange-IsScanned :
      first_block ≤ current_block
      → (out : Progress) × (fetched ≡ (out, finished))
        × ((q : Lp → Bool)
            → count_if q out.lp_data
              ≡ count_if q (stored file) + wanted block chain entry current_block q first_block)
        × ((new : List Lp) × (out.lp_data ≡ stored file ++ new))
        × (out.file ≡ some out.lp_data)
  unfolding fetch_exchange
  fetch_exchange-IsScanned more =
      let (out, runs, s) =
        scan-IsScanned block chain entry current_block (suc (current_block + 1 - first_block))
          first_block (record { lp_data = stored file; file = file }) (omega arith) in
      (out, ap (final_save true) runs, s.counted, (s.new, s.extends), s.saves_file more)
