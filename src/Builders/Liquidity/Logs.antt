-- ===== src/Builders/Liquidity/Logs.antt =====
-- A node that fails now and then, and otherwise answers with the events of the range.
use cream_bots.Prelude.{
  ℕ, ◌≤◌, ◌≡◌, Bool, true, ◌&&◌, List, select, ok, raise, other_error, leb, if◌then◌else◌,
}
use cream_bots.Builders.Liquidity.{Log, GetLogs}

abbrev pub in_range : ℕ → ℕ → Log → Bool
in_range first last log = leb first log.block_number && leb log.block_number last

-- `answers` says in which rounds the node answers.
abbrev pub node_logs : (answers : ℕ → Bool) (chain : List Log) → GetLogs
node_logs answers chain round first last =
    if answers round then ok (select (in_range first last) chain) else raise other_error

-- From round `settled` on it always does.
abbrev pub SettlesAt : (answers : ℕ → Bool) → ℕ → Type 0
SettlesAt answers settled = (round : ℕ) → settled ≤ round → answers round ≡ true
