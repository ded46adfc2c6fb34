-- ===== src/Tests/Toy.antt =====
-- A degenbot of texts and numbers, and an executor that completes its futures in reverse.
use mathlib.Core.List.{reverse, reverse_perm}
use native.Mathlib.Decide.{ℕ_discrete}
use cream_bots.Prelude.{ℕ, String, String_discrete, List, Result, ok, raise, arbitrage_error}
use cream_bots.Prelude.Int.{ℤ}
use cream_bots.Degenbot.{Degenbot, Executor}

pub record ToyCycle : Type 0 where
  pub id : String
  pub pools : List String
  pub profit : ℤ

unfoldable pub ToyCycle-discrete : Discrete ToyCycle
ToyCycle-discrete = hlevel (String_discrete, ℕ_discrete)

pub record ToyResult : Type 0 where
  pub id : String
  pub profit : ℤ

abbrev pub toy : Degenbot
toy = record {
  Pool = String;
  pool_discrete = String_discrete;
  address = λ p. p;
  Cycle = ToyCycle;
  cycle_discrete = ToyCycle-discrete;
  cycle_id = λ c. c.id;
  swap_pools = λ c. c.pools;
  Calculation = ToyResult;
  calculation_id = λ r. r.id;
  profit_amount = λ r. r.profit;
}

-- A cycle with the id "broken" has no calculation.
unfoldable pub calculate : ToyCycle → Result ToyCycle
calculate c = elim (String_discrete c.id "broken") [ yes _ ↦ raise arbitrage_error | no _ ↦ ok c ]

abbrev pub toy_executor : Executor toy
toy_executor = record {
  Override = ℕ;
  Future = ToyCycle;
  calculate_with_pool = λ _. calculate;
  outcome = λ c. ok (record { id = c.id; profit = c.profit });
  as_completed = reverse;
  as_completed_perm = reverse_perm;
}
