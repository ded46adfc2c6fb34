-- ===== src/Tests/LpFetcher.antt =====
-- The v2 fetcher on a chain with three pools, one of which lies where two ranges meet.
use cream_bots.Prelude.{
  ◌++◌, ℕ, ok, ◌+◌, ◌≡◌, refl, Bool, true, false, none, some, List, [], ◌∷◌, arith, select,
  count_if,
}
use cream_bots.Builders.LpFetcher.{
  PoolCreated, v3_entry, fetch_v3_exchange, Lp, PairCreated, Progress, finished, interrupted,
  v2_entry, previous_block, fetch_exchange,
}
use cream_bots.Builders.LpFetcher.Coverage.{chain_logs, wanted}
use cream_bots.Builders.LpFetcher.Exchange.{fetched, fetch_exchange-IsScanned}

abbrev pair : ℕ → PairCreated
pair n = record { pair = "pair"; token0 = "weth"; token1 = "dai"; block_number = n }

abbrev chain : List PairCreated
chain = pair 200 ∷ pair 10_101 ∷ pair 12_000 ∷ []

abbrev block : PairCreated → ℕ
block e = e.block_number

abbrev entry : PairCreated → Lp
unfolding v2_entry
entry = v2_entry (some 3000) "uniswap"

abbrev after : Progress
after = record {
  lp_data = entry (pair 200) ∷ entry (pair 10_101) ∷ entry (pair 10_101) ∷ entry (pair 12_000) ∷ [];
  file =
      some
        (entry (pair 200) ∷ entry (pair 10_101) ∷ entry (pair 10_101) ∷ entry (pair 12_000) ∷ []);
}

fetched_twice : fetched block chain entry 15_000 100 none ≡ (after, finished)
unfolding fetch_exchange select
fetched_twice = refl

-- The flag goes down before the second round.
stopped :
    fetch_exchange (chain_logs block chain entry 15_000) entry (λ i. false) 15_000 100 false none
    ≡ (record { lp_data = []; file = some [] }, interrupted)
unfolding fetch_exchange
stopped = refl

fetch_exchange-IsScanned_test :
    (out : Progress) × (fetched block chain entry 15_000 100 none ≡ (out, finished))
    × ((q : Lp → Bool)
        → count_if q out.lp_data ≡ count_if q [] + wanted block chain entry 15_000 q 101)
    × ((new : List Lp) × (out.lp_data ≡ [] ++ new))
    × (out.file ≡ some out.lp_data)
unfolding previous_block
fetch_exchange-IsScanned_test =
    fetch_exchange-IsScanned block chain entry 15_000 100 none (omega arith)

abbrev created : PoolCreated
created = record { pool = "0xd"; fee = 500; token0 = "weth"; token1 = "dai"; block_number = 45 }

v3_test : fetch_v3_exchange (λ _ _. ok (created ∷ [])) "uniswap" (λ _. true) 50 40 true none ≡ (
  record {
    lp_data = v3_entry "uniswap" created ∷ [];
    file = some (v3_entry "uniswap" created ∷ []);
  },
  finished,
)
unfolding fetch_v3_exchange
v3_test = refl
