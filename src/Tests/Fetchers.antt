-- ===== src/Tests/Fetchers.antt =====
-- The v2 script on two chains with an exchange each.
use mathlib.Core.List.Memᴰ
use mathlib.Core.List.Memᴰ.{head, tail}
use cream_bots.Prelude.{
  ap, ◌∙◌, ne_of_compare, ℕ, ok, ◌≡◌, refl, String, Option, none, some, List, [], ◌∷◌, arith, Memᴰ,
  inl, inr, select,
}
use cream_bots.Prelude.Dict.{Dict}
use cream_bots.Builders.LpFetcher.{PairCreated, Lp, v2_entry, previous_block}
use cream_bots.Builders.Fetchers.{
  ExchangeDetails, Chains, DataFiles, chains_to_process, fetch_chains, fetch_v2,
}
use cream_bots.Builders.Fetchers.Answered.{
  answering, HasFactories, IsFetched, fetch_chains-IsFetched,
}

abbrev pair : ℕ → PairCreated
pair n = record { pair = "pair"; token0 = "weth"; token1 = "dai"; block_number = n }

abbrev block : PairCreated → ℕ
block e = e.block_number

abbrev entry : ExchangeDetails → String → PairCreated → Lp
entry details = v2_entry details.fee

abbrev details : ExchangeDetails
details = record { factory_address = "0xf"; factory_deployment_block = 100; fee = some 3000 }

abbrev events : String → String → List PairCreated
events _ _ = pair 200 ∷ pair 400 ∷ []

abbrev current : String → String → ℕ
current _ _ = 300

abbrev exchanges : Dict String ExchangeDetails
exchanges = ("uniswap", details) ∷ []

abbrev base_chain : String × Option (Dict String ExchangeDetails)
base_chain = ("base", some exchanges)

abbrev ether_chain : String × Option (Dict String ExchangeDetails)
ether_chain = ("ether", some exchanges)

abbrev chains : Chains
chains = base_chain ∷ ether_chain ∷ []

abbrev after : DataFiles
after =
    (("base", "uniswap"), entry details "uniswap" (pair 200) ∷ [])
    ∷ (("ether", "uniswap"), entry details "uniswap" (pair 200) ∷ [])
    ∷ []

fetch_v2_test : fetch_v2 (answering block entry events current) none chains [] ≡ (after, ok tt)
unfolding fetch_v2 select
fetch_v2_test = refl

one_chain_test : chains_to_process (some "ether") chains ≡ ok (ether_chain ∷ [])
unfolding chains_to_process
one_chain_test = refl

all_have :
    (c : String × Option (Dict String ExchangeDetails))
    → Memᴰ c chains
    → HasFactories block entry events current c
all_have c m = elim (Memᴰ.cases_cons m) [
  | inl e ↦ rw e (exchanges, refl)
  | inr n ↦ rw (Memᴰ.eq_of_singleton n) (exchanges, refl)
]

fetch_chains-IsFetched_example :
    (files : DataFiles) × (fetch_chains entry (answering block entry events current) none chains []
      ≡ (files, ok tt))
    × IsFetched block entry events current "ether" "uniswap" details none files
unfolding chains_to_process previous_block
fetch_chains-IsFetched_example =
    fetch_chains-IsFetched block entry events current "ether" "uniswap" details none exchanges none
      chains chains [] refl all_have
      (
        (λ c m e. ne_of_compare "base" "ether" refl (
            e
            ∙ ap (λ (x : String × Option (Dict String ExchangeDetails)). x.0)
                (Memᴰ.eq_of_singleton m))),
        ((λ c m. absurd (Memᴰ.not-nil m)), tt),
      )
      (tail (head refl)) ((λ c m. absurd (Memᴰ.not-nil m)), tt) (head refl) refl (omega arith)
