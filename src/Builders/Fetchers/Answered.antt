-- ===== src/Builders/Fetchers/Answered.antt =====
-- The scripts, when the flag stays up and the nodes answer every query.
use cream_bots.Prelude.{
  ℕ, ◌+◌, ◌≤◌, ◌≡◌, ◌≢◌, refl, String, Bool, true, Option, ◌++◌, some, List, Memᴰ, ok, count_if,
  select, none, ap, ◌∙◌,
}
use cream_bots.Prelude.Dict.{Dict, get, get-put_self, get-put_ne}
use cream_bots.Prelude.Exec.{lift, ◌>>=◌}
use cream_bots.Prelude.Rounds.{Returns, rounds-Returns, NodupBy, rounds-one}
use cream_bots.Builders.LpFetcher.{Lp, stored}
use cream_bots.Builders.LpFetcher.Visits.{in_range}
use cream_bots.Builders.LpFetcher.Coverage.{wanted}
use cream_bots.Builders.LpFetcher.Exchange.{
  first_block, fetch_exchange-finished, fetch_exchange-IsScanned,
}
use cream_bots.Builders.Fetchers.{
  ExchangeDetails, Chains, key_discrete, DataFiles, FetchNode, chains_to_process, write_data,
  after_exchange, fetch_factory, fetch_chain, fetch_chains,
}

module _ {Event : Type 0} (block : Event → ℕ)
    (entry : ExchangeDetails → (exchange_name : String) → Event → Lp)
    (chain_events : (chain_name factory_address : String) → List Event)
    (current_block : (chain_name exchange_name : String) → ℕ) where
  abbrev pub events_of : String → ExchangeDetails → List Event
  events_of c details = chain_events c details.factory_address

  abbrev pub answering : FetchNode Event
  answering = record {
    block_number = λ c x. ok (current_block c x);
    get_logs =
        λ c a first last. ok (select (λ e. in_range first last (block e)) (chain_events c a));
    keep_running = λ _ _ _. true;
    running_after = λ _ _. true;
  }

  -- The entry of a file.
  abbrev pub Holds : String × String → Option (List Lp) → DataFiles → Type 0
  Holds key file files = get key_discrete key files ≡ file

  get-write_data_ne :
      (k j : String × String) (file : Option (List Lp)) (files : DataFiles)
      → k ≢ j
      → get key_discrete j (write_data k file files) ≡ get key_discrete j files
  unfolding write_data
  get-write_data_ne k j none files ne = refl
  get-write_data_ne k j (some lps) files ne = get-put_ne key_discrete k j lps files ne

  fetch_factory-keeps :
      (c x : String) (details : ExchangeDetails) (key : String × String) (file : Option (List Lp))
      → ◌≢◌ {A = String × String} (c, x) key
      → Returns (Holds key file) (Holds key file) (fetch_factory entry answering c (x, details))
  unfolding fetch_factory lift ◌>>=◌
  fetch_factory-keeps c x details key file ne files h =
      let (out, runs) =
        fetch_exchange-finished block (events_of c details) (entry details x) (current_block c x)
          details.factory_deployment_block (get key_discrete (c, x) files) in
      (
        write_data (c, x) out.file files,
        ap (λ r. after_exchange (c, x) r files) runs,
        get-write_data_ne (c, x) key out.file files ne ∙ h,
      )

  -- What the file of an exchange holds after the run, if it held `file` before.
  pub record IsFetched (c x : String) (details : ExchangeDetails) (file : Option (List Lp))
      (files : DataFiles) : Type 0 where
    pub lps : List Lp
    pub in_file : Holds (c, x) (some lps) files
    pub new : List Lp
    pub extends : lps ≡ stored file ++ new
    pub counted :
        (q : Lp → Bool)
        → count_if q lps
          ≡ count_if q (stored file)
            + wanted block (events_of c details) (entry details x) (current_block c x) q (
                first_block block
                  (events_of c details)
                  (entry details x)
                  (current_block c x)
                  details.factory_deployment_block
                  file)

  fetch_factory-IsFetched :
      (c x : String) (details : ExchangeDetails) (file : Option (List Lp))
      → first_block block
          (events_of c details)
          (entry details x)
          (current_block c x)
          details.factory_deployment_block
          file
        ≤ current_block c x
      → Returns
          (Holds (c, x) file)
          (IsFetched c x details file)
          (fetch_factory entry answering c (x, details))
  unfolding fetch_factory lift ◌>>=◌ write_data
  fetch_factory-IsFetched c x details file more files h =
      let (out, runs, counted, (new, extends), saves) =
        fetch_exchange-IsScanned block (events_of c details) (entry details x) (current_block c x)
          details.factory_deployment_block file more in
      (
        write_data (c, x) out.file files,
        rw h (ap (λ r. after_exchange (c, x) r files) runs),
        record {
          lps = out.lp_data;
          in_file = rw saves (get-put_self key_discrete (c, x) out.lp_data files);
          new = new;
          extends = extends;
          counted = counted;
        },
      )

  fetch_factory_others :
      (c x : String) (details : ExchangeDetails) (file : Option (List Lp)) (d : String) (y : String)
      (others : ExchangeDetails)
      → ◌≢◌ {A = String × String} (d, y) (c, x)
      → Returns
          (IsFetched c x details file)
          (IsFetched c x details file)
          (fetch_factory entry answering d (y, others))
  fetch_factory_others c x details file d y others ne files f =
      let (files', runs, h) =
        fetch_factory-keeps d y others (c, x) (some f.lps) ne files f.in_file in
      (
        files',
        runs,
        record { lps = f.lps; in_file = h; new = f.new; extends = f.extends; counted = f.counted },
      )

  -- A chain that has factories of the version.
  abbrev pub HasFactories : String × Option (Dict String ExchangeDetails) → Type 0
  HasFactories chain = (exchanges : Dict String ExchangeDetails) × (chain.1 ≡ some exchanges)

  module _ (P : DataFiles → Type 0) (c : String) where
    fetch_chain-Returns :
        (factories : Option (Dict String ExchangeDetails))
        → HasFactories (c, factories)
        → ((x : String × ExchangeDetails) → Returns P P (fetch_factory entry answering c x))
        → Returns P P (fetch_chain entry answering (c, factories))
    unfolding fetch_chain lift ◌>>=◌
    fetch_chain-Returns factories (exchanges, e) keeps =
        rw e (rounds-Returns (fetch_factory entry answering c) P exchanges (λ x _. keeps x))

  module _ (c x : String) (details : ExchangeDetails) (file : Option (List Lp))
      (exchanges : Dict String ExchangeDetails) where
    fetch_chain-IsFetched :
        first_block block
            (events_of c details)
            (entry details x)
            (current_block c x)
            details.factory_deployment_block
            file
          ≤ current_block c x
        → NodupBy (λ e. e.0) exchanges
        → Memᴰ (x, details) exchanges
        → Returns
            (Holds (c, x) file)
            (IsFetched c x details file)
            (fetch_chain entry answering (c, some exchanges))
    unfolding fetch_chain lift ◌>>=◌
    fetch_chain-IsFetched more nodup m =
        rounds-one (fetch_factory entry answering c) (λ e. e.0) (Holds (c, x) file)
          (IsFetched c x details file) exchanges (x, details) nodup m
          (λ e _ ne. fetch_factory-keeps c e.0 e.1 (c, x) file (λ same. ne (ap (λ k. k.1) same)))
          (λ e _ ne.
            fetch_factory_others c x details file c e.0 e.1 (λ same. ne (ap (λ k. k.1) same)))
          (fetch_factory-IsFetched c x details file more)

    -- The script of a version run with the flag up, on nodes that answer every query, over chains
    -- that have factories of that version, no two chains and no two exchanges of the chain with one
    -- name: it returns. For an exchange with blocks to scan, its file then holds the entries it
    -- held, in their order, and behind them the entries of the events of the exchange's factory
    -- from the block behind the last stored one up to the current block: each once, and twice if
    -- its block lies a positive multiple of BLOCK_SPAN behind the first.
    pub fetch_chains-IsFetched :
        (chain_name : Option String) (chains selected : Chains) (files : DataFiles)
        → chains_to_process chain_name chains ≡ ok selected
        → ((chain : String × Option (Dict String ExchangeDetails))
            → Memᴰ chain selected
            → HasFactories chain)
        → NodupBy (λ chain. chain.0) selected
        → Memᴰ (c, some exchanges) selected
        → NodupBy (λ e. e.0) exchanges
        → Memᴰ (x, details) exchanges
        → get key_discrete (c, x) files ≡ file
        → first_block block
            (events_of c details)
            (entry details x)
            (current_block c x)
            details.factory_deployment_block
            file
          ≤ current_block c x
        → (files' : DataFiles) × (fetch_chains entry answering chain_name chains files
            ≡ (files', ok tt))
          × IsFetched c x details file files'
    unfolding fetch_chains lift ◌>>=◌
    fetch_chains-IsFetched chain_name chains selected files e all chains_nodup m nodup n h more =
        rw e (
          rounds-one (fetch_chain entry answering) (λ chain. chain.0) (Holds (c, x) file)
            (IsFetched c x details file) selected (c, some exchanges) chains_nodup m
            (λ d k ne.
              fetch_chain-Returns (Holds (c, x) file) d.0 d.1 (all d k) (λ y.
                fetch_factory-keeps d.0 y.0 y.1 (c, x) file (λ same. ne (ap (λ z. z.0) same))))
            (λ d k ne. fetch_chain-Returns (IsFetched c x details file) d.0 d.1 (all d k) (λ y.
              fetch_factory_others c x details file d.0 y.0 y.1 (λ same. ne (ap (λ z. z.0) same))))
            (fetch_chain-IsFetched more nodup n) files h)
