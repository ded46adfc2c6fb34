-- ===== src/Builders/SnapshotFile/Chains.antt =====
-- builders/liquidity_fetcher.py as a script: the loop over the chains.
use cream_bots.Prelude.{
  ℕ, String, String_discrete, Bool, true, false, Option, none, some, List, [], ◌∷◌, ◌++◌, ◌≡◌, refl,
  map, Result, ok, raise, if◌then◌else◌,
}
use cream_bots.Prelude.Dict.{Dict, get, put}
use cream_bots.Prelude.Exec.{Exec, pure, lift, gets, ◌>>=◌, resume}
use cream_bots.Builders.LpFetcher.{Lp}
use cream_bots.Builders.Liquidity.{LiquidityEvent}
use cream_bots.Builders.Snapshot.{PoolHelper}
use cream_bots.Builders.Fetchers.{ExchangeDetails, Chains, chains_to_process, exchanges_of}
use cream_bots.Builders.SnapshotFile.{Codec, JsonSnapshot}
use cream_bots.Builders.SnapshotFile.Chain.{load_lp_data, LiquidityNode, update_file}

module _ (Tick Bitmap Rest : Type 0) (codec : Codec Tick Bitmap)
    (external_update : LiquidityEvent
      → PoolHelper Tick Bitmap Rest
      → Result (PoolHelper Tick Bitmap Rest))
    (has_bits : Bitmap → Bool) (new_helper : Rest) (fuel : ℕ)
    (node : (chain_name : String) → LiquidityNode)
    (lp_file : (chain_name exchange_name : String) → Option (List Lp)) where
  -- The snapshot files, by chain.
  abbrev pub SnapshotFiles : Type 0
  SnapshotFiles = Dict String (JsonSnapshot Tick Bitmap Rest codec)

  -- `open(snapshot_file, "w")`, and on to the next chain.
  abbrev pub write_snapshot :
      (chain_name : String) → JsonSnapshot Tick Bitmap Rest codec → Exec SnapshotFiles Bool
  write_snapshot chain_name content files = (put String_discrete chain_name content files, ok true)

  -- Without one of the data files, the script ends.
  unfoldable pub update_known :
      (chain_name : String) (newest_block : ℕ) → Option (Dict String Lp) → Exec SnapshotFiles Bool
  unfolding update_file put get String_discrete pure lift gets ◌>>=◌
  update_known chain_name newest_block none = pure false
  update_known chain_name newest_block (some lp_data) = do
    file ← gets (get String_discrete chain_name)
    content ← lift (
        update_file Tick Bitmap Rest codec external_update has_bits new_helper fuel
          (node chain_name) newest_block lp_data file)
    write_snapshot chain_name content

  -- The body of the loop; false is the `return` in it.
  unfoldable pub update_chain :
      String × Option (Dict String ExchangeDetails) → Exec SnapshotFiles Bool
  unfolding load_lp_data update_known lift ◌>>=◌
  update_chain (chain_name, factories) = do
    newest_block ← lift (node chain_name).newest_block
    exchanges ← lift (exchanges_of factories)
    update_known chain_name newest_block
        (load_lp_data (map (λ e. lp_file chain_name e.0) exchanges) [])

  unfoldable pub update_selected : Chains → Exec SnapshotFiles (Unit {0})
  unfolding update_chain pure ◌>>=◌
  update_selected [] = pure tt
  update_selected (chain ∷ chains) = do
    more ← update_chain chain
    (if more then update_selected chains else pure tt)

  unfoldable pub update_liquidity :
      (chain_name : Option String) → Chains → Exec SnapshotFiles (Unit {0})
  unfolding chains_to_process update_selected lift ◌>>=◌
  update_liquidity chain_name chains = do
    selected ← lift (chains_to_process chain_name chains)
    update_selected selected

  update_selected-stops :
      (c : String) (exchanges : Dict String ExchangeDetails) (n : ℕ) (before rest : Chains)
      → (node c).newest_block ≡ ok n
      → load_lp_data (map (λ e. lp_file c e.0) exchanges) [] ≡ none
      → (files : SnapshotFiles)
      → update_selected (before ++ (c, some exchanges) ∷ rest) files ≡ update_selected before files
  unfolding update_selected update_chain update_known lift pure ◌>>=◌
  update_selected-stops c exchanges n [] rest height missing files = rw (height, missing) refl
  update_selected-stops c exchanges n (chain ∷ before) rest height missing files =
      go (update_chain chain files)
        (λ f. update_selected-stops c exchanges n before rest height missing f)
    where
      go :
          (out : SnapshotFiles × Result Bool)
          → ((f : SnapshotFiles)
              → update_selected (before ++ (c, some exchanges) ∷ rest) f ≡ update_selected before f)
          → resume out.0 out.1 (λ more.
            if more then update_selected (before ++ (c, some exchanges) ∷ rest) else pure tt)
            ≡ resume out.0 out.1 (λ more. if more then update_selected before else pure tt)
      go (files', ok true) stops = stops files'
      go (files', ok false) stops = refl
      go (files', raise e) stops = refl

  -- A chain without one of its data files ends the script: what it does is what it does for the
  -- chains in front of it, and the chains behind it get no snapshot.
  pub update_liquidity-stops :
      (chain_name : Option String) (chains before rest : Chains) (c : String)
      (exchanges : Dict String ExchangeDetails) (n : ℕ) (files : SnapshotFiles)
      → chains_to_process chain_name chains ≡ ok (before ++ (c, some exchanges) ∷ rest)
      → (node c).newest_block ≡ ok n
      → load_lp_data (map (λ e. lp_file c e.0) exchanges) [] ≡ none
      → update_liquidity chain_name chains files ≡ update_selected before files
  unfolding update_liquidity lift ◌>>=◌
  update_liquidity-stops chain_name chains before rest c exchanges n files selected height missing =
      rw selected (update_selected-stops c exchanges n before rest height missing files)
