-- ===== src/Tests/SnapshotFile.antt =====
-- A snapshot saved and read back, and a script that ends at a missing data file.
use mathlib.Core.List.Memᴰ
use cream_bots.Prelude.{
  ℕ, ◌≡◌, ◌∙◌, subst, ℕ_discrete, holds, if◌then◌else◌, refl, ap, sym, String, String_discrete,
  Bool, Option, none, some, List, [], ◌∷◌, ok, arith,
}
use cream_bots.Prelude.Int.{ℤ, pos, negsuc}
use cream_bots.Prelude.Dict.{Dict, get}
use cream_bots.Prelude.Items.{mem_of_get}
use cream_bots.Builders.LpFetcher.{Lp}
use cream_bots.Builders.Snapshot.{PoolTicks, Snapshot}
use cream_bots.Builders.SnapshotFile.{Codec, load_snapshot, save_snapshot}
use cream_bots.Builders.SnapshotFile.Chain.{LiquidityNode, load_lp_data}
use cream_bots.Builders.SnapshotFile.Chains.{
  update_selected, update_liquidity, update_liquidity-stops,
}
use cream_bots.Builders.SnapshotFile.Dumped.{Distinct, IsCodec, IsDistinct}
use cream_bots.Builders.SnapshotFile.Reloaded.{IsReloaded, load-save_snapshot}
use cream_bots.Builders.Fetchers.{ExchangeDetails, Chains, chains_to_process}
use cream_bots.Tests.Numerals.{text_of_int, int_of_text, int_of_text-text_of_int}
use cream_bots.Tests.Snapshot.{external_update, old, of_fee}

abbrev codec : Codec ℤ Bool
codec = record {
  JsonTick = ℤ;
  JsonBitmap = Bool;
  tick_of_dict = ok;
  tick_to_dict = λ t. t;
  bitmap_of_dict = ok;
  bitmap_to_dict = λ b. b;
  int_of_text = int_of_text;
  text_of_int = text_of_int;
  sort_keys = λ d. d;
}

codec-IsCodec : IsCodec ℤ Bool (Unit {0}) codec
codec-IsCodec = record {
  ticks_return = λ t. refl;
  bitmaps_return = λ b. refl;
  ints_return = int_of_text-text_of_int;
  dumps_all = λ d m. m;
  dumps_only = λ d m. m;
  dumps_once = λ d distinct. distinct;
}

abbrev snapshot : Snapshot ℤ Bool (Unit {0})
snapshot = ("0xb", old) ∷ []

-- The keys are read as the numbers that they were.
reload_test :
    load_snapshot ℤ Bool
      (Unit {0})
      codec
      8
      (some (save_snapshot ℤ Bool (Unit {0}) codec 7 snapshot))
    ≡ ok (snapshot, some 7)
unfolding load_snapshot save_snapshot text_of_int int_of_text ℕ_discrete
reload_test = refl

no_file_test : load_snapshot ℤ Bool (Unit {0}) codec 8 none ≡ ok ([], none)
unfolding load_snapshot
no_file_test = refl

magnitude : ℤ → ℕ
magnitude (pos n) = n
magnitude (negsuc n) = n

snapshot-Distinct : Distinct snapshot
snapshot-Distinct = ((λ y m. absurd (Memᴰ.not-nil m)), tt)

words-Distinct : Distinct old.tick_bitmap
unfolding magnitude
words-Distinct = (
  λ y m h.
      let e : 1 ≡ 2 = ap magnitude (h ∙ ap (λ (x : ℤ × Bool). x.0) (Memᴰ.eq_of_singleton m)) in
      absurd (omega (arith, e)),
  ((λ y m. absurd (Memᴰ.not-nil m)), tt),
)

old-IsDistinct :
    (a : String) (t : PoolTicks ℤ Bool (Unit {0}))
    → get String_discrete a snapshot ≡ some t
    → IsDistinct ℤ Bool (Unit {0}) codec codec-IsCodec t
old-IsDistinct a t e =
    let same : t ≡ old =
      ap (λ (x : String × PoolTicks ℤ Bool (Unit {0})). x.1)
        (Memᴰ.eq_of_singleton (mem_of_get String_discrete snapshot e)) in
    subst (λ u. IsDistinct ℤ Bool (Unit {0}) codec codec-IsCodec u) (sym same)
      (record { bitmap = words-Distinct; ticks = ((λ y m. absurd (Memᴰ.not-nil m)), tt) })

no_block : get String_discrete "snapshot_block" snapshot ≡ none
unfolding get String_discrete
no_block = refl

load-save_snapshot_example :
    (d : Snapshot ℤ Bool (Unit {0})) × (load_snapshot ℤ Bool
        (Unit {0})
        codec
        9
        (some (save_snapshot ℤ Bool (Unit {0}) codec 7 snapshot))
      ≡ ok (d, some 7))
    × IsReloaded ℤ Bool
        (Unit {0})
        codec
        codec-IsCodec
        snapshot
        snapshot-Distinct
        old-IsDistinct
        no_block
        7
        d
load-save_snapshot_example =
    load-save_snapshot ℤ Bool (Unit {0}) codec codec-IsCodec snapshot snapshot-Distinct
      old-IsDistinct no_block 7 9

abbrev node : String → LiquidityNode
node _ = record { newest_block = ok 9; mints = λ _ _ _. ok []; burns = λ _ _ _. ok [] }

abbrev lp_file : String → String → Option (List Lp)
unfolding String_discrete
lp_file c _ = if holds (String_discrete c "full") then some (of_fee 500 ∷ []) else none

abbrev details : ExchangeDetails
details = record { factory_address = "0xf"; factory_deployment_block = 100; fee = none }

abbrev exchanges : Dict String ExchangeDetails
exchanges = ("uniswap", details) ∷ []

abbrev chains : Chains
chains = ("full", some exchanges) ∷ ("base", some exchanges) ∷ ("ether", some []) ∷ []

update_liquidity-stops_example :
    update_liquidity ℤ Bool
      (Unit {0})
      codec
      external_update
      (λ b. b)
      tt
      20
      node
      lp_file
      none
      chains
      []
    ≡ update_selected ℤ Bool
        (Unit {0})
        codec
        external_update
        (λ b. b)
        tt
        20
        node
        lp_file
        (("full", some exchanges) ∷ [])
        []
unfolding chains_to_process load_lp_data String_discrete
update_liquidity-stops_example =
    update_liquidity-stops ℤ Bool (Unit {0}) codec external_update (λ b. b) tt 20 node lp_file none
      chains (("full", some exchanges) ∷ []) (("ether", some []) ∷ []) "base" exchanges 9 [] refl
      refl refl
