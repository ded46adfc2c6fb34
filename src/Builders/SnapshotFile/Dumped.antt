-- ===== src/Builders/SnapshotFile/Dumped.antt =====
-- What `to_dict()` and the dump make of a pool is read back.
use mathlib.Core.List.Memᴰ
use cream_bots.Prelude.{
  ◌≡◌, inl, inr, refl, sym, ap, ◌∙◌, String, Option-cases, some, [], map, Memᴰ, Result, ok, raise,
  ok-injective,
}
use cream_bots.Prelude.Int.{ℤ, pos}
use cream_bots.Prelude.Dict.{Dict, get}
use cream_bots.Prelude.Rounds.{NodupBy}
use cream_bots.Prelude.Items.{get_of_mem, mem_of_get, dict_of, dict_of-items, NodupBy-map}
use cream_bots.Builders.Snapshot.{ℤ_discrete, PoolTicks}
use cream_bots.Builders.SnapshotFile.{
  Codec, json_ticks, int_item, load_entry, dump_items, dump_ticks,
}

-- No key stands twice.
abbrev pub Distinct : {K V : Type 0} → Dict K V → Type 0
Distinct d = NodupBy (λ e. e.0) d

module _ (Tick Bitmap Rest : Type 0) (codec : Codec Tick Bitmap) where
  -- The constructors undo `to_dict()`, `int` reads the text of a number, and a dictionary is dumped
  -- with the items that it has.
  pub record IsCodec : Type 1 where
    pub ticks_return : (t : Tick) → codec.tick_of_dict (codec.tick_to_dict t) ≡ ok t
    pub bitmaps_return : (b : Bitmap) → codec.bitmap_of_dict (codec.bitmap_to_dict b) ≡ ok b
    pub ints_return : (i : ℤ) → codec.int_of_text (codec.text_of_int i) ≡ ok i
    pub dumps_all :
        {K V : Type 0} (d : Dict K V) {x : K × V} → Memᴰ x d → Memᴰ x (codec.sort_keys d)
    pub dumps_only :
        {K V : Type 0} (d : Dict K V) {x : K × V} → Memᴰ x (codec.sort_keys d) → Memᴰ x d
    pub dumps_once : {K V : Type 0} (d : Dict K V) → Distinct d → Distinct (codec.sort_keys d)

  module _ (laws : IsCodec) where
    int_or_zero : Result ℤ → ℤ
    int_or_zero (ok i) = i
    int_or_zero (raise e) = pos 0

    module _ {J V : Type 0} (of_dict : J → Result V) (to_dict : V → J)
        (returns : (v : V) → of_dict (to_dict v) ≡ ok v) (d : Dict ℤ V)
        (distinct : Distinct d) where
      abbrev key : String × J → ℤ
      key x = int_or_zero (codec.int_of_text x.0)

      abbrev items : Dict String J
      items = dump_items Tick Bitmap Rest codec to_dict d

      item_cases :
          (x : String × J)
          → Memᴰ x items
          → (i : ℤ) × (v : V) × Memᴰ (i, v) d × (codec.text_of_int i ≡ x.0) × (to_dict v ≡ x.1)
      unfolding dump_items
      item_cases x m =
          let (y, n, e) =
            Memᴰ.of_map (λ (y : ℤ × J). (codec.text_of_int y.0, y.1))
              (codec.sort_keys (map (λ z. (z.0, to_dict z.1)) d)) m in
          let (z, o, f) = Memᴰ.of_map (λ (z : ℤ × V). (z.0, to_dict z.1)) d (laws.dumps_only _ n) in
          (
            z.0,
            z.1,
            o,
            ap (λ (w : ℤ × J). codec.text_of_int w.0) f ∙ ap (λ (w : String × J). w.0) e,
            ap (λ (w : ℤ × J). w.1) f ∙ ap (λ (w : String × J). w.1) e,
          )

      item-mem : (i : ℤ) (v : V) → Memᴰ (i, v) d → Memᴰ (codec.text_of_int i, to_dict v) items
      unfolding dump_items
      item-mem i v m =
          Memᴰ.map (λ (y : ℤ × J). (codec.text_of_int y.0, y.1))
            (laws.dumps_all _ (Memᴰ.map (λ (z : ℤ × V). (z.0, to_dict z.1)) m))

      key-text_of_int : (i : ℤ) (j : J) → key (codec.text_of_int i, j) ≡ i
      unfolding int_or_zero
      key-text_of_int i j = ap int_or_zero (laws.ints_return i)

      items-NodupBy : NodupBy key items
      unfolding dump_items
      items-NodupBy =
          NodupBy-map (λ (y : ℤ × J). (codec.text_of_int y.0, y.1)) key (λ y. y.0)
            (λ y. key-text_of_int y.0 y.1) (codec.sort_keys (map (λ z. (z.0, to_dict z.1)) d))
            (laws.dumps_once _ (
              NodupBy-map (λ (z : ℤ × V). (z.0, to_dict z.1)) (λ e. e.0) (λ e. e.0) (λ _. refl) d
                distinct))

      item_reads :
          (x : String × J)
          → Memᴰ x items
          → (v : V) × (int_item Tick Bitmap Rest codec of_dict x ≡ ok (key x, v))
            × (of_dict x.1 ≡ ok v)
      unfolding int_item int_or_zero
      item_reads (k, j) m =
          let (i, v, _, e, f) = item_cases (k, j) m in
          let reads : of_dict j ≡ ok v = ap of_dict (sym f) ∙ returns v in
          let is_int : codec.int_of_text k ≡ ok i =
            ap codec.int_of_text (sym e) ∙ laws.ints_return i in
          (v, rw (is_int, reads) refl, reads)

      -- The dictionary is read as it was written, up to the order of its items.
      dict_of-dump_items :
          (out : Dict ℤ V) × (dict_of ℤ_discrete (int_item Tick Bitmap Rest codec of_dict) items []
            ≡ ok out)
          × ((k : ℤ) → get ℤ_discrete k out ≡ get ℤ_discrete k d)
      unfolding get
      dict_of-dump_items =
          let (out, runs, found, others) =
            dict_of-items ℤ_discrete (int_item Tick Bitmap Rest codec of_dict) key
              (λ x v. of_dict x.1 ≡ ok v) items [] item_reads items-NodupBy in
          (
            out,
            runs,
            λ k. elim (Option-cases (get ℤ_discrete k d)) [
              | inl missing ↦
                  others k (λ x m same.
                    let (i, v, n, e, _) = item_cases x m in
                    let at : i ≡ k =
                      sym (key-text_of_int i x.1) ∙ ap (λ t. key (t, x.1)) e ∙ same in
                    cc (missing, get_of_mem ℤ_discrete d distinct n, at))
                  ∙ sym missing
              | inr (v, is) ↦
                  let (w, e, reads) =
                    found (codec.text_of_int k, to_dict v)
                      (item-mem k v (mem_of_get ℤ_discrete d is)) in
                  ap (λ i. get ℤ_discrete i out) (sym (key-text_of_int k (to_dict v)))
                  ∙ e
                  ∙ ap some (ok-injective (sym reads ∙ returns v))
                  ∙ sym is
            ],
          )

    -- A pool's dictionaries have no key twice.
    pub record IsDistinct (t : PoolTicks Tick Bitmap Rest) : Type 0 where
      pub bitmap : Distinct t.tick_bitmap
      pub ticks : Distinct t.tick_data

    -- The same items.
    pub record IsSame (t u : PoolTicks Tick Bitmap Rest) : Type 0 where
      pub same_bitmap : (k : ℤ) → get ℤ_discrete k u.tick_bitmap ≡ get ℤ_discrete k t.tick_bitmap
      pub same_ticks : (k : ℤ) → get ℤ_discrete k u.tick_data ≡ get ℤ_discrete k t.tick_data

    pub load-dump_ticks :
        (t : PoolTicks Tick Bitmap Rest)
        → IsDistinct t
        → (u : PoolTicks Tick Bitmap Rest) × (load_entry Tick Bitmap Rest codec
              (json_ticks (dump_ticks Tick Bitmap Rest codec t))
            ≡ ok u)
          × IsSame t u
    unfolding load_entry dump_ticks
    load-dump_ticks t is =
        let (b, runs, same_b) =
          dict_of-dump_items codec.bitmap_of_dict codec.bitmap_to_dict laws.bitmaps_return
            t.tick_bitmap is.bitmap in
        let (d, runs', same_d) =
          dict_of-dump_items codec.tick_of_dict codec.tick_to_dict laws.ticks_return t.tick_data
            is.ticks in
        (
          record { tick_bitmap = b; tick_data = d },
          rw (runs, runs') refl,
          record { same_bitmap = same_b; same_ticks = same_d },
        )
