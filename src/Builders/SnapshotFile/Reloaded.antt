-- ===== src/Builders/SnapshotFile/Reloaded.antt =====
-- What a run of the fetcher reads of the file that the run before has written.
use mathlib.Core.List.Memᴰ
use cream_bots.Prelude.{
  ℕ, ◌≡◌, inl, inr, refl, sym, ap, ◌∙◌, subst, String, String_discrete, true, not, none, some, [],
  map, Memᴰ, ok, raise, mem-select, mem_of_select, holds_of, holds_not_of, assertion_error, ltb,
  Bool-cases, if◌then◌else◌,
}
use mathlib.Core.Option.{some-injective}
use cream_bots.Prelude.Dict.{get, put, get-put_self, get-put_ne}
use cream_bots.Prelude.Items.{
  get_of_mem, mem_of_get, dict_of, dict_of-items, NodupBy-map, put-NodupBy, select-NodupBy,
}
use cream_bots.Builders.Snapshot.{PoolTicks, Snapshot}
use cream_bots.Builders.SnapshotFile.{
  Codec, JsonEntry, JsonSnapshot, json_block, json_ticks, pool_item, is_pool, without_block,
  load_snapshot, dump_ticks, save_snapshot,
}
use cream_bots.Builders.SnapshotFile.Dumped.{Distinct, IsCodec, IsDistinct, IsSame, load-dump_ticks}

module _ (Tick Bitmap Rest : Type 0) (codec : Codec Tick Bitmap)
    (laws : IsCodec Tick Bitmap Rest codec) where
  module _ (snapshot : Snapshot Tick Bitmap Rest) (distinct : Distinct snapshot)
      (pools_distinct : (a : String) (t : PoolTicks Tick Bitmap Rest)
        → get String_discrete a snapshot ≡ some t
        → IsDistinct Tick Bitmap Rest codec laws t)
      (no_block : get String_discrete "snapshot_block" snapshot ≡ none) (written_block : ℕ) where
    abbrev dumped : JsonSnapshot Tick Bitmap Rest codec
    dumped = map (λ e. (e.0, json_ticks (dump_ticks Tick Bitmap Rest codec e.1))) snapshot

    abbrev with_block : JsonSnapshot Tick Bitmap Rest codec
    with_block = put String_discrete "snapshot_block" (json_block written_block) dumped

    abbrev file : JsonSnapshot Tick Bitmap Rest codec
    file = save_snapshot Tick Bitmap Rest codec written_block snapshot

    with_block-Distinct : Distinct with_block
    with_block-Distinct =
        put-NodupBy String_discrete "snapshot_block" (json_block written_block) dumped (
          NodupBy-map
            (λ (e : String × PoolTicks Tick Bitmap Rest).
              (e.0, json_ticks (dump_ticks Tick Bitmap Rest codec e.1)))
            (λ e. e.0) (λ e. e.0) (λ _. refl) snapshot distinct)

    file-Distinct : Distinct file
    unfolding save_snapshot
    file-Distinct = laws.dumps_once with_block with_block-Distinct

    -- The block is in the file.
    get-file : get String_discrete "snapshot_block" file ≡ some (json_block written_block)
    unfolding save_snapshot
    get-file = get_of_mem String_discrete file file-Distinct (
        laws.dumps_all with_block (
          mem_of_get String_discrete with_block
            (get-put_self String_discrete "snapshot_block" (json_block written_block) dumped)))

    block_is_no_pool :
        (a : String) → "snapshot_block" ≡ a → ¬ (is_pool Tick Bitmap Rest codec a ≡ true)
    block_is_no_pool a same h = cc (holds_of (String_discrete a "snapshot_block") (sym same), h)

    -- A pool of the file is one of the snapshot.
    pool_of_file :
        (x : String × JsonEntry Tick Bitmap Rest codec)
        → Memᴰ x (without_block Tick Bitmap Rest codec file)
        → (t : PoolTicks Tick Bitmap Rest) × Memᴰ (x.0, t) snapshot
          × (json_ticks (dump_ticks Tick Bitmap Rest codec t) ≡ x.1)
    unfolding save_snapshot
    pool_of_file (a, e) m =
        let (in_file, is) =
          mem_of_select
            (λ (y : String × JsonEntry Tick Bitmap Rest codec). is_pool Tick Bitmap Rest codec y.0)
            file m in
        let here =
          get_of_mem String_discrete with_block with_block-Distinct
            (laws.dumps_only with_block in_file) in
        let there =
          sym (
            get-put_ne String_discrete "snapshot_block" a (json_block written_block) dumped
              (λ same. block_is_no_pool a same is))
          ∙ here in
        let (y, n, f) =
          Memᴰ.of_map
            (λ (y : String × PoolTicks Tick Bitmap Rest).
              (y.0, json_ticks (dump_ticks Tick Bitmap Rest codec y.1)))
            snapshot (mem_of_get String_discrete dumped there) in
        (
          y.1,
          Memᴰ.cast (ap (λ (z : String × JsonEntry Tick Bitmap Rest codec). (z.0, y.1)) (sym f)) n,
          ap (λ (z : String × JsonEntry Tick Bitmap Rest codec). z.1) f,
        )

    abbrev pools : JsonSnapshot Tick Bitmap Rest codec
    pools = without_block Tick Bitmap Rest codec file

    pool_of_file-reads :
        (x : String × JsonEntry Tick Bitmap Rest codec)
        → Memᴰ x pools
        → (u : PoolTicks Tick Bitmap Rest) × (pool_item Tick Bitmap Rest codec x ≡ ok (x.0, u))
          × ((t : PoolTicks Tick Bitmap Rest)
              → Memᴰ (x.0, t) snapshot
              → IsSame Tick Bitmap Rest codec laws t u)
    unfolding pool_item
    pool_of_file-reads (a, e) m =
        let (t, n, f) = pool_of_file (a, e) m in
        let is_t = get_of_mem String_discrete snapshot distinct n in
        let (u, reads, same) =
          load-dump_ticks Tick Bitmap Rest codec laws t (pools_distinct a t is_t) in
        (
          u,
          rw (sym f) (rw reads refl),
          λ t' n'.
              subst (λ s. IsSame Tick Bitmap Rest codec laws s u)
                (some-injective t t' (sym is_t ∙ get_of_mem String_discrete snapshot distinct n'))
                same,
        )

    mem-pools :
        (a : String) (t : PoolTicks Tick Bitmap Rest)
        → get String_discrete a snapshot ≡ some t
        → Memᴰ (a, json_ticks (dump_ticks Tick Bitmap Rest codec t)) pools
    unfolding save_snapshot
    mem-pools a t is =
        let apart : ¬ (a ≡ "snapshot_block") = λ same. cc (is, no_block, same) in
        mem-select
          (λ (y : String × JsonEntry Tick Bitmap Rest codec). is_pool Tick Bitmap Rest codec y.0)
          file
          (laws.dumps_all with_block (
            mem_of_get String_discrete with_block (
              get-put_ne String_discrete "snapshot_block" a (json_block written_block) dumped
                (λ h. apart (sym h))
              ∙ get_of_mem String_discrete dumped
                  (NodupBy-map
                    (λ (e : String × PoolTicks Tick Bitmap Rest).
                      (e.0, json_ticks (dump_ticks Tick Bitmap Rest codec e.1)))
                    (λ e. e.0) (λ e. e.0) (λ _. refl) snapshot distinct)
                  (Memᴰ.map
                    (λ (e : String × PoolTicks Tick Bitmap Rest).
                      (e.0, json_ticks (dump_ticks Tick Bitmap Rest codec e.1)))
                    (mem_of_get String_discrete snapshot is)))))
          (ap not (holds_not_of (String_discrete a "snapshot_block") apart))

    -- The pools of the snapshot, and no others, with the items that they had.
    pub record IsReloaded (d : Snapshot Tick Bitmap Rest) : Type 0 where
      pub has_pools :
          (a : String) (t : PoolTicks Tick Bitmap Rest)
          → get String_discrete a snapshot ≡ some t
          → (u : PoolTicks Tick Bitmap Rest) × (get String_discrete a d ≡ some u)
            × IsSame Tick Bitmap Rest codec laws t u
      pub has_no_others :
          (a : String) → get String_discrete a snapshot ≡ none → get String_discrete a d ≡ none

    dict_of-pools :
        (d : Snapshot Tick Bitmap Rest) × (dict_of String_discrete
            (pool_item Tick Bitmap Rest codec)
            pools
            []
          ≡ ok d)
        × IsReloaded d
    unfolding get
    dict_of-pools =
        let (d, runs, found, others) =
          dict_of-items String_discrete (pool_item Tick Bitmap Rest codec) (λ x. x.0)
            (λ x u.
              (t : PoolTicks Tick Bitmap Rest)
              → Memᴰ (x.0, t) snapshot
              → IsSame Tick Bitmap Rest codec laws t u)
            pools [] pool_of_file-reads
            (select-NodupBy (λ (y : String × JsonEntry Tick Bitmap Rest codec). y.0)
              (λ y. is_pool Tick Bitmap Rest codec y.0) file file-Distinct) in
        (
          d,
          runs,
          record {
            has_pools = λ a t is.
                let (u, e, same) =
                  found (a, json_ticks (dump_ticks Tick Bitmap Rest codec t)) (mem-pools a t is) in
                (u, e, same t (mem_of_get String_discrete snapshot is));
            has_no_others = λ a missing. others a (λ x m same.
                let (t, n, _) = pool_of_file x m in
                cc (missing, get_of_mem String_discrete snapshot distinct n, same));
          },
        )

    -- A snapshot whose dictionaries have no key twice, and which has no pool "snapshot_block", is
    -- read back from the file that it is saved to, if the constructors of degenbot undo
    -- `to_dict()`: the block, and the pools with their items and no others, at any height above
    -- that block. At that block or below, the read raises an AssertionError.
    pub load-save_snapshot :
        (newest_block : ℕ)
        → (d : Snapshot Tick Bitmap Rest) × (load_snapshot Tick Bitmap Rest codec newest_block
              (some file)
            ≡ (if ltb written_block newest_block
                then ok (d, some written_block)
                else raise assertion_error))
          × IsReloaded d
    unfolding load_snapshot
    load-save_snapshot newest_block =
        let (d, runs, reloaded) = dict_of-pools in
        (
          d,
          rw get-file (elim (Bool-cases (ltb written_block newest_block)) [
            | inl newer ↦ rw (newer, runs) refl
            | inr older ↦ rw older refl
          ]),
          reloaded,
        )
