-- ===== src/Fs/Table/Count.antt =====
-- The count of free clusters on the disk, and the changes of the table that update it.
use cos_rs.Base.{
  ℕ, ◌+◌, ◌-◌, ◌%◌, ◌^◌, ◌<◌, ◌≡◌, ◌≢◌, refl, sym, ap, ◌∙◌, subst, Option, some, List, length,
  replicate, overwrite, length-replicate, length-overwrite, Option-cases, inl, inr, arith,
}
use cos_rs.Disk.Block.{BlockDevice, IsLawful}
use cos_rs.Fs.Types.{FsInfo, Fat32, done, fat_entry_free, fat_entry_eoc_start}
use cos_rs.Fs.Table.{
  block_index, get_next_cluster, update_cluster, write_fs_info, set_free_count, free_cluster, claim,
  fs_info_bytes,
}
use cos_rs.Fs.Table.Sound.{HasTables, IsSound, IsEntry}
use cos_rs.Fs.Table.Update.{Sector, block_of, get_next_cluster-Sector, Marked, mark_lem}

module _ {S : Type 0} (d : BlockDevice S) (IsValid : S → Type 0) (l : IsLawful d IsValid) where
  -- The same table in another state.
  pub record Same (f g : Fat32 S) : Type 0 where
    pub sound : IsSound d IsValid g
    pub max_same : g.max_cluster ≡ f.max_cluster
    pub entries :
        (other : ℕ)
        → IsEntry d IsValid f other
        → (get_next_cluster d other g).1 ≡ (get_next_cluster d other f).1

  -- One entry has changed.
  pub record Changed (f g : Fat32 S) (cluster entry : ℕ) : Type 0 where
    pub sound : IsSound d IsValid g
    pub max_same : g.max_cluster ≡ f.max_cluster
    pub changed : (get_next_cluster d cluster g).1 ≡ done entry
    pub others :
        (other : ℕ)
        → IsEntry d IsValid f other
        → other ≢ cluster
        → (get_next_cluster d other g).1 ≡ (get_next_cluster d other f).1

  -- A write of a reserved sector, whatever becomes of the sheet in memory.
  write_reserved :
      (f : Fat32 S) (i : ℕ) (buffer : List ℕ) (sheet : Option FsInfo)
      → IsSound d IsValid f
      → i < f.bpb.reserved_sector_count
      → f.bpb.fs_info < f.bpb.reserved_sector_count
      → length buffer ≡ d.block_size f.store
      → Same f (record f { store = (d.write_block i buffer f.store).0; fs_info = sheet })
  write_reserved f i buffer sheet h low info e =
      let s' = (d.write_block i buffer f.store).0 in
      let g : Fat32 S = record f { store = s'; fs_info = sheet } in
      let size = l.size-write i buffer f.store in
      record {
        sound = record {
          valid = l.write-IsValid i buffer f.store h.valid;
          tables =
              subst (λ n. HasTables f.bpb f.max_cluster n (d.block_count s')) (sym size)
                (subst (λ n. HasTables f.bpb f.max_cluster (d.block_size f.store) n)
                  (sym (l.count-write i buffer f.store)) h.tables);
          info_reserved = λ _ _. info;
        };
        max_same = refl;
        entries = λ other o.
            let b = block_of d IsValid l f other h o in
            let after : Sector d IsValid l g other b.0 = record {
              length_ok = b.1.length_ok ∙ sym size;
              read_ok = λ old eo.
                  l.read-write_ne i (block_index f.bpb other) buffer old f.store h.valid
                    (omega arith)
                  ∙ b.1.read_ok old (eo ∙ size);
            } in
            ap (λ x. x.1) (get_next_cluster-Sector d IsValid l g other b.0 after)
            ∙ sym (ap (λ x. x.1) (get_next_cluster-Sector d IsValid l f other b.0 b.1));
      }

  -- The count changes and the table does not.
  pub set_free_count_lem :
      (change : ℕ → ℕ) (f : Fat32 S)
      → IsSound d IsValid f
      → (g : Fat32 S) × (set_free_count d change f ≡ (g, done tt)) × Same f g
  unfolding write_fs_info
  set_free_count_lem change f h = elim (Option-cases f.fs_info) [
    | inl e ↦ (f, rw e refl, record { sound = h; max_same = refl; entries = λ other o. refl })
    | inr (info, e) ↦
        let info' : FsInfo = record info { free_cluster_count = change info.free_cluster_count } in
        let page = overwrite (fs_info_bytes info') (replicate (d.block_size f.store) 0) in
        let full : length page ≡ d.block_size f.store =
          length-overwrite (fs_info_bytes info') (replicate (d.block_size f.store) 0)
          ∙ length-replicate (d.block_size f.store) 0 in
        let low = h.info_reserved info e in
        let inside : f.bpb.fs_info < d.block_count f.store = omega (arith, h.tables.inside) in
        (
          record f { store = (d.write_block f.bpb.fs_info page f.store).0; fs_info = some info' },
          rw (e, l.write_ok f.bpb.fs_info page f.store h.valid inside full) refl,
          write_reserved f f.bpb.fs_info page (some info') h low low full,
        )
  ]

  Changed-Same :
      (f g k : Fat32 S) (cluster entry : ℕ)
      → IsEntry d IsValid f cluster
      → Changed f g cluster entry
      → Same g k
      → Changed f k cluster entry
  Changed-Same f g k cluster entry c a b = record {
    sound = b.sound;
    max_same = b.max_same ∙ a.max_same;
    changed = b.entries cluster (omega (arith, a.max_same)) ∙ a.changed;
    others = λ other o n. b.entries other (omega (arith, a.max_same)) ∙ a.others other o n;
  }

  Changed-Marked :
      (f g : Fat32 S) (cluster entry : ℕ)
      → g.max_cluster ≡ f.max_cluster
      → Marked d IsValid l f g cluster entry
      → Changed f g cluster entry
  Changed-Marked f g cluster entry e m = record {
    sound = m.sound;
    max_same = e;
    changed = ap (λ x. x.1) m.marked;
    others = m.others;
  }

  pub update_cluster_lem :
      (f : Fat32 S) (cluster entry : ℕ)
      → IsSound d IsValid f
      → IsEntry d IsValid f cluster
      → entry < 2 ^ 32
      → (g : Fat32 S) × (update_cluster d cluster entry f ≡ (g, done tt))
        × Changed f g cluster entry
  unfolding update_cluster
  update_cluster_lem f cluster entry h c small =
      let b = block_of d IsValid l f cluster h c in
      let m = mark_lem d IsValid l f h cluster entry c small b.0 b.1 in
      (
        record f { store = m.0 },
        rw
            (b.1.read_ok (replicate (d.block_size f.store) 0)
              (length-replicate (d.block_size f.store) 0))
            m.1,
        Changed-Marked f (record f { store = m.0 }) cluster entry refl m.2,
      )

  pub free_cluster_lem :
      (f : Fat32 S) (cluster : ℕ)
      → IsSound d IsValid f
      → IsEntry d IsValid f cluster
      → (g : Fat32 S) × (free_cluster d cluster f ≡ (g, done tt))
        × Changed f g cluster fat_entry_free
  unfolding free_cluster
  free_cluster_lem f cluster h c =
      let u = update_cluster_lem f cluster fat_entry_free h c (omega arith) in
      let n = set_free_count_lem (λ x. (x + 1) % 2 ^ 32) u.0 u.2.sound in
      (n.0, rw u.1 n.1, Changed-Same f u.0 n.0 cluster fat_entry_free c u.2 n.2)

  pub claim_lem :
      (f : Fat32 S) (cluster : ℕ) (block : List ℕ)
      → IsSound d IsValid f
      → IsEntry d IsValid f cluster
      → Sector d IsValid l f cluster block
      → (g : Fat32 S) × (claim d cluster block f ≡ (g, done cluster))
        × Changed f g cluster fat_entry_eoc_start
  unfolding claim
  claim_lem f cluster block h c r =
      let m = mark_lem d IsValid l f h cluster fat_entry_eoc_start c (omega arith) block r in
      let f' : Fat32 S = record f { store = m.0 } in
      let n = set_free_count_lem (λ x. (x + 2 ^ 32 - 1) % 2 ^ 32) f' m.2.sound in
      (
        n.0,
        rw (m.1, n.1) refl,
        Changed-Same f f' n.0 cluster fat_entry_eoc_start c
            (Changed-Marked f f' cluster fat_entry_eoc_start refl m.2) n.2,
      )
