-- ===== src/Fs/Table/Update.antt =====
-- Entries that are written and read again.
use cos_rs.Base.{
  ℕ, ◌^◌, ◌<◌, ◌≡◌, ◌≢◌, refl, sym, ap, ◌∙◌, subst, List, length, replicate, length-replicate, ◌==◌,
  Bool-cases, inl, inr, arith,
}
use cos_rs.Disk.Block.{BlockDevice, IsLawful, ok}
use cos_rs.Fs.Types.{Fat32, done}
use cos_rs.Fs.Table.{block_index, offset_in, entry_in, put_entry, get_next_cluster, write_copies}
use cos_rs.Fs.Table.Entries.{length-put_entry, entry_in-put_entry_self, entry_in-put_entry_ne}
use cos_rs.Fs.Table.Sound.{
  HasTables, offset_fits, sector_lt, copy_inside, block_inside, copy_ne, place_inj, IsSound,
  IsEntry,
}
use cos_rs.Fs.Table.Copies.{Copied, write_copies_lem}

module _ {S : Type 0} (d : BlockDevice S) (IsValid : S → Type 0) (l : IsLawful d IsValid) where
  -- The sector of a cluster's entry in the first table, whatever buffer it is read to.
  pub record Sector (f : Fat32 S) (cluster : ℕ) (block : List ℕ) : Type 0 where
    pub length_ok : length block ≡ d.block_size f.store
    pub read_ok :
        (old : List ℕ)
        → length old ≡ d.block_size f.store
        → d.read_block (block_index f.bpb cluster) old f.store ≡ ok block

  pub block_of :
      (f : Fat32 S) (cluster : ℕ)
      → IsSound d IsValid f
      → IsEntry d IsValid f cluster
      → (block : List ℕ) × Sector f cluster block
  block_of f cluster h c =
      let r =
        l.read_ok (block_index f.bpb cluster) f.store h.valid (block_inside h.tables cluster c) in
      (r.0, record { length_ok = r.1; read_ok = r.2 })

  pub get_next_cluster-Sector :
      (f : Fat32 S) (cluster : ℕ) (block : List ℕ)
      → Sector f cluster block
      → get_next_cluster d cluster f ≡ (f, done (entry_in block (offset_in f.bpb cluster)))
  unfolding get_next_cluster
  get_next_cluster-Sector f cluster block r =
      rw
        (r.read_ok (replicate (d.block_size f.store) 0) (length-replicate (d.block_size f.store) 0))
        refl

  -- What a write of one entry leaves.
  pub record Marked (f f' : Fat32 S) (cluster entry : ℕ) : Type 0 where
    pub sound : IsSound d IsValid f'
    pub marked : get_next_cluster d cluster f' ≡ (f', done entry)
    pub others :
        (other : ℕ)
        → IsEntry d IsValid f other
        → other ≢ cluster
        → (get_next_cluster d other f').1 ≡ (get_next_cluster d other f).1

  module _ (f : Fat32 S) (h : IsSound d IsValid f) (cluster entry : ℕ)
      (c : IsEntry d IsValid f cluster) (small : entry < 2 ^ 32) (block : List ℕ)
      (r : Sector f cluster block) where
    new_block : List ℕ
    new_block = put_entry block (offset_in f.bpb cluster) entry

    Sector-marked :
        (s' : S)
        → Copied d IsValid f.bpb.fat_size_32 0 f.bpb.num_fats
            (block_index f.bpb cluster)
            new_block
            f.store
            s'
        → Sector (record f { store = s' }) cluster new_block
    unfolding new_block
    Sector-marked s' w = record {
      length_ok = length-put_entry block (offset_in f.bpb cluster) entry ∙ r.length_ok ∙ sym w.size;
      read_ok = λ old e.
          subst (λ b. d.read_block b old s' ≡ ok new_block) (omega arith)
            (w.written 0 (omega arith) (omega (arith, h.tables.copies)) old (e ∙ w.size));
    }

    other_entry :
        (s' : S) (other : ℕ)
        → Copied d IsValid f.bpb.fat_size_32 0 f.bpb.num_fats
            (block_index f.bpb cluster)
            new_block
            f.store
            s'
        → IsEntry d IsValid f other
        → other ≢ cluster
        → (get_next_cluster d other (record f { store = s' })).1 ≡ (get_next_cluster d other f).1
    unfolding new_block
    other_entry s' other w o n =
        let f' : Fat32 S = record f { store = s' } in
        elim (Bool-cases (block_index f.bpb other == block_index f.bpb cluster)) [
          | inl same ↦
              let at : block_index f.bpb other ≡ block_index f.bpb cluster = ground arith in
              let before : Sector f other block = record {
                length_ok = r.length_ok;
                read_ok = λ old e.
                    subst (λ b. d.read_block b old f.store ≡ ok block) (sym at) (r.read_ok old e);
              } in
              let now = Sector-marked s' w in
              let after : Sector f' other new_block = record {
                length_ok = now.length_ok;
                read_ok = λ old e.
                    subst (λ b. d.read_block b old s' ≡ ok new_block) (sym at) (now.read_ok old e);
              } in
              ap (λ x. x.1) (get_next_cluster-Sector f' other new_block after)
              ∙ ap done (
                  entry_in-put_entry_ne block (offset_in f.bpb cluster) (offset_in f.bpb other)
                    entry (λ p. n (place_inj f.bpb other cluster at (sym p))))
              ∙ sym (ap (λ x. x.1) (get_next_cluster-Sector f other block before))
          | inr apart ↦
              let b = block_of f other h o in
              let e = λ (old : List ℕ).
                w.kept (block_index f.bpb other)
                  (λ k low high. copy_ne h.tables other cluster k o (ground arith)) old in
              let after : Sector f' other b.0 = record {
                length_ok = b.1.length_ok ∙ sym w.size;
                read_ok = λ old eo. e old ∙ b.1.read_ok old (eo ∙ w.size);
              } in
              ap (λ x. x.1) (get_next_cluster-Sector f' other b.0 after)
              ∙ sym (ap (λ x. x.1) (get_next_cluster-Sector f other b.0 b.1))
        ]

    pub mark_lem :
        (s' : S) × (write_copies d f.bpb.num_fats 0
            (block_index f.bpb cluster)
            (put_entry block (offset_in f.bpb cluster) entry)
            f
          ≡ (record f { store = s' }, done tt))
        × Marked f (record f { store = s' }) cluster entry
    unfolding new_block
    mark_lem =
        let o = offset_in f.bpb cluster in
        let t = h.tables in
        let w =
          write_copies_lem d IsValid l f.bpb.num_fats 0 (block_index f.bpb cluster) new_block f
            h.valid (length-put_entry block o entry ∙ r.length_ok)
            (omega (arith, sector_lt t cluster c))
            (λ k low high. copy_inside t cluster k c (omega arith)) in
        let f' : Fat32 S = record f { store = w.0 } in
        (
          w.0,
          w.1,
          record {
            sound = record {
              valid = w.2.valid;
              tables =
                  subst (λ n. HasTables f.bpb f.max_cluster n (d.block_count w.0)) (sym w.2.size)
                    (subst (λ n. HasTables f.bpb f.max_cluster (d.block_size f.store) n)
                      (sym w.2.count) t);
              info_reserved = h.info_reserved;
            };
            marked =
                get_next_cluster-Sector f' cluster new_block (Sector-marked w.0 w.2)
                ∙ ap (λ v. (f', done v))
                    (entry_in-put_entry_self block o entry small
                      (omega (arith, offset_fits t cluster, r.length_ok)));
            others = λ other o' n. other_entry w.0 other w.2 o' n;
          },
        )
