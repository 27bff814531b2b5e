-- ===== src/Fs/System/Transfer.antt =====
-- library/filesystem/src/fs/fat32.rs: the copying of `read` and `write` of a file handle, sector by
-- sector.
use cos_rs.Base.{
  ℕ, zero, suc, ◌+◌, ◌-◌, ◌*◌, min, List, Bool, true, false, ◌&&◌, not, ltb, ◌==◌, length, slice,
  splice, replicate,
}
use cos_rs.Disk.Block.{BlockDevice, write_blocks}
use cos_rs.Fs.Types.{Fat32, Outcome, done, fail, panic, out_of_fuel}
use cos_rs.Fs.Table.{
  keep_store, is_link, get_sector_by_cluster, get_next_cluster, update_cluster,
  find_available_cluster,
}
use cos_rs.Fs.Directory.{read_cluster}
use cos_rs.Fs.Directory.Edit.{is_before_end}

-- The variables of both loops. `buf` is what `read` fills and what `write` takes from; `copied` is
-- `assign_offset` or `write_offset`.
pub record Copying : Type 0 where
  pub buf : List ℕ
  pub pointer : ℕ
  pub offset : ℕ
  pub copied : ℕ
  pub remain : ℕ

-- After a part of a sector was copied.
abbrev pub advance : ℕ → ℕ → Copying → Copying
advance bytes_per_sector copy_length c = record c {
  pointer = c.pointer + copy_length;
  offset = c.offset + bytes_per_sector;
  copied = c.copied + copy_length;
  remain = c.remain - copy_length;
}

abbrev pub copy_length : ℕ → Copying → ℕ
copy_length bytes_per_sector c = min (bytes_per_sector - (c.pointer - c.offset)) c.remain

-- The two assertions before a copy, on the length of the cluster's buffer.
abbrev pub copy_fits : ℕ → ℕ → ℕ → Copying → Bool
copy_fits bytes_per_sector at buffer_length c =
    not (ltb buffer_length (at + (c.pointer - c.offset) + copy_length bytes_per_sector c))
    && not (ltb (length c.buf) (c.copied + copy_length bytes_per_sector c))

-- The assertion at the end of a round.
abbrev pub is_aligned : Copying → Bool
is_aligned c = c.offset == c.pointer

-- The loop of `read` over the sectors from `i`; it ends when nothing remains.
unfoldable pub read_sectors : ℕ → ℕ → ℕ → ℕ → List ℕ → Copying → Outcome Copying
read_sectors zero i bps size buffer c = done c
read_sectors (suc rounds) i bps size buffer c = elim (ltb (c.offset + bps) c.pointer) [
  | true ↦ read_sectors rounds (suc i) bps size buffer (record c { offset = c.offset + bps })
  | false ↦ elim (copy_fits bps (i * size) (length buffer) c) [
    | false ↦ panic
    | true ↦
        let n = copy_length bps c in
        let part = slice (i * size + (c.pointer - c.offset)) n buffer in
        let c' : Copying = advance bps n (record c { buf = splice c.copied part c.buf }) in
        elim (c'.remain == 0) [
          | true ↦ done c'
          | false ↦ elim (is_aligned c') [
            | false ↦ panic
            | true ↦ read_sectors rounds (suc i) bps size buffer c'
          ]
        ]
  ]
]

-- The loop of `write` over the sectors from `i`, with the buffer that it changes.
unfoldable pub write_sectors : ℕ → ℕ → ℕ → ℕ → List ℕ → Copying → Outcome (List ℕ × Copying)
write_sectors zero i bps size buffer c = done (buffer, c)
write_sectors (suc rounds) i bps size buffer c = elim (ltb (c.offset + bps) c.pointer) [
  | true ↦ write_sectors rounds (suc i) bps size buffer (record c { offset = c.offset + bps })
  | false ↦ elim (copy_fits bps (i * size) (length buffer) c) [
    | false ↦ panic
    | true ↦
        let n = copy_length bps c in
        let buffer' = splice (i * size + (c.pointer - c.offset)) (slice c.copied n c.buf) buffer in
        let c' : Copying = advance bps n c in
        elim (c'.remain == 0) [
          | true ↦ done (buffer', c')
          | false ↦ elim (is_aligned c') [
            | false ↦ panic
            | true ↦ write_sectors rounds (suc i) bps size buffer' c'
          ]
        ]
  ]
]

-- A step of the loops: the variables stay where an error leaves them.
abbrev pub Step : Type 0 → Type 0
Step S = Fat32 S × Copying × Outcome (Unit {0})

abbrev pub then_step :
    {S A : Type 0} → Copying → Fat32 S × Outcome A → (A → Fat32 S → Step S) → Step S
then_step c (f, done a) k = k a f
then_step c (f, fail e) k = (f, c, fail e)
then_step c (f, panic) k = (f, c, panic)
then_step c (f, out_of_fuel) k = (f, c, out_of_fuel)

abbrev pub bytes_per_cluster : {S : Type 0} → Fat32 S → ℕ
bytes_per_cluster f = f.bpb.bytes_per_sector * f.bpb.sectors_per_cluster

module _ {S : Type 0} (d : BlockDevice S) where
  -- The loop of `read` along the chain, a unit of fuel for a cluster.
  unfoldable pub read_chain : ℕ → ℕ → Copying → Fat32 S → Step S
  read_chain zero cluster c f = (f, c, out_of_fuel)
  read_chain (suc fuel) cluster c f = elim (is_before_end cluster && ltb 0 c.remain) [
    | false ↦ (f, c, done tt)
    | true ↦ elim (ltb (c.offset + bytes_per_cluster f) c.pointer) [
      | true ↦
          let c' : Copying = record c { offset = c.offset + bytes_per_cluster f } in
          then_step c' (get_next_cluster d cluster f) (λ next g. read_chain fuel next c' g)
      | false ↦ then_step c (get_sector_by_cluster d cluster f) (λ sector f1.
          then_step c (read_cluster d sector f1) (λ buffer f2.
            then_step c
              (
                f2,
                read_sectors f.bpb.sectors_per_cluster 0 f.bpb.bytes_per_sector
                    (d.block_size f2.store) buffer c,
              )
              (λ c' f3. elim (c'.remain == 0) [
                | true ↦ (f3, c', done tt)
                | false ↦
                    then_step c' (get_next_cluster d cluster f3)
                      (λ next g. read_chain fuel next c' g)
              ])))
    ]
  ]

  -- A cluster's sectors are changed and written.
  abbrev pub write_cluster : ℕ → List ℕ → Copying → Fat32 S → (Copying → Fat32 S → Step S) → Step S
  write_cluster sector buffer c f k =
      then_step c
        (
          f,
          write_sectors f.bpb.sectors_per_cluster 0 f.bpb.bytes_per_sector (d.block_size f.store)
              buffer c,
        )
        (λ r g.
          then_step r.1
            (keep_store d g (write_blocks d sector g.bpb.sectors_per_cluster r.0 g.store))
            (λ u h. k r.1 h))

  -- The first loop of `write`, over the clusters that the file has, and then the second.
  unfoldable pub write_chain :
      ℕ → ℕ → ℕ → Copying → Fat32 S → (ℕ → Copying → Fat32 S → Step S) → Step S
  write_chain zero last cluster c f k = (f, c, out_of_fuel)
  write_chain (suc fuel) last cluster c f k = elim (is_before_end cluster && ltb 0 c.remain) [
    | false ↦ k last c f
    | true ↦ elim (ltb (c.offset + bytes_per_cluster f) c.pointer) [
      | true ↦
          let c' : Copying = record c { offset = c.offset + bytes_per_cluster f } in
          then_step c' (get_next_cluster d cluster f)
            (λ next g. write_chain fuel cluster next c' g k)
      | false ↦ then_step c (get_sector_by_cluster d cluster f) (λ sector f1.
          then_step c (read_cluster d sector f1) (λ buffer f2.
            write_cluster sector buffer c f2 (λ c' f3.
              then_step c' (get_next_cluster d cluster f3)
                (λ next g. write_chain fuel cluster next c' g k))))
    ]
  ]

  -- The second loop: clusters are added while something remains.
  unfoldable pub write_more : ℕ → ℕ → Copying → Fat32 S → Step S
  write_more zero last c f = (f, c, out_of_fuel)
  write_more (suc fuel) last c f = elim (ltb 0 c.remain) [
    | false ↦ (f, c, done tt)
    | true ↦ then_step c (find_available_cluster d fuel f) (λ cluster f1.
        elim (is_link cluster && is_link last) [
          | false ↦ (f1, c, panic)
          | true ↦ then_step c (update_cluster d last cluster f1) (λ u f2.
              then_step c (get_sector_by_cluster d cluster f2) (λ sector f3.
                write_cluster sector
                  (replicate (d.block_size f3.store * f3.bpb.sectors_per_cluster) 0) c f3
                  (λ c' f4. write_more fuel cluster c' f4)))
        ])
  ]
