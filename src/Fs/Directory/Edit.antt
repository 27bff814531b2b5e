-- ===== src/Fs/Directory/Edit.antt =====
-- library/filesystem/src/fs/fat32.rs: looking up, creating and removing directory entries.
use cos_rs.Base.{
  ℕ, zero, suc, ◌+◌, ◌-◌, ◌*◌, ◌/◌, Option, none, some, List, [], ◌∷◌, ◌++◌, Bool, true, false, not,
  ◌&&◌, ltb, leb, ◌==◌, if◌then◌else◌, length, get_or, slice, splice, replicate,
}
use cos_rs.Disk.Block.{BlockDevice, write_blocks, write_zeros}
use cos_rs.Fs.Types.{
  file_not_found, name_too_long, done, fail, panic, out_of_fuel, M, pure, stop, ◌>>=◌, ◌>>◌,
  fat_entry_free, fat_entry_eoc_start,
}
use cos_rs.Fs.Table.{
  keep_store, is_link, read_block, write_block, get_sector_by_cluster, get_next_cluster,
  find_available_cluster, update_cluster,
}
use cos_rs.Fs.Name.{Name, DirectoryEntryLong, Fat32FileMetadata, name_match_short, name_match_long}
use cos_rs.Fs.Mount.{sub_u64}
use cos_rs.Fs.Directory.{short_bytes, long_bytes, read_cluster, walk_file_meta_by_cluster}

-- `sort_unstable_by_key` by the order; the orders of one name differ.
abbrev pub insert_long : DirectoryEntryLong → List DirectoryEntryLong → List DirectoryEntryLong
insert_long e [] = e ∷ []
insert_long e (x ∷ xs) =
    let rest = insert_long e xs in if leb e.order x.order then e ∷ x ∷ xs else x ∷ rest

abbrev pub sort_long : List DirectoryEntryLong → List DirectoryEntryLong
sort_long [] = []
sort_long (e ∷ es) = insert_long e (sort_long es)

-- The callback of `get_file_metadata_by_cluster`.
unfoldable pub match_meta :
    Name → Fat32FileMetadata → Option Fat32FileMetadata → Option Fat32FileMetadata × Bool
match_meta name meta file = elim meta.long [
  | [] ↦ if name_match_short meta.short name.as_bytes then (some meta, false) else (file, true)
  | e ∷ es ↦
      let sorted = sort_long meta.long in
      if name_match_long sorted name.encode_utf16
      then (some (record meta { long = sorted }), false)
      else (file, true)
]

-- The callback of `get_all_filemeta_by_cluster`.
abbrev pub push_meta : Fat32FileMetadata → List Fat32FileMetadata → List Fat32FileMetadata × Bool
push_meta meta files = (files ++ meta ∷ [], true)

-- The search for `need` free entries in a sector, from the index `i`; `start` is where the free
-- entries before it began.
unfoldable pub slot_rounds : ℕ → ℕ → ℕ → ℕ → List ℕ → Option ℕ
slot_rounds zero i start need buffer = none
slot_rounds (suc rounds) i start need buffer = elim (get_or buffer (i * 32) 0 == 0) [
  | false ↦ slot_rounds rounds (suc i) (suc i) need buffer
  | true ↦ elim (leb need (i - start + 1)) [
    | true ↦ some start
    | false ↦ slot_rounds rounds (suc i) start need buffer
  ]
]

abbrev pub all_long_bytes : List DirectoryEntryLong → List ℕ
all_long_bytes [] = []
all_long_bytes (e ∷ long) = long_bytes e ++ all_long_bytes long

-- The entries of a file, the long ones in front.
unfoldable pub meta_bytes : Fat32FileMetadata → List ℕ
meta_bytes meta = all_long_bytes meta.long ++ short_bytes meta.short

abbrev pub put_meta : ℕ → Fat32FileMetadata → List ℕ → List ℕ
put_meta start meta buffer = splice (start * 32) (meta_bytes meta) buffer

-- The condition of the loop of `delete_file_meta`.
abbrev pub is_before_end : ℕ → Bool
is_before_end cluster = not (cluster == fat_entry_free) && ltb cluster fat_entry_eoc_start

-- The loop over the entries of a sector that empties them, and whether the last one was reached.
unfoldable pub clear_entries : ℕ → ℕ → Bool → ℕ → List ℕ → List ℕ × Bool
clear_entries zero j last_sector last buffer = (buffer, false)
clear_entries (suc rounds) j last_sector last buffer =
    let cleared = splice (j * 32) (replicate 32 0) buffer in
    elim (last_sector && j == last) [
      | true ↦ (cleared, true)
      | false ↦ clear_entries rounds (suc j) last_sector last cleared
    ]

-- The loop over the sectors of a cluster from `i`.
unfoldable pub clear_sectors : ℕ → ℕ → ℕ → ℕ → ℕ → ℕ → Fat32FileMetadata → List ℕ → List ℕ × Bool
clear_sectors zero i size entries cluster sector meta buffer = (buffer, false)
clear_sectors (suc rounds) i size entries cluster sector meta buffer =
    let offset_start = if i + sector == meta.short_sector then meta.start_sector_offset else 0 in
    let (part, finish) =
      clear_entries (entries - offset_start) offset_start
        (cluster == meta.short_cluster && sector + i == meta.short_sector) meta.short_sector_offset
        (slice (i * size) size buffer) in
    let buffer' = splice (i * size) part buffer in
    elim finish [
      | true ↦ (buffer', true)
      | false ↦ clear_sectors rounds (suc i) size entries cluster sector meta buffer'
    ]

module _ {S : Type 0} (d : BlockDevice S) where
  unfoldable pub get_file_metadata_by_cluster : ℕ → ℕ → Name → M S Fat32FileMetadata
  get_file_metadata_by_cluster fuel cluster name = do
    file ← walk_file_meta_by_cluster (match_meta name) d fuel cluster none
    elim file [ none ↦ stop (fail file_not_found) | some meta ↦ pure meta ]

  unfoldable pub get_all_filemeta_by_cluster : ℕ → ℕ → M S (List Fat32FileMetadata)
  get_all_filemeta_by_cluster fuel cluster = walk_file_meta_by_cluster push_meta d fuel cluster []

  -- The sectors of a cluster from `i`: true once the entries were written to one.
  unfoldable pub place_meta : ℕ → ℕ → ℕ → Fat32FileMetadata → List ℕ → M S Bool
  place_meta zero i block meta buffer f = (f, done false)
  place_meta (suc rounds) i block meta buffer f =
      let size = d.block_size f.store in
      let part = slice (i * size) size buffer in
      elim (slot_rounds (f.bpb.bytes_per_sector / 32) 0 0 (length meta.long + 1) part) [
        | none ↦ place_meta rounds (suc i) block meta buffer f
        | some start ↦ (do write_block d (block + i) (put_meta start meta part); pure true) f
      ]

  -- The loop of `create_file_meta` along the chain: the last cluster, if none had room.
  unfoldable pub place_in_chain : ℕ → ℕ → ℕ → Fat32FileMetadata → M S (Option ℕ)
  place_in_chain zero last cluster meta f = (f, out_of_fuel)
  place_in_chain (suc fuel) last cluster meta f = elim (is_link cluster) [
    | false ↦ (f, done (some last))
    | true ↦
        (do
          block ← get_sector_by_cluster d cluster
          buffer ← read_cluster d block
          placed ← place_meta f.bpb.sectors_per_cluster 0 block meta buffer
          elim placed [
            | true ↦ pure none
            | false ↦ (do next ← get_next_cluster d cluster; place_in_chain fuel cluster next meta)
          ])
          f
  ]

  abbrev pub zero_cluster : ℕ → M S (Unit {0})
  zero_cluster sector f = keep_store d f (write_zeros d sector f.bpb.sectors_per_cluster f.store)

  -- A directory that is full is given one more cluster.
  unfoldable pub extend_directory : ℕ → ℕ → Fat32FileMetadata → M S (Unit {0})
  extend_directory fuel last meta f =
      (do
        cluster ← find_available_cluster d fuel
        sector ← get_sector_by_cluster d cluster
        zero_cluster sector
        write_block d sector (put_meta 0 meta (replicate (d.block_size f.store) 0))
        update_cluster d last cluster)
        f

  unfoldable pub create_file_meta : ℕ → ℕ → Fat32FileMetadata → M S (Unit {0})
  create_file_meta fuel directory_cluster meta f =
      if ltb (f.bpb.bytes_per_sector / 32) (length meta.long + 1)
      then (f, fail name_too_long)
      else (do
        full ← place_in_chain fuel 0 directory_cluster meta
        elim full [ none ↦ pure tt | some last ↦ extend_directory fuel last meta ])
          f

  -- The loop of `delete_file_meta`.
  unfoldable pub clear_chain : ℕ → ℕ → Fat32FileMetadata → M S (Unit {0})
  clear_chain zero cluster meta f = (f, out_of_fuel)
  clear_chain (suc fuel) cluster meta f = elim (is_before_end cluster) [
    | false ↦ (f, done tt)
    | true ↦
        (do
          sector ← get_sector_by_cluster d cluster
          buffer ← read_cluster d sector
          let from = if cluster == meta.start_cluster then sub_u64 meta.start_sector sector else 0
          let cleared =
              clear_sectors (f.bpb.sectors_per_cluster - from) from (d.block_size f.store)
                (f.bpb.bytes_per_sector / 32) cluster sector meta buffer
          (λ g. keep_store d g (write_blocks d sector f.bpb.sectors_per_cluster cleared.0 g.store))
          elim cleared.1 [
            | true ↦ pure tt
            | false ↦ (do next ← get_next_cluster d cluster; clear_chain fuel next meta)
          ])
          f
  ]

  unfoldable pub delete_file_meta : ℕ → Fat32FileMetadata → M S (Unit {0})
  delete_file_meta fuel meta = clear_chain fuel meta.start_cluster meta

  unfoldable pub update_file_metadata : Fat32FileMetadata → M S (Unit {0})
  update_file_metadata meta f =
      (do
        buffer ← read_block d meta.short_sector (replicate (d.block_size f.store) 0)
        elim (ltb (meta.short_sector_offset * 32) (d.block_size f.store)) [
          | true ↦
              write_block d meta.short_sector
                (splice (meta.short_sector_offset * 32) (short_bytes meta.short) buffer)
          | false ↦ stop panic
        ])
        f
