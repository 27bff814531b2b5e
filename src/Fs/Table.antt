-- ===== src/Fs/Table.antt =====
-- library/filesystem/src/fs/fat32.rs: the file allocation table of `Fat32Inner`.
pub mod Entries
pub mod Sound
pub mod Copies
pub mod Update
pub mod Count
pub mod Scan
pub mod Find
pub mod Chain
pub mod Laws
use cos_rs.Base.{
  ℕ, zero, suc, ◌+◌, ◌-◌, ◌*◌, ◌/◌, ◌%◌, ◌^◌, Option, none, some, List, [], ◌∷◌, ◌++◌, ◌&&◌, ◌||◌,
  Bool, true, false, ltb, leb, not, ◌==◌, if◌then◌else◌, replicate, slice, splice, overwrite,
}
use cos_rs.Disk.Block.{BlockDevice, Result, ok, err, Done, read_blocks, write_blocks}
use cos_rs.Elf.File.{le_at}
use cos_rs.Fs.Types.{
  FileSystemError, device_error, disk_full, Bpb, FsInfo, Fat32, Outcome, done, fail, panic,
  out_of_fuel, M, pure, stop, bind_outcome, ◌>>=◌, ◌>>◌, le_bytes, fat_entry_free,
  fat_entry_reserved_start, fat_entry_eoc_start,
}

abbrev pub lift : {A : Type 0} → Result A → Outcome A
lift (ok a) = done a
lift (err e) = fail (device_error e)

-- `read_unaligned` and `write_unaligned` of the entry at an index of a sector.
abbrev pub entry_in : List ℕ → ℕ → ℕ
entry_in buffer offset = le_at 4 (4 * offset) buffer

abbrev pub put_entry : List ℕ → ℕ → ℕ → List ℕ
put_entry buffer offset entry = splice (4 * offset) (le_bytes 4 entry) buffer

-- `FSInfo` as its 512 bytes.
unfoldable pub fs_info_bytes : FsInfo → List ℕ
fs_info_bytes i =
    le_bytes 4 i.lead_signature
    ++ i.reserved1
    ++ le_bytes 4 i.struct_signature
    ++ le_bytes 4 i.free_cluster_count
    ++ le_bytes 4 i.next_free_cluster
    ++ i.reserved2
    ++ le_bytes 4 i.trail_signature

-- Where the entry of a cluster stands: the block of the first table, and the index in it.
abbrev pub cluster_per_sector : Bpb → ℕ
cluster_per_sector b = b.bytes_per_sector / 4

abbrev pub block_index : Bpb → ℕ → ℕ
block_index b cluster = b.reserved_sector_count + cluster / cluster_per_sector b

abbrev pub offset_in : Bpb → ℕ → ℕ
offset_in b cluster = cluster % cluster_per_sector b

-- The condition of the loops along a chain.
abbrev pub is_link : ℕ → Bool
is_link cluster = not (cluster == fat_entry_free) && ltb cluster fat_entry_reserved_start

module _ {S : Type 0} (d : BlockDevice S) where
  abbrev pub block_size : Fat32 S → ℕ
  block_size f = d.block_size f.store

  -- The calls of the device, with `?`.
  abbrev pub read_block : ℕ → List ℕ → M S (List ℕ)
  read_block i buffer f = (f, lift (d.read_block i buffer f.store))

  abbrev pub keep_store : Fat32 S → S × Done → Fat32 S × Outcome (Unit {0})
  keep_store f (s, r) = (record f { store = s }, lift r)

  abbrev pub write_block : ℕ → List ℕ → M S (Unit {0})
  write_block i buffer f = keep_store f (d.write_block i buffer f.store)

  -- The assertion of the code stands first.
  unfoldable pub get_sector_by_cluster : ℕ → M S ℕ
  get_sector_by_cluster cluster f =
      if leb 2 cluster && ltb cluster ((f.max_cluster + 2) % 2 ^ 32)
      then (
        f,
        done (
            f.bpb.reserved_sector_count
            + f.bpb.fat_size_32 * 2
            + (cluster - 2) * f.bpb.sectors_per_cluster),
      )
      else (f, panic)

  unfoldable pub get_next_cluster : ℕ → M S ℕ
  get_next_cluster cluster f =
      (do
        buffer ← read_block (block_index f.bpb cluster) (replicate (block_size f) 0)
        pure (entry_in buffer (offset_in f.bpb cluster)))
        f

  -- The loop over the copies of the table from the copy `i`, with `rounds` copies left.
  unfoldable pub write_copies : ℕ → ℕ → ℕ → List ℕ → M S (Unit {0})
  write_copies zero i block buffer f = (f, done tt)
  write_copies (suc rounds) i block buffer f =
      (do
        write_block (block + i * f.bpb.fat_size_32) buffer
        write_copies rounds (suc i) block buffer)
        f

  unfoldable pub update_cluster : ℕ → ℕ → M S (Unit {0})
  update_cluster cluster entry f =
      (do
        buffer ← read_block (block_index f.bpb cluster) (replicate (block_size f) 0)
        write_copies f.bpb.num_fats 0 (block_index f.bpb cluster)
            (put_entry buffer (offset_in f.bpb cluster) entry))
        f

  unfoldable pub write_fs_info : M S (Unit {0})
  write_fs_info f = elim f.fs_info [
    | none ↦ (f, done tt)
    | some info ↦
        write_block f.bpb.fs_info (overwrite (fs_info_bytes info) (replicate (block_size f) 0)) f
  ]

  -- A change of the count of free clusters, if there is one, and its write to the disk.
  abbrev pub set_free_count : (ℕ → ℕ) → M S (Unit {0})
  set_free_count change f = elim f.fs_info [
    | none ↦ (f, done tt)
    | some info ↦ write_fs_info (record f {
      fs_info = some (record info { free_cluster_count = change info.free_cluster_count });
    })
  ]

  unfoldable pub free_cluster : ℕ → M S (Unit {0})
  free_cluster cluster = do
    update_cluster cluster fat_entry_free
    set_free_count (λ n. (n + 1) % 2 ^ 32)

  -- A free cluster is marked as the end of a chain, in every copy of the table.
  unfoldable pub claim : ℕ → List ℕ → M S ℕ
  claim cluster cache f =
      (do
        write_copies f.bpb.num_fats 0 (block_index f.bpb cluster)
            (put_entry cache (offset_in f.bpb cluster) fat_entry_eoc_start)
        set_free_count (λ n. (n + 2 ^ 32 - 1) % 2 ^ 32)
        pure cluster)
        f

  -- The sector of the cluster, from the cache if it is the one that was read last.
  abbrev pub cached : ℕ → Option ℕ → List ℕ → M S (List ℕ)
  cached block none cache = read_block block cache
  cached block (some last) cache = if block == last then pure cache else read_block block cache

  unfoldable pub disk_is_full : M S ℕ
  disk_is_full = do set_free_count (λ _. 0); stop (fail disk_full)

  -- The loop of `find_available_cluster`, a unit of fuel for a round.
  unfoldable pub find_rounds : ℕ → Option ℕ → ℕ → ℕ → Option ℕ → List ℕ → M S ℕ
  find_rounds zero hint current end cache_block cache f = (f, out_of_fuel)
  find_rounds (suc fuel) hint current end cache_block cache f = elim (leb end current) [
    | true ↦ elim hint [
      | some from ↦ find_rounds fuel (some from) 2 from cache_block cache f
      | none ↦ disk_is_full f
    ]
    | false ↦
        (do
          sector ← cached (block_index f.bpb current) cache_block cache
          elim (entry_in sector (offset_in f.bpb current) == fat_entry_free) [
            | true ↦ claim current sector
            | false ↦
                find_rounds fuel hint (suc current) end (some (block_index f.bpb current)) sector
          ])
          f
  ]

  unfoldable pub find_available_cluster : ℕ → M S ℕ
  find_available_cluster fuel f = elim f.fs_info [
    | none ↦
        find_rounds fuel none 2 ((f.max_cluster + 2) % 2 ^ 32) none (replicate (block_size f) 0) f
    | some info ↦
        if info.free_cluster_count == 0
        then (f, fail disk_full)
        else find_rounds fuel (some info.next_free_cluster) info.next_free_cluster
            ((f.max_cluster + 2) % 2 ^ 32) none (replicate (block_size f) 0) f
  ]

  -- The loop of `get_allocated_size` along the chain, a unit of fuel for a cluster.
  unfoldable pub count_clusters : ℕ → ℕ → ℕ → M S ℕ
  count_clusters zero cluster count f = (f, out_of_fuel)
  count_clusters (suc fuel) cluster count f = elim (is_link cluster) [
    | false ↦ (f, done count)
    | true ↦ (do next ← get_next_cluster cluster; count_clusters fuel next (suc count)) f
  ]

  unfoldable pub get_allocated_size : ℕ → ℕ → M S ℕ
  get_allocated_size fuel cluster f =
      (do
        count ← count_clusters fuel cluster 0
        pure (count * f.bpb.bytes_per_sector * f.bpb.sectors_per_cluster))
        f

  -- The loop of `delete_file` and `delete_directory` that frees a chain.
  unfoldable pub free_chain : ℕ → ℕ → M S (Unit {0})
  free_chain zero cluster f = (f, out_of_fuel)
  free_chain (suc fuel) cluster f = elim (is_link cluster) [
    | false ↦ (f, done tt)
    | true ↦ (do next ← get_next_cluster cluster; free_cluster cluster; free_chain fuel next) f
  ]
