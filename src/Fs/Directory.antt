-- ===== src/Fs/Directory.antt =====
-- library/filesystem/src/fs/fat32.rs: directories of `Fat32Inner`, read entry by entry.
pub mod Edit
use cos_rs.Base.{
  ℕ, zero, suc, ◌+◌, ◌*◌, ◌/◌, Option, none, some, List, [], ◌∷◌, ◌++◌, Bool, true, false, not,
  ◌||◌, leb, ◌==◌, if◌then◌else◌, get_or, slice, replicate,
}
use cos_rs.Disk.Block.{BlockDevice, read_blocks}
use cos_rs.Elf.File.{le_at}
use cos_rs.Fs.Types.{
  FileSystemError, file_not_found, Bpb, Fat32, Outcome, done, fail, out_of_fuel, M, pure, stop,
  bind_outcome, ◌>>=◌, ◌>>◌, le_bytes,
}
use cos_rs.Fs.Table.{lift, is_link, block_size, get_sector_by_cluster, get_next_cluster}
use cos_rs.Fs.Name.{
  Name, DirectoryEntryShort, DirectoryEntryLong, Fat32FileMetadata, attr_long_name, cluster_of,
  is_directory, name_match_short, name_match_long,
}

-- A `DirectoryEntryShort` in 32 bytes, and back.
unfoldable pub short_bytes : DirectoryEntryShort → List ℕ
short_bytes e =
    e.name
    ++ e.ext
    ++ le_bytes 1 e.attr
    ++ le_bytes 1 e.reserved
    ++ le_bytes 1 e.create_time_tenths
    ++ le_bytes 2 e.create_time
    ++ le_bytes 2 e.create_date
    ++ le_bytes 2 e.last_access_date
    ++ le_bytes 2 e.first_cluster_high
    ++ le_bytes 2 e.write_time
    ++ le_bytes 2 e.write_date
    ++ le_bytes 2 e.first_cluster_low
    ++ le_bytes 4 e.file_size

unfoldable pub short_of : List ℕ → DirectoryEntryShort
short_of b = record {
  name = slice 0 8 b;
  ext = slice 8 3 b;
  attr = le_at 1 11 b;
  reserved = le_at 1 12 b;
  create_time_tenths = le_at 1 13 b;
  create_time = le_at 2 14 b;
  create_date = le_at 2 16 b;
  last_access_date = le_at 2 18 b;
  first_cluster_high = le_at 2 20 b;
  write_time = le_at 2 22 b;
  write_date = le_at 2 24 b;
  first_cluster_low = le_at 2 26 b;
  file_size = le_at 4 28 b;
}

-- 16-bit units in their bytes.
abbrev pub unit_bytes : List ℕ → List ℕ
unit_bytes [] = []
unit_bytes (u ∷ us) = le_bytes 2 u ++ unit_bytes us

abbrev pub units_at : ℕ → ℕ → List ℕ → List ℕ
units_at zero o b = []
units_at (suc n) o b = le_at 2 o b ∷ units_at n (o + 2) b

unfoldable pub long_bytes : DirectoryEntryLong → List ℕ
long_bytes e =
    le_bytes 1 e.order
    ++ unit_bytes e.name1
    ++ le_bytes 1 e.attr
    ++ le_bytes 1 e.type_of
    ++ le_bytes 1 e.checksum
    ++ unit_bytes e.name2
    ++ le_bytes 2 e.first_cluster_low
    ++ unit_bytes e.name3

unfoldable pub long_of : List ℕ → DirectoryEntryLong
long_of b = record {
  order = le_at 1 0 b;
  name1 = units_at 5 1 b;
  attr = le_at 1 11 b;
  type_of = le_at 1 12 b;
  checksum = le_at 1 13 b;
  name2 = units_at 6 14 b;
  first_cluster_low = le_at 2 26 b;
  name3 = units_at 2 28 b;
}

-- The variables of `walk_file_meta_by_cluster`, with what its callback keeps in `acc`; `going` is
-- false once the callback has asked to stop.
pub record Walk (W : Type 0) : Type 0 where
  pub entry_long : List DirectoryEntryLong
  pub start_cluster : ℕ
  pub start_sector : ℕ
  pub start_sector_offset : ℕ
  pub acc : W
  pub going : Bool

abbrev pub start_walk : {W : Type 0} → W → Walk W
start_walk w = record {
  entry_long = [];
  start_cluster = 0;
  start_sector = 0;
  start_sector_offset = 0;
  acc = w;
  going = true;
}

-- Where a long entry starts is noted at the first one.
unfoldable pub push_long : {W : Type 0} → ℕ → ℕ → ℕ → List ℕ → Walk W → Walk W
push_long cluster sector j bytes w = elim w.entry_long [
  | [] ↦ record w {
    entry_long = long_of bytes ∷ [];
    start_cluster = cluster;
    start_sector = sector;
    start_sector_offset = j;
  }
  | e ∷ es ↦ record w { entry_long = w.entry_long ++ long_of bytes ∷ [] }
]

abbrev pub found_meta : {W : Type 0} → ℕ → ℕ → ℕ → List ℕ → Walk W → Fat32FileMetadata
found_meta cluster sector j bytes w = record {
  short = short_of bytes;
  long = w.entry_long;
  start_cluster = w.start_cluster;
  start_sector = w.start_sector;
  start_sector_offset = w.start_sector_offset;
  short_cluster = cluster;
  short_sector = sector;
  short_sector_offset = j;
}

module _ {S : Type 0} (d : BlockDevice S) where
  -- `read_blocks` of the sectors of a cluster.
  abbrev pub read_cluster : ℕ → M S (List ℕ)
  read_cluster sector f = (
    f,
    lift (
        read_blocks d sector f.bpb.sectors_per_cluster
          (replicate (d.block_size f.store * f.bpb.sectors_per_cluster) 0) f.store),
  )

module _ {W : Type 0} (yield_fn : Fat32FileMetadata → W → W × Bool) where
  abbrev pub call_yield : Fat32FileMetadata → Walk W → Walk W
  call_yield meta w =
      let (acc', going') = yield_fn meta w.acc in
      record w { entry_long = []; acc = acc'; going = going' }

  -- One entry, by its 32 bytes.
  unfoldable pub walk_entry : ℕ → ℕ → ℕ → List ℕ → Walk W → Walk W
  walk_entry cluster sector j bytes w =
      if get_or bytes 11 0 == attr_long_name
      then push_long cluster sector j bytes w
      else if get_or bytes 0 0 == 0x00 || get_or bytes 0 0 == 0xE5
      then record w { entry_long = [] }
      else call_yield (found_meta cluster sector j bytes w) w

  -- The entries of a sector from the index `j`, and the sectors of a cluster from `i`.
  unfoldable pub walk_sector : ℕ → ℕ → ℕ → ℕ → List ℕ → Walk W → Walk W
  walk_sector zero j cluster sector buffer w = w
  walk_sector (suc rounds) j cluster sector buffer w =
      let w' = walk_entry cluster sector j (slice (j * 32) 32 buffer) w in
      elim w'.going [ true ↦ walk_sector rounds (suc j) cluster sector buffer w' | false ↦ w' ]

  unfoldable pub walk_cluster : ℕ → ℕ → Bpb → ℕ → ℕ → ℕ → List ℕ → Walk W → Walk W
  walk_cluster zero i b size cluster sector buffer w = w
  walk_cluster (suc rounds) i b size cluster sector buffer w =
      let w' =
        walk_sector (b.bytes_per_sector / 32) 0 cluster (sector + i) (slice (i * size) size buffer)
          w in
      elim w'.going [
        | true ↦ walk_cluster rounds (suc i) b size cluster sector buffer w'
        | false ↦ w'
      ]

  module _ {S : Type 0} (d : BlockDevice S) where
    -- The loop along the chain, a unit of fuel for a cluster.
    unfoldable pub walk_chain : ℕ → ℕ → Walk W → M S W
    walk_chain zero cluster w f = (f, out_of_fuel)
    walk_chain (suc fuel) cluster w f = elim (is_link cluster) [
      | false ↦ (f, done w.acc)
      | true ↦
          (do
            sector ← get_sector_by_cluster d cluster
            buffer ← read_cluster d sector
            let w' =
                walk_cluster f.bpb.sectors_per_cluster 0 f.bpb (d.block_size f.store) cluster sector
                  buffer w
            elim w'.going [
              | false ↦ pure w'.acc
              | true ↦ (do next ← get_next_cluster d cluster; walk_chain fuel next w')
            ])
            f
    ]

    unfoldable pub walk_file_meta_by_cluster : ℕ → ℕ → W → M S W
    walk_file_meta_by_cluster fuel cluster w = walk_chain fuel cluster (start_walk w)
