-- ===== src/Fs/Mount/Format.antt =====
-- library/filesystem/src/fs/fat32.rs: `with_format`.
use cos_rs.Base.{
  ℕ, ◌+◌, ◌-◌, ◌*◌, ◌%◌, ◌^◌, some, List, [], ◌∷◌, ◌++◌, ltb, if◌then◌else◌, replicate, splice,
  take,
}
use cos_rs.Disk.Block.{BlockDeviceError, BlockDevice, ok, err, Done, write_blocks, write_zeros}
use cos_rs.Fs.Types.{Bpb, FsInfo, Fat32, le_bytes, fat_entry_eoc_start}
use cos_rs.Fs.Table.{put_entry, fs_info_bytes}
use cos_rs.Fs.Mount.{
  lead_signature, struct_signature, trail_signature, boot_sector_signature, largest_power,
  calc_cluster_count, fat_sectors,
}

pub data FormatAnswer (A : Type 0) : Type 0 where
  formatted : A → FormatAnswer A
  io_error : BlockDeviceError → FormatAnswer A
  device_too_small : FormatAnswer A

-- `BPB` as its 512 bytes.
unfoldable pub bpb_bytes : Bpb → List ℕ
bpb_bytes b =
    b.reserved_code
    ++ b.oem_id
    ++ le_bytes 2 b.bytes_per_sector
    ++ le_bytes 1 b.sectors_per_cluster
    ++ le_bytes 2 b.reserved_sector_count
    ++ le_bytes 1 b.num_fats
    ++ le_bytes 2 b.root_entry_count
    ++ le_bytes 2 b.total_sectors_16
    ++ le_bytes 1 b.media
    ++ le_bytes 2 b.fat_size_16
    ++ le_bytes 2 b.sectors_per_track
    ++ le_bytes 2 b.num_heads
    ++ le_bytes 4 b.hidden_sectors
    ++ le_bytes 4 b.total_sectors_32
    ++ le_bytes 4 b.fat_size_32
    ++ le_bytes 2 b.ext_flags
    ++ le_bytes 2 b.fs_version
    ++ le_bytes 4 b.root_cluster
    ++ le_bytes 2 b.fs_info
    ++ le_bytes 2 b.bk_boot_sector
    ++ b.reserved
    ++ le_bytes 1 b.drive_number
    ++ le_bytes 1 b.reserved1
    ++ le_bytes 1 b.boot_signature
    ++ le_bytes 4 b.volume_id
    ++ b.volume_label
    ++ b.fs_type
    ++ b.code
    ++ le_bytes 2 b.boot_sector_signature

-- The structures that `with_format` writes; the numbers are cut to the width of their fields.
unfoldable pub format_bpb : ℕ → ℕ → ℕ → ℕ → Bpb
format_bpb bytes_per_sector reserved_sector_count block_count fat_size = record {
  reserved_code = 0xeb ∷ 0xfe ∷ 0x90 ∷ [];
  oem_id = 99 ∷ 111 ∷ 115 ∷ 102 ∷ 115 ∷ 49 ∷ 46 ∷ 48 ∷ [];
  bytes_per_sector = bytes_per_sector % 2 ^ 16;
  sectors_per_cluster = 8;
  reserved_sector_count = reserved_sector_count % 2 ^ 16;
  num_fats = 2;
  root_entry_count = 0;
  total_sectors_16 = 0;
  media = 0;
  fat_size_16 = 0;
  sectors_per_track = 0;
  num_heads = 0;
  hidden_sectors = 0;
  total_sectors_32 = block_count % 2 ^ 32;
  fat_size_32 = fat_size % 2 ^ 32;
  ext_flags = 0;
  fs_version = 0;
  root_cluster = 2;
  fs_info = 1;
  bk_boot_sector = 0xFFFF;
  reserved = replicate 12 0;
  drive_number = 0x80;
  reserved1 = 0;
  boot_signature = 0x28;
  volume_id = 0;
  volume_label = replicate 11 0;
  fs_type = 70 ∷ 65 ∷ 84 ∷ 51 ∷ 50 ∷ 32 ∷ 32 ∷ 32 ∷ [];
  code = replicate 420 0;
  boot_sector_signature = boot_sector_signature;
}

unfoldable pub format_info : ℕ → FsInfo
format_info total_cluster_count = record {
  lead_signature = lead_signature;
  reserved1 = replicate 480 0;
  struct_signature = struct_signature;
  free_cluster_count = (total_cluster_count - 1) % 2 ^ 32;
  next_free_cluster = 3;
  reserved2 = replicate 12 0;
  trail_signature = trail_signature;
}

-- The first sector of a new table: two reserved entries and the root directory.
abbrev pub first_sector : ℕ → List ℕ
first_sector block_size =
    put_entry (put_entry (put_entry (replicate block_size 0) 0 0xffffff00) 1 0xffffffff) 2
      fat_entry_eoc_start

module _ {S : Type 0} (d : BlockDevice S) where
  abbrev pub after_write : {A : Type 0} → S × Done → (S → S × FormatAnswer A) → S × FormatAnswer A
  after_write (s, ok u) k = k s
  after_write (s, err e) k = (s, io_error e)

  -- The writes of `with_format`, in their order. It copies a whole block from each structure;
  -- `beyond_bpb` and `beyond_info` are the memory behind their 512 bytes.
  unfoldable pub write_format : List ℕ → List ℕ → ℕ → ℕ → ℕ → ℕ → S → S × FormatAnswer (Fat32 S)
  write_format beyond_bpb beyond_info bytes_per_sector reserved total fat_size s =
      let block_size = d.block_size s in
      let bpb = format_bpb bytes_per_sector reserved (d.block_count s) fat_size in
      let info = format_info total in
      let front =
        splice 0 (take block_size (bpb_bytes bpb ++ beyond_bpb)) (replicate (block_size * 2) 0) in
      let buffer = splice block_size (take block_size (fs_info_bytes info ++ beyond_info)) front in
      after_write (write_blocks d 0 2 buffer s) (λ s1.
        after_write (write_zeros d reserved (fat_size * 2) s1) (λ s2.
          after_write (d.write_block reserved (first_sector block_size) s2) (λ s3.
            after_write (d.write_block (reserved + fat_size) (first_sector block_size) s3) (λ s4.
              after_write (write_zeros d (reserved + fat_size * 2) 8 s4) (λ s5. (
                s5,
                formatted (record {
                  store = s5;
                  bpb = bpb;
                  fs_info = some info;
                  max_cluster = total % 2 ^ 32;
                  occupied_file = [];
                }),
              ))))))

  unfoldable pub with_format : List ℕ → List ℕ → S → S × FormatAnswer (Fat32 S)
  with_format beyond_bpb beyond_info s =
      let block_size = d.block_size s in
      let block_count = d.block_count s in
      let bytes_per_sector = largest_power 63 1 block_size in
      let counted = calc_cluster_count 2 bytes_per_sector 8 block_count in
      if ltb block_size 512
      then (s, device_too_small)
      else if ltb block_count 2
      then (s, device_too_small)
      else if ltb counted.0 2
      then (s, device_too_small)
      else write_format beyond_bpb beyond_info bytes_per_sector (2 + counted.1) counted.0
          (fat_sectors bytes_per_sector counted.0) s
