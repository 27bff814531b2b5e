-- ===== src/Fs/Mount.antt =====
-- library/filesystem/src/fs/fat32.rs: `mount` and `with_format`, and the checks of what they read.
pub mod Format
pub mod Layout
pub mod Accept
use cos_rs.Base.{
  ℕ, zero, suc, ◌+◌, ◌-◌, ◌*◌, ◌/◌, ◌%◌, ◌^◌, ◌≤◌, min, Option, none, some, List, [], ◌∷◌, ◌++◌,
  Bool, true, false, not, ◌&&◌, ◌||◌, ltb, leb, ◌==◌, if◌then◌else◌, replicate, slice, splice, take,
}
use cos_rs.Disk.Block.{BlockDeviceError, BlockDevice, Result, ok, err}
use cos_rs.Elf.File.{le_at}
use cos_rs.Fs.Types.{Bpb, FsInfo, Fat32, le_bytes, fat_entry_eoc_start}
use cos_rs.Fs.Table.{put_entry, fs_info_bytes}

pub data MountAnswer (A : Type 0) : Type 0 where
  mounted : A → MountAnswer A
  io_error : BlockDeviceError → MountAnswer A
  invalid_format : MountAnswer A

abbrev pub lead_signature : ℕ
lead_signature = 0x41615252

abbrev pub struct_signature : ℕ
struct_signature = 0x61417272

abbrev pub trail_signature : ℕ
trail_signature = 0xAA550000

abbrev pub boot_sector_signature : ℕ
boot_sector_signature = 0xAA55

-- `is_power_of_two` and `1 << (63 - n.leading_zeros())` on 64-bit numbers: the largest power of two
-- that is at most the number.
unfoldable pub largest_power : ℕ → ℕ → ℕ → ℕ
largest_power zero power n = power
largest_power (suc rounds) power n =
    let more = largest_power rounds (2 * power) n in if leb (2 * power) n then more else power

unfoldable pub is_power_of_two : ℕ → Bool
is_power_of_two n = not (n == 0) && largest_power 63 1 n == n

-- A `u64` subtraction, which wraps.
abbrev pub sub_u64 : ℕ → ℕ → ℕ
sub_u64 a b = (a + 2 ^ 64 - b) % 2 ^ 64

-- True for `Ok`; every failed check is `InvalidFormat`.
unfoldable pub check_bpb : Bpb → ℕ → ℕ → Bool
check_bpb b block_size block_count =
    if ltb b.bytes_per_sector 512
      || ltb block_size b.bytes_per_sector
      || not (is_power_of_two b.bytes_per_sector)
    then false
    else if b.sectors_per_cluster == 0 || not (is_power_of_two b.sectors_per_cluster)
    then false
    else if b.reserved_sector_count == 0 || ltb block_count b.reserved_sector_count
    then false
    else if b.num_fats == 0
    then false
    else if not (b.root_entry_count == 0)
    then false
    else if not (b.fat_size_16 == 0)
    then false
    else if not (check_total b block_count)
    then false
    else if b.fat_size_32 == 0
    then false
    else if ltb b.root_cluster 2
    then false
    else if not (b.boot_signature == 0x28) && not (b.boot_signature == 0x29)
    then false
    else b.boot_sector_signature == boot_sector_signature
  where
    check_total : Bpb → ℕ → Bool
    check_total b block_count =
        if b.total_sectors_16 == 0
        then b.total_sectors_32 == block_count
        else b.total_sectors_16 == block_count && b.total_sectors_32 == 0

unfoldable pub check_fs_info : FsInfo → Bool
check_fs_info i =
    i.lead_signature == lead_signature
    && i.struct_signature == struct_signature
    && i.trail_signature == trail_signature

-- What a rest of sectors holds behind the sectors for two tables: clusters, and what is left over.
unfoldable pub share_remain : ℕ → ℕ → ℕ × ℕ
share_remain sectors_per_cluster remain_block_count =
    let remain_cluster = (remain_block_count - 2) / sectors_per_cluster in
    if ltb 2 remain_block_count
    then (remain_cluster, remain_block_count - 2 - remain_cluster * sectors_per_cluster)
    else (0, remain_block_count)

-- The total number of clusters, and the sectors that are left over. The caller has at least as
-- many blocks as it reserves.
unfoldable pub calc_cluster_count : ℕ → ℕ → ℕ → ℕ → ℕ × ℕ
calc_cluster_count reserved_sector_count bytes_per_sector sectors_per_cluster block_count =
    let cluster_per_fat = bytes_per_sector / 4 in
    let sector_per_group = 2 + cluster_per_fat * sectors_per_cluster in
    let virtual_block_count = block_count - reserved_sector_count + sectors_per_cluster * 2 in
    let group_count = virtual_block_count / sector_per_group in
    let remain =
      share_remain sectors_per_cluster (virtual_block_count - sector_per_group * group_count) in
    (group_count * cluster_per_fat + remain.0 - 2, remain.1)

-- `fat_size_32` of `with_format`: the sectors of one table.
unfoldable pub fat_sectors : ℕ → ℕ → ℕ
fat_sectors bytes_per_sector total_cluster_count =
    (total_cluster_count + bytes_per_sector / 4 - 1) / (bytes_per_sector / 4)

-- `BPB` and `FSInfo` from their 512 bytes.
unfoldable pub bpb_of : List ℕ → Bpb
bpb_of b = record {
  reserved_code = slice 0 3 b;
  oem_id = slice 3 8 b;
  bytes_per_sector = le_at 2 11 b;
  sectors_per_cluster = le_at 1 13 b;
  reserved_sector_count = le_at 2 14 b;
  num_fats = le_at 1 16 b;
  root_entry_count = le_at 2 17 b;
  total_sectors_16 = le_at 2 19 b;
  media = le_at 1 21 b;
  fat_size_16 = le_at 2 22 b;
  sectors_per_track = le_at 2 24 b;
  num_heads = le_at 2 26 b;
  hidden_sectors = le_at 4 28 b;
  total_sectors_32 = le_at 4 32 b;
  fat_size_32 = le_at 4 36 b;
  ext_flags = le_at 2 40 b;
  fs_version = le_at 2 42 b;
  root_cluster = le_at 4 44 b;
  fs_info = le_at 2 48 b;
  bk_boot_sector = le_at 2 50 b;
  reserved = slice 52 12 b;
  drive_number = le_at 1 64 b;
  reserved1 = le_at 1 65 b;
  boot_signature = le_at 1 66 b;
  volume_id = le_at 4 67 b;
  volume_label = slice 71 11 b;
  fs_type = slice 82 8 b;
  code = slice 90 420 b;
  boot_sector_signature = le_at 2 510 b;
}

unfoldable pub fs_info_of : List ℕ → FsInfo
fs_info_of b = record {
  lead_signature = le_at 4 0 b;
  reserved1 = slice 4 480 b;
  struct_signature = le_at 4 484 b;
  free_cluster_count = le_at 4 488 b;
  next_free_cluster = le_at 4 492 b;
  reserved2 = slice 496 12 b;
  trail_signature = le_at 4 508 b;
}

-- The smaller of what the table and what the device has room for, as a `u32`.
unfoldable pub max_cluster_of : Bpb → ℕ → ℕ
max_cluster_of b block_count =
    let fat_limit = b.fat_size_32 * b.bytes_per_sector / 4 - 2 in
    let device_limit =
      sub_u64 (sub_u64 block_count b.reserved_sector_count) (b.fat_size_32 * b.num_fats)
      / b.sectors_per_cluster in
    min fat_limit device_limit % 2 ^ 32

module _ {S : Type 0} (d : BlockDevice S) where
  abbrev pub after_read : {A : Type 0} → Result (List ℕ) → (List ℕ → MountAnswer A) → MountAnswer A
  after_read (ok block) k = k block
  after_read (err e) k = io_error e

  abbrev pub mount_with : S → Bpb → Option FsInfo → Fat32 S
  mount_with s b info = record {
    store = s;
    bpb = b;
    fs_info = info;
    max_cluster = max_cluster_of b (d.block_count s);
    occupied_file = [];
  }

  -- What follows the checks of the boot record.
  unfoldable pub mount_info : S → Bpb → MountAnswer (Fat32 S)
  mount_info s b =
      if ltb b.fs_info b.reserved_sector_count
      then after_read (d.read_block b.fs_info (replicate (d.block_size s) 0) s) (λ buffer.
        let info = fs_info_of buffer in
        if check_fs_info info then mounted (mount_with s b (some info)) else invalid_format)
      else mounted (mount_with s b none)

  unfoldable pub mount : S → MountAnswer (Fat32 S)
  mount s =
      if ltb (d.block_size s) 512
      then invalid_format
      else if ltb (d.block_count s) 2
      then invalid_format
      else after_read (d.read_block 0 (replicate (d.block_size s) 0) s) (λ buffer.
        let b = bpb_of buffer in
        if check_bpb b (d.block_size s) (d.block_count s) then mount_info s b else invalid_format)
