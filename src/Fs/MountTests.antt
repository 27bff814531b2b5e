-- ===== src/Fs/MountTests.antt =====
-- A device in memory with a boot record and no FSInfo, as `mount` reads it.
use cos_rs.Base.{ℕ, ◌≡◌, ◌⊎◌, refl, none, List, ◌++◌, replicate, arith}
use cos_rs.Disk.Memory
use cos_rs.Disk.Memory.{MemoryDevice}
use cos_rs.Fs.Types.{Bpb, Fat32, done, fail, disk_full, le_bytes, fat_entry_eoc_start}
use cos_rs.Fs.Table.{find_available_cluster}
use cos_rs.Fs.Table.Sound.{IsSound}
use cos_rs.Fs.Table.Scan.{AllUsed, Found}
use cos_rs.Fs.Table.Find.{find_available_cluster-no_info}
use cos_rs.Fs.Mount.{
  mounted, mount, mount_info, mount_with, bpb_of, check_bpb, is_power_of_two, largest_power,
  max_cluster_of,
}
use cos_rs.Fs.Mount.Format.{bpb_bytes}
use cos_rs.Fs.Mount.Accept.{mount-IsSound}

-- Sectors of 512 bytes, one to a cluster; a table is a sector.
boot : Bpb
boot = record {
  reserved_code = replicate 3 0;
  oem_id = replicate 8 0;
  bytes_per_sector = 512;
  sectors_per_cluster = 1;
  reserved_sector_count = 1;
  num_fats = 2;
  root_entry_count = 0;
  total_sectors_16 = 0;
  media = 0;
  fat_size_16 = 0;
  sectors_per_track = 0;
  num_heads = 0;
  hidden_sectors = 0;
  total_sectors_32 = 5;
  fat_size_32 = 1;
  ext_flags = 0;
  fs_version = 0;
  root_cluster = 2;
  fs_info = 0xFFFF;
  bk_boot_sector = 0xFFFF;
  reserved = replicate 12 0;
  drive_number = 0x80;
  reserved1 = 0;
  boot_signature = 0x28;
  volume_id = 0;
  volume_label = replicate 11 0;
  fs_type = replicate 8 0;
  code = replicate 420 0;
  boot_sector_signature = 0xAA55;
}

-- The root directory in the first of two clusters; the second is free.
disk : MemoryDevice
unfolding boot bpb_bytes
disk =
    let table : List ℕ = replicate 8 0 ++ le_bytes 4 fat_entry_eoc_start ++ replicate 500 0 in
    record {
      bytes = bpb_bytes boot ++ table ++ table ++ replicate 1024 0;
      block_size = 512;
      block_count = 5;
    }

system : Fat32 MemoryDevice
unfolding boot
system = mount_with Memory.device disk boot none

mount-disk : mount Memory.device disk ≡ mounted system
unfolding mount mount_info bpb_of check_bpb is_power_of_two largest_power max_cluster_of disk boot
    bpb_bytes system Memory.read_block
mount-disk = refl

system-IsSound : IsSound Memory.device Memory.IsValid system
unfolding disk boot system bpb_bytes
system-IsSound =
    mount-IsSound Memory.device Memory.IsValid disk system refl mount-disk (omega arith) refl
      (omega arith)

find_available_cluster-no_info_example :
    ((cluster : ℕ) × (g : Fat32 MemoryDevice) × (find_available_cluster Memory.device 3 system
        ≡ (g, done cluster))
      × Found Memory.device Memory.IsValid Memory.memory-IsLawful system g 2 4 cluster)
    ⊎ ((find_available_cluster Memory.device 3 system ≡ (system, fail disk_full))
        × AllUsed Memory.device system 2 2)
unfolding max_cluster_of disk boot system bpb_bytes
find_available_cluster-no_info_example =
    find_available_cluster-no_info Memory.device Memory.IsValid Memory.memory-IsLawful 3 system
      system-IsSound refl (omega arith)
