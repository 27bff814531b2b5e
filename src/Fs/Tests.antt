-- ===== src/Fs/Tests.antt =====
-- A file system of two clusters on a device in memory, and the theorems at it.
use cos_rs.Base.{◌<◌, ℕ, ◌≡◌, refl, Option, none, some, List, [], ◌∷◌, ◌++◌, All, replicate, arith}
use cos_rs.Disk.Memory
use cos_rs.Disk.Memory.{MemoryDevice}
use cos_rs.Fs.Types.{Bpb, FsInfo, Fat32, done, out_of_fuel, le_bytes, fat_entry_eoc_start}
use cos_rs.Fs.Table.{get_next_cluster, update_cluster, free_chain, find_available_cluster}
use cos_rs.Fs.Table.Sound.{IsSound}
use cos_rs.Fs.Table.Scan.{IsFree, AllUsed, Found}
use cos_rs.Fs.Table.Find.{find_available_cluster-hint, find_available_cluster-forever}
use cos_rs.Fs.Table.Chain.{Chain, stop, link}
use cos_rs.Fs.Table.Laws.{get_next_cluster-update_cluster, free_chain-frees}

-- Sectors of 64 bytes, one to a cluster; 16 entries to a table.
abbrev pub boot : Bpb
boot = record {
  reserved_code = [];
  oem_id = [];
  bytes_per_sector = 64;
  sectors_per_cluster = 1;
  reserved_sector_count = 2;
  num_fats = 2;
  root_entry_count = 0;
  total_sectors_16 = 0;
  media = 0;
  fat_size_16 = 0;
  sectors_per_track = 0;
  num_heads = 0;
  hidden_sectors = 0;
  total_sectors_32 = 6;
  fat_size_32 = 1;
  ext_flags = 0;
  fs_version = 0;
  root_cluster = 2;
  fs_info = 1;
  bk_boot_sector = 0xFFFF;
  reserved = [];
  drive_number = 0x80;
  reserved1 = 0;
  boot_signature = 0x28;
  volume_id = 0;
  volume_label = [];
  fs_type = [];
  code = [];
  boot_sector_signature = 0xAA55;
}

abbrev info : FsInfo
info = record {
  lead_signature = 0x41615252;
  reserved1 = [];
  struct_signature = 0x61417272;
  free_cluster_count = 1;
  next_free_cluster = 2;
  reserved2 = [];
  trail_signature = 0xAA550000;
}

-- A table with two entries for clusters.
abbrev pub table : ℕ → ℕ → List ℕ
table second third = replicate 8 0 ++ le_bytes 4 second ++ le_bytes 4 third ++ replicate 48 0

abbrev pub disk_of : ℕ → ℕ → List ℕ → MemoryDevice
disk_of second third content = record {
  bytes = replicate 128 0 ++ table second third ++ table second third ++ content;
  block_size = 64;
  block_count = 6;
}

-- Where no FSInfo is kept, the boot record names no reserved sector for it.
abbrev info_sector : Option FsInfo → ℕ
info_sector none = 0xFFFF
info_sector (some i) = 1

info_sector_lem : (sheet : Option FsInfo) (i : FsInfo) → sheet ≡ some i → info_sector sheet < 2
info_sector_lem none i e = ground arith
info_sector_lem (some j) i e = omega arith

abbrev pub system_of : ℕ → ℕ → List ℕ → Option FsInfo → Fat32 MemoryDevice
system_of second third content sheet = record {
  store = disk_of second third content;
  bpb = record boot { fs_info = info_sector sheet };
  fs_info = sheet;
  max_cluster = 2;
  occupied_file = [];
}

-- One chain of both clusters; and the second cluster alone.
abbrev pub full : Option FsInfo → Fat32 MemoryDevice
full sheet = system_of 3 fat_entry_eoc_start (replicate 128 7) sheet

abbrev half : Option FsInfo → Fat32 MemoryDevice
half sheet = system_of fat_entry_eoc_start 0 (replicate 128 7) sheet

full-IsSound : (sheet : Option FsInfo) → IsSound Memory.device Memory.IsValid (full sheet)
full-IsSound sheet = record {
  valid = refl;
  tables = record {
    sector_fits = omega arith;
    sector_entry = omega arith;
    room = omega arith;
    word = omega arith;
    copies = omega arith;
    inside = omega arith;
  };
  info_reserved = info_sector_lem sheet;
}

half-IsSound : (sheet : Option FsInfo) → IsSound Memory.device Memory.IsValid (half sheet)
half-IsSound sheet = record {
  valid = refl;
  tables = record {
    sector_fits = omega arith;
    sector_entry = omega arith;
    room = omega arith;
    word = omega arith;
    copies = omega arith;
    inside = omega arith;
  };
  info_reserved = info_sector_lem sheet;
}

full_chain :
    (sheet : Option FsInfo) → Chain Memory.device Memory.IsValid (full sheet) 2 (2 ∷ 3 ∷ [])
unfolding get_next_cluster Memory.read_block
full_chain sheet = link refl (omega arith) refl (link refl (omega arith) refl (stop refl))

full_used : (sheet : Option FsInfo) → AllUsed Memory.device (full sheet) 2 2
unfolding get_next_cluster Memory.read_block IsFree
full_used sheet = (λ e. ground arith, (λ e. ground arith, tt))

get_next_cluster-update_cluster_example :
    (g : Fat32 MemoryDevice) × (update_cluster Memory.device 2 9 (full none) ≡ (g, done tt))
    × IsSound Memory.device Memory.IsValid g
    × ((get_next_cluster Memory.device 2 g).1 ≡ done 9)
    × ((get_next_cluster Memory.device 3 g).1 ≡ (get_next_cluster Memory.device 3 (full none)).1)
get_next_cluster-update_cluster_example =
    get_next_cluster-update_cluster Memory.device Memory.IsValid Memory.memory-IsLawful (full none)
      (full-IsSound none) 2 9 3 (omega arith) (omega arith) (omega arith) (λ e. ground arith)

free_chain-frees_example :
    (g : Fat32 MemoryDevice) × (free_chain Memory.device 3 2 (full (some info)) ≡ (g, done tt))
    × IsSound Memory.device Memory.IsValid g
    × All (IsFree Memory.device g) (2 ∷ 3 ∷ [])
    × ((get_next_cluster Memory.device 0 g).1
        ≡ (get_next_cluster Memory.device 0 (full (some info))).1)
free_chain-frees_example =
    free_chain-frees Memory.device Memory.IsValid Memory.memory-IsLawful (full (some info))
      (full-IsSound (some info)) 3 2 0 (2 ∷ 3 ∷ []) (full_chain (some info)) (omega arith)
      (omega arith) (λ e. ground arith, (λ e. ground arith, tt))

find_available_cluster-hint_example :
    (found : ℕ) × (g : Fat32 MemoryDevice) × (find_available_cluster Memory.device 3
        (half (some info))
      ≡ (g, done found))
    × Found Memory.device Memory.IsValid Memory.memory-IsLawful (half (some info)) g 2 4 found
unfolding get_next_cluster Memory.read_block IsFree
find_available_cluster-hint_example =
    find_available_cluster-hint Memory.device Memory.IsValid Memory.memory-IsLawful
      (half (some info)) (half-IsSound (some info)) info refl 3 3 (λ e. ground arith) (omega arith)
      (omega arith) (omega arith) (omega arith) refl (omega arith)

find_available_cluster-forever_example :
    find_available_cluster Memory.device 100 (full (some info)) ≡ (full (some info), out_of_fuel)
find_available_cluster-forever_example =
    find_available_cluster-forever Memory.device Memory.IsValid Memory.memory-IsLawful
      (full (some info)) (full-IsSound (some info)) info refl 100 (λ e. ground arith) (omega arith)
      (omega arith) (full_used (some info))
