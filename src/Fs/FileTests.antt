-- ===== src/Fs/FileTests.antt =====
-- Names, layouts, files and handles at concrete inputs.
use cos_rs.Base.{
  ℕ, ◌+◌, ◌-◌, ◌*◌, ◌/◌, ◌≤◌, ◌<◌, ◌≡◌, ◌↔◌, min, refl, none, true, false, List, [], ◌∷◌, ◌++◌,
  replicate, slice, splice, arith,
}
use cos_rs.Disk.Block.{read_rounds, read_blocks}
use cos_rs.Disk.Memory
use cos_rs.Disk.Memory.{MemoryDevice}
use cos_rs.Fs.Types.{Bpb, Fat32, done, fail, file_closed, file_occupied, fat_entry_eoc_start}
use cos_rs.Fs.Table.{get_next_cluster, get_sector_by_cluster}
use cos_rs.Fs.Table.Sound.{HasTables}
use cos_rs.Fs.Name.{
  Name, Fat32FileMetadata, new, put_unit, put_char, pack_char, pack_chars, pack_name, cluster_of,
  name_match_long,
}
use cos_rs.Fs.Name.Match.{name_match_long-pack_name}
use cos_rs.Fs.Mount.{
  calc_cluster_count, fat_sectors, max_cluster_of, check_bpb, largest_power, is_power_of_two,
}
use cos_rs.Fs.Mount.Format.{format_bpb}
use cos_rs.Fs.Mount.Layout.{calc_cluster_count-accounts, with_format-too_small}
use cos_rs.Fs.Mount.Accept.{mount-HasTables}
use cos_rs.Fs.Directory.{short_bytes, long_bytes}
use cos_rs.Fs.Directory.Edit.{meta_bytes}
use cos_rs.Fs.System.{Fat32FileHandle, contains, remove, occupy}
use cos_rs.Fs.System.Calls.{close_call, move_pointer_call, read_call, write_call, Turn, use_handle}
use cos_rs.Fs.System.Handle.{left, close, read}
use cos_rs.Fs.System.ReadSectors.{sector_bytes}
use cos_rs.Fs.System.Content.{FileAt, file_end, file_more, read-content}
use cos_rs.Fs.System.Occupied.{occupy-close, use_handle-close}
use cos_rs.Fs.System.Reader.{handle_io, open_at, IsOpenAt, handle_view, handle-IsFile}
use cos_rs.Elf.Io.{IsFile}
use cos_rs.Elf.Load.{load_segment}
use cos_rs.Elf.Load.Stores.{Stores}
use cos_rs.Elf.Load.Segment.{load_segment-Stores}
use cos_rs.Elf.Tests.{memory_loader, same_memory, Anywhere, memory-IsLoader, segment, empty}
use cos_rs.Fs.Tests.{system_of, full}

name_match_long-pack_name_example :
    (name_match_long (pack_name (97 ∷ 98 ∷ [])) (97 ∷ []) ≡ true)
    ↔ (◌≡◌ {A = List ℕ} (97 ∷ []) (97 ∷ 98 ∷ []))
name_match_long-pack_name_example =
    name_match_long-pack_name (97 ∷ 98 ∷ []) (97 ∷ []) (λ e. ground arith, (λ e. ground arith, tt))

calc_cluster_count-accounts_example :
    2
      + 2 * fat_sectors 512 (calc_cluster_count 2 512 8 131072).0
      + (calc_cluster_count 2 512 8 131072).0 * 8
      + (calc_cluster_count 2 512 8 131072).1
    ≤ 131072
unfolding calc_cluster_count
calc_cluster_count-accounts_example =
    calc_cluster_count-accounts 2 512 8 131072 (omega arith) (omega arith) (omega arith)
      (omega arith)

with_format-too_small_example :
    fat_sectors 512 (calc_cluster_count 2 512 8 (1026 * 1 - 4)).0 * (512 / 4)
    < (calc_cluster_count 2 512 8 (1026 * 1 - 4)).0 + 2
with_format-too_small_example = with_format-too_small 1 (omega arith)

-- The boot record that formats a device of 64 MiB.
abbrev boot : Bpb
boot = format_bpb 512 10 131072 128

mount-HasTables_example :
    HasTables boot (max_cluster_of boot 131072) 512 131072
    × (boot.reserved_sector_count
          + boot.fat_size_32 * 2
          + max_cluster_of boot 131072 * boot.sectors_per_cluster
        ≤ 131072)
unfolding format_bpb check_bpb largest_power is_power_of_two
mount-HasTables_example = mount-HasTables boot 512 131072 refl (omega arith) refl (omega arith)

-- A file of both clusters, and a handle in the middle of it.
file : Fat32FileMetadata
unfolding new
file =
    let m = new (record { as_bytes = 97 ∷ []; encode_utf16 = 97 ∷ [] }) 2 0x20 in
    record m { short = record m.short { file_size = 100 } }

abbrev handle : Fat32FileHandle
handle = record { metadata = file; pointer = 60; closed = false }

abbrev content : List ℕ
content = sector_bytes 1 0 64 64 (replicate 64 7) ++ (sector_bytes 1 0 64 64 (replicate 64 7) ++ [])

file_at : FileAt Memory.device (full none) (cluster_of file) content 2
unfolding file new cluster_of get_sector_by_cluster get_next_cluster read_blocks read_rounds
    Memory.read_block sector_bytes
file_at = file_more refl refl refl refl refl (file_more refl refl refl refl refl (file_end refl))

read-content_example :
    (k : ℕ) × (k ≡ min 10 (file.short.file_size - 60))
    × (read Memory.device 3 true (replicate 10 0) handle (full none)
        ≡ left
            (record handle { pointer = 60 + k })
            (full none)
            (done (splice 0 (slice 60 k content) (replicate 10 0), k)))
unfolding file new sector_bytes
read-content_example =
    read-content Memory.device 3 2 (full none) handle content (replicate 10 0) (omega arith) file_at
      (omega arith) refl (omega arith) (omega arith) (omega arith)

occupy-close_example :
    (g : Fat32 MemoryDevice) × (h : Fat32FileHandle) × (occupy Memory.device 3 file (full none)
      ≡ (g, done h))
    × (occupy Memory.device 3 file g ≡ (g, fail file_occupied))
    × ((close true h g).outcome ≡ done tt)
    × ((k : Fat32FileHandle) × ((occupy Memory.device 3 file (close true h g).system).1 ≡ done k))
unfolding contains
occupy-close_example = occupy-close Memory.device 3 file file (full none) refl refl

-- A segment of the file, loaded through a handle whose pointer stands elsewhere.
abbrev reading : Fat32FileHandle × Fat32 MemoryDevice
reading = open_at file (full none) 60

handle-IsFile_full :
    IsFile (handle_io Memory.device 3 true) (handle_view file content) (IsOpenAt file (full none))
unfolding file new sector_bytes
handle-IsFile_full =
    handle-IsFile Memory.device 3 2 file (full none) content (omega arith) file_at (omega arith)
      (omega arith) (omega arith)

load_segment-Stores_example :
    Stores
      (handle_io Memory.device 3 true)
      (handle_view file content)
      (IsOpenAt file (full none))
      handle-IsFile_full
      memory_loader
      same_memory
      Anywhere
      memory-IsLoader
      0x8000000000
      (slice 2 30 (slice 0 file.short.file_size content) ++ replicate 20 0)
      reading
      empty
      (load_segment (handle_io Memory.device 3 true) memory_loader segment reading empty)
unfolding file new sector_bytes
load_segment-Stores_example =
    load_segment-Stores (handle_io Memory.device 3 true) (handle_view file content)
      (IsOpenAt file (full none)) handle-IsFile_full memory_loader same_memory Anywhere
      memory-IsLoader segment reading empty (60, omega arith, refl) refl tt (omega arith)
      (omega arith) (omega arith)

-- Calls of the handle behind its close, with a file opened by others in between.
abbrev open_other : Fat32 MemoryDevice → Fat32 MemoryDevice
open_other f = record f { occupied_file = 9 ∷ f.occupied_file }

abbrev turns : List (Turn MemoryDevice)
turns =
    record { others = open_other; mounted = true; call = read_call (0 ∷ []) }
    ∷ record { others = λ f. f; mounted = true; call = write_call (1 ∷ []) }
    ∷ record { others = λ f. f; mounted = true; call = move_pointer_call 5 }
    ∷ record { others = λ f. f; mounted = false; call = close_call }
    ∷ []

abbrev occupied : Fat32 MemoryDevice
occupied = record (full none) { occupied_file = 2 ∷ [] }

use_handle-close_example :
    use_handle Memory.device 3
      (record { others = λ f. f; mounted = true; call = close_call } ∷ turns)
      handle
      occupied
    ≡ (
      record handle { closed = true },
      open_other (record occupied { occupied_file = remove (cluster_of file) (2 ∷ []) }),
      done tt ∷ replicate 4 (fail file_closed),
    )
use_handle-close_example = use_handle-close Memory.device 3 (λ f. f) turns handle occupied refl

-- A root directory with the one file `a`.
abbrev name_of : ℕ → Name
name_of c = record { as_bytes = c ∷ []; encode_utf16 = c ∷ [] }

root : Fat32 MemoryDevice
unfolding meta_bytes short_bytes long_bytes new pack_name pack_chars pack_char put_char put_unit
root =
    system_of fat_entry_eoc_start fat_entry_eoc_start
      (meta_bytes (new (name_of 97) 3 0x20) ++ replicate 64 0) none

found : Fat32FileMetadata
unfolding new pack_name pack_chars pack_char put_char put_unit
found = record (new (name_of 97) 3 0x20) {
  start_cluster = 2;
  start_sector = 4;
  start_sector_offset = 0;
  short_cluster = 2;
  short_sector = 4;
  short_sector_offset = 1;
}
