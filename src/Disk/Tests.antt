-- ===== src/Disk/Tests.antt =====
-- The devices of library/filesystem/src/device at concrete sizes, and the theorems at them.
use cos_rs.Base.{
  ◌≡◌, refl, true, false, Option, none, some, List, [], ◌∷◌, map, length, replicate, arith,
}
use cos_rs.Disk.Block.{ok, write_blocks, read_blocks}
use cos_rs.Disk.Memory
use cos_rs.Disk.Memory.{MemoryDevice}
use cos_rs.Disk.Transfer.{read-write_blocks}
use cos_rs.Disk.Mbr.{
  Partition, PartitionEntry, done, entry_bytes, lba_to_chs, write_entry, write_table, to_partition,
  mount, format, write_block, read_block,
}
use cos_rs.Disk.Mbr.Table.{mount-format}
use cos_rs.Disk.Mbr.Bounds.{read_block-write_block}

-- Four blocks of two bytes.
small : MemoryDevice
unfolding Memory.new
small = Memory.new 7 2

small_size : (small.block_count ≡ 4) × (length small.bytes ≡ 8)
unfolding small
small_size = (refl, refl)

read-write_blocks_example :
    ((write_blocks Memory.device 1 2 (1 ∷ 2 ∷ 3 ∷ 4 ∷ []) small).1 ≡ ok tt)
    × (read_blocks Memory.device 1 2
          (0 ∷ 0 ∷ 0 ∷ 0 ∷ [])
          (write_blocks Memory.device 1 2 (1 ∷ 2 ∷ 3 ∷ 4 ∷ []) small).0
        ≡ ok (1 ∷ 2 ∷ 3 ∷ 4 ∷ []))
unfolding small
read-write_blocks_example =
    read-write_blocks Memory.device Memory.IsValid Memory.memory-IsLawful 1 2 (1 ∷ 2 ∷ 3 ∷ 4 ∷ [])
      (0 ∷ 0 ∷ 0 ∷ 0 ∷ []) small refl (omega arith) refl refl

-- Eight blocks of 512 bytes, with two partitions.
disk : MemoryDevice
disk = record { bytes = replicate 4096 0; block_size = 512; block_count = 8 }

abbrev entries : List (Option PartitionEntry)
entries =
    some (record { bootable = true; start = 1; end = 3; partition_type = 0x0c })
    ∷ none
    ∷ some (record { bootable = false; start = 3; end = 8; partition_type = 0xeb })
    ∷ none
    ∷ []

mount-format_example :
    (mount Memory.device (format Memory.device entries disk).0 ≡ done (map to_partition entries))
    × (map to_partition entries ≡ map to_partition entries)
unfolding disk format write_table write_entry entry_bytes lba_to_chs Memory.write_block
    Memory.read_block
mount-format_example =
    mount-format Memory.device Memory.IsValid Memory.memory-IsLawful entries disk
      (map to_partition entries) refl (omega arith) refl (omega arith) (omega arith) refl

abbrev first : Partition
first = record { partition_type = 0x0c; start = 1; end = 3 }

abbrev second : Partition
second = record { partition_type = 0xeb; start = 3; end = 8 }

-- The first partition has two blocks, and its third is the first of the second partition.
read_block-write_block_example :
    ((write_block Memory.device first 2 (replicate 512 7) disk).1 ≡ ok tt)
    × (read_block Memory.device second 0
          (replicate 512 0)
          (write_block Memory.device first 2 (replicate 512 7) disk).0
        ≡ ok (replicate 512 7))
unfolding disk
read_block-write_block_example =
    read_block-write_block Memory.device Memory.IsValid Memory.memory-IsLawful first second 2
      (replicate 512 7) (replicate 512 0) disk refl (omega arith) (omega arith) (omega arith)
      (omega arith) (omega arith) refl refl
