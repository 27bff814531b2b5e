-- ===== src/Disk/Mbr.antt =====
-- library/filesystem/src/device/mbr.rs: a block device with an MBR partition table.
pub mod Table
pub mod Bounds
use cos_rs.Base.{
  ℕ, zero, suc, ◌+◌, ◌-◌, ◌*◌, ◌/◌, ◌%◌, ◌^◌, bit_and, bit_or, Bool, true, false, ◌||◌, Option,
  none, some, List, [], ◌∷◌, map, ltb, leb, ◌==◌, if◌then◌else◌, get_or, replicate, slice, splice,
}
use cos_rs.Disk.Block.{
  BlockDeviceError, out_of_bounds, Result, ok, err, BlockDevice, Done, write_blocks, read_blocks,
  write_zeros, clear_blocks,
}

abbrev pub partition_table_offset : ℕ
partition_table_offset = 446

abbrev pub partition_entry_size : ℕ
partition_entry_size = 16

abbrev pub partition_entry_count : ℕ
partition_entry_count = 4

-- `MbrPartitionDevice` without the device that it shares with the other partitions.
pub record Partition : Type 0 where
  pub partition_type : ℕ
  pub start : ℕ
  pub end : ℕ

pub record PartitionEntry : Type 0 where
  pub bootable : Bool
  pub start : ℕ
  pub end : ℕ
  pub partition_type : ℕ

-- `MountError` and `FormatError`; mounting never answers `bad_argument`.
pub data MbrError : Type 0 where
  device_error : BlockDeviceError → MbrError
  block_size_not_expected bad_argument : MbrError

pub data Outcome {ℓ} (A : Type ℓ) : Type ℓ where
  done : A → Outcome A
  failed : MbrError → Outcome A

abbrev pub byte : List ℕ → ℕ → ℕ
byte entry i = get_or entry i 0

-- `u32::from_le_bytes` of the four bytes from `i`.
abbrev pub u32_at : List ℕ → ℕ → ℕ
u32_at entry i =
    byte entry i
    + 2 ^ 8 * byte entry (i + 1)
    + 2 ^ 16 * byte entry (i + 2)
    + 2 ^ 24 * byte entry (i + 3)

abbrev pub entry_offset : ℕ → ℕ
entry_offset i = partition_table_offset + i * partition_entry_size

-- One round of the loop of `mount`, on the sixteen bytes of an entry.
unfoldable pub read_entry : ℕ → List ℕ → Option Partition
read_entry block_count entry =
    let start = u32_at entry 8 in
    let end = start + u32_at entry 12 in
    if byte entry 4 == 0
    then none
    else if leb (2 ^ 32) end
    then none
    else if start == 0 || leb block_count start || ltb block_count end
    then none
    else some (record { partition_type = byte entry 4; start = start; end = end })

unfoldable pub read_table : ℕ → ℕ → ℕ → List ℕ → List (Option Partition)
read_table zero i block_count buf = []
read_table (suc n) i block_count buf =
    read_entry block_count (slice (entry_offset i) partition_entry_size buf)
    ∷ read_table n (suc i) block_count buf

-- LBA to CHS, as the bytes of a partition entry.
unfoldable pub lba_to_chs : ℕ → ℕ × ℕ × ℕ
lba_to_chs lba =
    let cylinder = lba / (256 * 63) in
    let head = lba % (256 * 63) / 63 in
    let sectors = lba % 63 + 1 in
    let large = ltb 1023 cylinder || ltb 255 head || ltb 63 sectors in
    let c = if large then 1023 else cylinder in
    let h = if large then 255 else head in
    let t = if large then 63 else sectors in
    (
      h % 2 ^ 8,
      bit_or (bit_and t 0x3f % 2 ^ 8) (bit_and (c / 2 ^ 6) 0xc0 % 2 ^ 8),
      bit_and c 0xff % 2 ^ 8,
    )

abbrev pub u32_byte : ℕ → ℕ → ℕ
u32_byte n k = n / 2 ^ (8 * k) % 2 ^ 8

-- The sixteen bytes that `format` writes for an entry.
unfoldable pub entry_bytes : PartitionEntry → List ℕ
entry_bytes e =
    let (h0, t0, c0) = lba_to_chs e.start in
    let (h1, t1, c1) = lba_to_chs e.end in
    let count = e.end - e.start in
    (if e.bootable then 0x80 else 0)
    ∷ h0
    ∷ t0
    ∷ c0
    ∷ e.partition_type
    ∷ h1
    ∷ t1
    ∷ c1
    ∷ u32_byte e.start 0
    ∷ u32_byte e.start 1
    ∷ u32_byte e.start 2
    ∷ u32_byte e.start 3
    ∷ u32_byte count 0
    ∷ u32_byte count 1
    ∷ u32_byte count 2
    ∷ u32_byte count 3
    ∷ []

abbrev pub is_bad : ℕ → PartitionEntry → Bool
is_bad block_count e =
    e.partition_type == 0 || e.start == 0 || ltb e.end e.start || ltb block_count e.end

-- One round of the loop of `format`, on the block: `none` is the bad argument.
unfoldable pub write_entry : ℕ → ℕ → Option PartitionEntry → List ℕ → Option (List ℕ)
write_entry i block_count none buf =
    some (splice (entry_offset i) (replicate partition_entry_size 0) buf)
write_entry i block_count (some e) buf =
    if is_bad block_count e then none else some (splice (entry_offset i) (entry_bytes e) buf)

unfoldable pub write_table : ℕ → ℕ → List (Option PartitionEntry) → List ℕ → Option (List ℕ)
write_table i block_count [] buf = some buf
write_table i block_count (p ∷ ps) buf = elim (write_entry i block_count p buf) [
  | none ↦ none
  | some buf' ↦ write_table (suc i) block_count ps buf'
]

abbrev pub to_partition : Option PartitionEntry → Option Partition
to_partition none = none
to_partition (some e) =
    some (record { partition_type = e.partition_type; start = e.start; end = e.end })

module _ {S : Type 0} (d : BlockDevice S) where
  unfoldable pub mount : S → Outcome (List (Option Partition))
  mount s =
      if ltb (d.block_size s) 512
      then failed block_size_not_expected
      else elim (d.read_block 0 (replicate (d.block_size s) 0) s) [
        | err e ↦ failed (device_error e)
        | ok buf ↦ done (read_table partition_entry_count 0 (d.block_count s) buf)
      ]

  abbrev pub formatted :
      List (Option PartitionEntry) → S × Done → S × Outcome (List (Option Partition))
  formatted ps (s, ok u) = (s, done (map to_partition ps))
  formatted ps (s, err e) = (s, failed (device_error e))

  -- `partition` has `partition_entry_count` elements: an array in the code.
  unfoldable pub format : List (Option PartitionEntry) → S → S × Outcome (List (Option Partition))
  format ps s =
      if ltb (d.block_size s) 512
      then (s, failed block_size_not_expected)
      else elim (d.read_block 0 (replicate (d.block_size s) 0) s) [
        | err e ↦ (s, failed (device_error e))
        | ok buf ↦ elim (write_table 0 (d.block_count s) ps buf) [
          | none ↦ (s, failed bad_argument)
          | some buf' ↦ formatted ps (d.write_block 0 buf' s)
        ]
      ]

  -- The operations of `BlockDevice` for a partition, on the state of the device below.
  unfoldable pub write_block : Partition → ℕ → List ℕ → S → S × Done
  write_block p block_index buf s =
      if ltb p.end block_index
      then (s, err out_of_bounds)
      else d.write_block (block_index + p.start) buf s

  unfoldable pub read_block : Partition → ℕ → List ℕ → S → Result (List ℕ)
  read_block p block_index buf s =
      if ltb p.end block_index
      then err out_of_bounds
      else d.read_block (block_index + p.start) buf s

  unfoldable pub partition_write_blocks : Partition → ℕ → ℕ → List ℕ → S → S × Done
  partition_write_blocks p block_index count buf s =
      if ltb p.end (block_index + count)
      then (s, err out_of_bounds)
      else write_blocks d (block_index + p.start) count buf s

  unfoldable pub partition_read_blocks : Partition → ℕ → ℕ → List ℕ → S → Result (List ℕ)
  partition_read_blocks p block_index count buf s =
      if ltb p.end (block_index + count)
      then err out_of_bounds
      else read_blocks d (block_index + p.start) count buf s

  unfoldable pub partition_write_zeros : Partition → ℕ → ℕ → S → S × Done
  partition_write_zeros p block_index count s =
      if ltb p.end (block_index + count)
      then (s, err out_of_bounds)
      else write_zeros d (block_index + p.start) count s

  unfoldable pub partition_clear_blocks : Partition → ℕ → ℕ → S → S × Done
  partition_clear_blocks p block_index count s =
      if ltb p.end (block_index + count)
      then (s, err out_of_bounds)
      else clear_blocks d (block_index + p.start) count s

  unfoldable pub partition_device : Partition → BlockDevice S
  partition_device p = record {
    block_size = d.block_size;
    block_count = λ s. p.end - p.start;
    write_block = write_block p;
    read_block = read_block p;
  }
