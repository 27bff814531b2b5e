-- ===== src/Disk/Mbr/Bounds.antt =====
-- What the bounds tests of library/filesystem/src/device/mbr.rs let through.
use cos_rs.Base.{ℕ, ◌+◌, ◌-◌, ◌≤◌, ◌<◌, ◌≡◌, ap, ◌∙◌, List, length, arith}
use cos_rs.Disk.Block.{BlockDevice, IsLawful, ok}
use cos_rs.Disk.Mbr.{Partition, write_block, read_block}

module _ {S : Type 0} (d : BlockDevice S) where
  write_block-passes :
      (p : Partition) (i : ℕ) (buf : List ℕ) (s : S)
      → i ≤ p.end
      → write_block d p i buf s ≡ d.write_block (i + p.start) buf s
  unfolding write_block
  write_block-passes p i buf s h = ground arith

  read_block-passes :
      (p : Partition) (i : ℕ) (buf : List ℕ) (s : S)
      → i ≤ p.end
      → read_block d p i buf s ≡ d.read_block (i + p.start) buf s
  unfolding read_block
  read_block-passes p i buf s h = ground arith

  module _ (IsValid : S → Type 0) (l : IsLawful d IsValid) where
    -- On a valid state of a lawful device, for two partitions of which the second starts at or
    -- behind the end of the first, a block index that is at most the end of the first, and
    -- reaches, counted from the start of the first, a block of the second that the device has,
    -- and buffers of one block: write_block of the first succeeds, and read_block of the second
    -- then reads the written buffer from that block.
    pub read_block-write_block :
        (p q : Partition) (i : ℕ) (buf old : List ℕ) (s : S)
        → IsValid s
        → p.end ≤ q.start
        → q.start ≤ i + p.start
        → i + p.start < q.end
        → i ≤ p.end
        → i + p.start < d.block_count s
        → length buf ≡ d.block_size s
        → length old ≡ d.block_size s
        → ((write_block d p i buf s).1 ≡ ok tt)
          × (read_block d q (i + p.start - q.start) old (write_block d p i buf s).0 ≡ ok buf)
    read_block-write_block p q i buf old s valid apart low high pass device full_buf full_old =
        let w = write_block-passes p i buf s pass in
        let place : i + p.start - q.start + q.start ≡ i + p.start = omega arith in
        (
          ap (λ r. r.1) w ∙ l.write_ok (i + p.start) buf s valid device full_buf,
          ap (λ r. read_block d q (i + p.start - q.start) old r.0) w
              ∙ read_block-passes q (i + p.start - q.start) old
                  (d.write_block (i + p.start) buf s).0 (omega arith)
              ∙ ap (λ n. d.read_block n old (d.write_block (i + p.start) buf s).0) place
              ∙ l.read-write_self (i + p.start) buf old s valid device full_buf full_old,
        )
