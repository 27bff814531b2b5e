-- ===== src/Fs/Table/Sound.antt =====
-- A mounted file system whose tables fit its device, and the sectors of the tables.
use native.Mathlib.Nat.{mod-lt, div-lt_iff_lt-mul, div-add-mod}
use cos_rs.Base.{ℕ, zero, suc, ◌+◌, ◌*◌, ◌/◌, ◌^◌, ◌≤◌, ◌<◌, ◌≡◌, ◌≢◌, sym, ap₂, ◌∙◌, some, arith}
use cos_rs.Disk.Block.{BlockDevice}
use cos_rs.Fs.Types.{Bpb, FsInfo, Fat32}
use cos_rs.Fs.Table.{cluster_per_sector, block_index, offset_in}

-- The table has an entry for every cluster and the two reserved numbers, and all of its copies are
-- inside the device.
pub record HasTables (b : Bpb) (max_cluster size count : ℕ) : Type 0 where
  pub sector_fits : b.bytes_per_sector ≤ size
  pub sector_entry : 4 ≤ b.bytes_per_sector
  pub room : max_cluster + 2 ≤ b.fat_size_32 * cluster_per_sector b
  pub word : max_cluster + 2 < 2 ^ 32
  pub copies : 1 ≤ b.num_fats
  pub inside : b.reserved_sector_count + b.num_fats * b.fat_size_32 ≤ count

within : (k n f : ℕ) → k < n → k * f + f ≤ n * f
within k n f h = grind arith

module _ {b : Bpb} {max_cluster size count : ℕ} (h : HasTables b max_cluster size count) where
  open h use {sector_fits, sector_entry, room, copies, inside}

  pub offset_fits : (c : ℕ) → 4 * offset_in b c + 4 ≤ size
  offset_fits c = omega (arith, mod-lt c {m = cluster_per_sector b} (omega arith))

  pub sector_lt : (c : ℕ) → c < max_cluster + 2 → c / cluster_per_sector b < b.fat_size_32
  sector_lt c less = (div-lt_iff_lt-mul {k = cluster_per_sector b} (omega arith)).1 (omega arith)

  pub copy_inside :
      (c k : ℕ) → c < max_cluster + 2 → k < b.num_fats → block_index b c + k * b.fat_size_32 < count
  copy_inside c k less kl = omega (arith, sector_lt c less, within k b.num_fats b.fat_size_32 kl)

  pub block_inside : (c : ℕ) → c < max_cluster + 2 → block_index b c < count
  block_inside c less = omega (arith, copy_inside c 0 less (omega arith))

  pub copy_ne :
      (c e k : ℕ)
      → c < max_cluster + 2
      → block_index b c ≢ block_index b e
      → block_index b c ≢ block_index b e + k * b.fat_size_32
  copy_ne c e zero hc n same = n (omega arith)
  copy_ne c e (suc k) hc n same =
      absurd (omega (arith, sector_lt c hc, within 0 (suc k) b.fat_size_32 (omega arith)))

-- Equal places are equal clusters.
pub place_inj :
    (b : Bpb) (c e : ℕ) → block_index b c ≡ block_index b e → offset_in b c ≡ offset_in b e → c ≡ e
place_inj b c e p q =
    let n = cluster_per_sector b in
    let quotients : c / n ≡ e / n = omega arith in
    sym (div-add-mod c n) ∙ ap₂ (λ x y. n * x + y) quotients q ∙ div-add-mod e n

module _ {S : Type 0} (d : BlockDevice S) (IsValid : S → Type 0) where
  -- Where an FSInfo is kept, its sector is a reserved one, as `mount` demands.
  pub record IsSound (f : Fat32 S) : Type 0 where
    pub valid : IsValid f.store
    pub tables : HasTables f.bpb f.max_cluster (d.block_size f.store) (d.block_count f.store)
    pub info_reserved :
        (i : FsInfo) → f.fs_info ≡ some i → f.bpb.fs_info < f.bpb.reserved_sector_count

  -- The number of a cluster that has an entry.
  abbrev pub IsEntry : Fat32 S → ℕ → Type 0
  IsEntry f cluster = cluster < f.max_cluster + 2
