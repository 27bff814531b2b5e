-- ===== src/Boot/Total.antt =====
-- Sums over the memory regions of bootloader/src/memory.rs, which no order of the regions changes.
use cos_rs.Base.{ℕ, ◌+◌, ◌-◌, ◌^◌, ◌≤◌, ◌≡◌, ◌&&◌, List, [], ◌∷◌, leb, ltb, ◌==◌, if◌then◌else◌}
use cos_rs.Kernel.Frames.{MemoryRegion}

abbrev pub total : (MemoryRegion → ℕ) → List MemoryRegion → ℕ
total weight [] = 0
total weight (r ∷ rest) = weight r + total weight rest

-- 1 for a region of a type that holds the address.
abbrev pub hit : ℕ → ℕ → MemoryRegion → ℕ
hit type a r =
    if (r.region_type == type) && (leb r.base_addr a && ltb a (r.base_addr + r.length))
    then 1
    else 0

-- 1 for a region that does not end below 2^64.
abbrev pub beyond : MemoryRegion → ℕ
beyond r = if ltb (r.base_addr + r.length) (2 ^ 64) then 0 else 1

-- How far the base address can still rise.
abbrev pub room : MemoryRegion → ℕ
room r = 2 ^ 64 - r.base_addr

-- The base addresses do not fall, from a bound on.
abbrev pub Sorted : ℕ → List MemoryRegion → Type 0
Sorted low [] = Unit {0}
Sorted low (r ∷ rest) = (low ≤ r.base_addr) × Sorted r.base_addr rest

-- What a sort by base address does: it keeps every sum, as it only moves regions, and orders them.
pub record SortsByBase (sort : List MemoryRegion → List MemoryRegion) : Type 0 where
  pub total_sort :
      (weight : MemoryRegion → ℕ) (l : List MemoryRegion) → total weight (sort l) ≡ total weight l
  pub sorted_sort : (l : List MemoryRegion) → Sorted 0 (sort l)
