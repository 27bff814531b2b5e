-- ===== src/Boot/Tests.antt =====
-- Maps of the BIOS, and the theorems of bootloader/src/memory.rs at them.
use cos_rs.Base.{
  ℕ, ◌+◌, ◌^◌, ◌≤◌, ◌<◌, ◌≡◌, refl, true, false, some, List, [], ◌∷◌, length, leb, arith,
}
use cos_rs.Kernel.Frames.{MemoryRegion}
use cos_rs.Boot.{
  type_usable, type_reserved, resolve_from, remove_empty, merge_from, rounds,
  normalize_memory_region,
}
use cos_rs.Boot.Total.{total, hit, Sorted, SortsByBase}
use cos_rs.Boot.Rounds.{Apart}
use cos_rs.Boot.Merge.{Parted}
use cos_rs.Boot.Normal.{normalize_memory_region-Parted, normalize_memory_region-blocked}

unfoldable insert : MemoryRegion → List MemoryRegion → List MemoryRegion
insert r [] = r ∷ []
insert r (s ∷ rest) = elim (leb r.base_addr s.base_addr) [
  | true ↦ r ∷ s ∷ rest
  | false ↦ s ∷ insert r rest
]

unfoldable insertion_sort : List MemoryRegion → List MemoryRegion
insertion_sort [] = []
insertion_sort (r ∷ rest) = insert r (insertion_sort rest)

total-insert :
    (weight : MemoryRegion → ℕ) (r : MemoryRegion) (l : List MemoryRegion)
    → total weight (insert r l) ≡ weight r + total weight l
unfolding insert
total-insert weight r [] = refl
total-insert weight r (s ∷ rest) = let more = total-insert weight r rest in ground arith

total-insertion_sort :
    (weight : MemoryRegion → ℕ) (l : List MemoryRegion)
    → total weight (insertion_sort l) ≡ total weight l
unfolding insertion_sort
total-insertion_sort weight [] = refl
total-insertion_sort weight (r ∷ rest) =
    omega (arith, total-insert weight r (insertion_sort rest), total-insertion_sort weight rest)

Sorted-insert :
    (low : ℕ) (r : MemoryRegion) (l : List MemoryRegion)
    → low ≤ r.base_addr
    → Sorted low l
    → Sorted low (insert r l)
unfolding insert
Sorted-insert low r [] h s = (h, tt)
Sorted-insert low r (t ∷ rest) h s =
    let more = Sorted-insert t.base_addr r rest in
    let first = s.0 in let next = s.1 in ground (arith, more)

Sorted-insertion_sort : (l : List MemoryRegion) → Sorted 0 (insertion_sort l)
unfolding insertion_sort
Sorted-insertion_sort [] = tt
Sorted-insertion_sort (r ∷ rest) =
    Sorted-insert 0 r (insertion_sort rest) (omega arith) (Sorted-insertion_sort rest)

insertion_sort-SortsByBase : SortsByBase insertion_sort
insertion_sort-SortsByBase = record {
  total_sort = total-insertion_sort;
  sorted_sort = Sorted-insertion_sort;
}

abbrev region : ℕ → ℕ → ℕ → MemoryRegion
region base_addr length region_type = record {
  base_addr = base_addr;
  length = length;
  region_type = region_type;
}

-- Out of order, with an unknown type, an overlap, and two that touch once the overlap is cut.
abbrev bios : List MemoryRegion
bios =
    region 0x1000 0x2000 1
    ∷ region 0 0x1800 3
    ∷ region 0x3000 0x1000 1
    ∷ region 0x8000 0x1000 2
    ∷ []

bios_normal :
    normalize_memory_region insertion_sort 9 bios
    ≡ some (region 0 0x1800 2 ∷ region 0x1800 0x2800 1 ∷ region 0x8000 0x1000 2 ∷ [])
unfolding normalize_memory_region rounds resolve_from remove_empty merge_from insertion_sort insert
bios_normal = refl

-- What a usable region has behind another usable one that it contains is lost.
nested_loses :
    normalize_memory_region insertion_sort 9 (region 0 0x5000 1 ∷ region 0x1000 0x1000 1 ∷ [])
    ≡ some (region 0 0x2000 1 ∷ [])
unfolding normalize_memory_region rounds resolve_from remove_empty merge_from insertion_sort insert
nested_loses = refl

normalize_memory_region-Parted_example :
    (out : List MemoryRegion) × (normalize_memory_region insertion_sort (2 ^ 67) bios ≡ some out)
    × Apart 0 out
    × Parted out
normalize_memory_region-Parted_example =
    normalize_memory_region-Parted insertion_sort insertion_sort-SortsByBase (2 ^ 67) bios
      (omega arith) refl

normalize_memory_region-blocked_example :
    (out : List MemoryRegion) × (normalize_memory_region insertion_sort (2 ^ 67) bios ≡ some out)
    × (0 < total (hit type_reserved 0x1400) out)
    × (total (hit type_usable 0x1400) out ≡ 0)
normalize_memory_region-blocked_example =
    normalize_memory_region-blocked insertion_sort insertion_sort-SortsByBase (2 ^ 67) bios 0x1400
      (omega arith) refl (omega arith)
