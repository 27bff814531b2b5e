-- ===== src/Boot.antt =====
-- bootloader/src/memory.rs: the memory regions of the BIOS are sorted, cut and merged before the
-- kernel gets them. The region is the kernel's, which has the same fields.
--
-- `sort_unstable_by_key` is an argument: it may order regions of one base address in any way.
pub mod Total
pub mod Cut
pub mod Rounds
pub mod Loop
pub mod Merge
pub mod Normal
mod Tests
use cos_rs.Base.{
  ℕ, zero, suc, ◌+◌, ◌-◌, ◌%◌, ◌^◌, Bool, true, false, not, ◌&&◌, Option, none, some, List, [], ◌∷◌,
  map, length, leb, ltb, ◌==◌, if◌then◌else◌,
}
use cos_rs.Kernel.Frames.{MemoryRegion}

abbrev pub type_usable : ℕ
type_usable = 1

abbrev pub type_reserved : ℕ
type_reserved = 2

-- `base_addr + length` on 64 bits.
abbrev pub end_addr : MemoryRegion → ℕ
end_addr r = (r.base_addr + r.length) % 2 ^ 64

-- Step 2 for one region.
abbrev pub restrict : MemoryRegion → MemoryRegion
restrict r = if r.region_type == type_usable then r else record r { region_type = type_reserved }

-- The current region behind a reserved one, and a usable region before the current one.
-- Subtraction stops at 0, like `saturating_sub`; the difference `overlap` is positive where it is used.
abbrev pub cut_current : MemoryRegion → MemoryRegion → MemoryRegion
cut_current prev cur =
    let overlap = end_addr prev - cur.base_addr in
    record cur { base_addr = (cur.base_addr + overlap) % 2 ^ 64; length = cur.length - overlap }

abbrev pub cut_previous : MemoryRegion → MemoryRegion → MemoryRegion
cut_previous prev cur = record prev { length = prev.length - (end_addr prev - cur.base_addr) }

-- Step 3 from a region on: the regions, and `change_base_addr`.
unfoldable pub resolve_from : MemoryRegion → List MemoryRegion → List MemoryRegion × Bool
resolve_from prev [] = (prev ∷ [], false)
resolve_from prev (cur ∷ rest) = elim (leb (end_addr prev) cur.base_addr) [
  | true ↦ let r = resolve_from cur rest in (prev ∷ r.0, r.1)
  | false ↦ elim (prev.region_type == type_reserved) [
    | true ↦ let r = resolve_from (cut_current prev cur) rest in (prev ∷ r.0, true)
    | false ↦ let r = resolve_from cur rest in (cut_previous prev cur ∷ r.0, r.1)
  ]
]

abbrev pub resolve : List MemoryRegion → List MemoryRegion × Bool
resolve [] = ([], false)
resolve (r ∷ rest) = resolve_from r rest

-- Step 4.
unfoldable pub remove_empty : List MemoryRegion → List MemoryRegion
remove_empty [] = []
remove_empty (r ∷ rest) = if ltb 0 r.length then r ∷ remove_empty rest else remove_empty rest

-- Step 5 from a region on.
unfoldable pub merge_from : MemoryRegion → List MemoryRegion → List MemoryRegion
merge_from prev [] = prev ∷ []
merge_from prev (cur ∷ rest) =
    elim ((prev.region_type == cur.region_type) && (end_addr prev == cur.base_addr)) [
      | true ↦ merge_from (record prev { length = (prev.length + cur.length) % 2 ^ 64 }) rest
      | false ↦ prev ∷ merge_from cur rest
    ]

abbrev pub merge : List MemoryRegion → List MemoryRegion
merge [] = []
merge (r ∷ rest) = merge_from r rest

module _ (sort_unstable_by_key : List MemoryRegion → List MemoryRegion) where
  -- The loop over steps 3 and 4, on fuel.
  unfoldable pub rounds : ℕ → List MemoryRegion → Option (List MemoryRegion)
  rounds zero l = none
  rounds (suc fuel) l = elim (resolve l).1 [
    | true ↦ rounds fuel (sort_unstable_by_key (resolve l).0)
    | false ↦ elim (length (remove_empty (resolve l).0) == length (resolve l).0) [
      | true ↦ some (resolve l).0
      | false ↦ rounds fuel (remove_empty (resolve l).0)
    ]
  ]

  abbrev pub merged : Option (List MemoryRegion) → Option (List MemoryRegion)
  merged (some l) = some (merge l)
  merged none = none

  unfoldable pub normalize_memory_region : ℕ → List MemoryRegion → Option (List MemoryRegion)
  normalize_memory_region fuel l = merged (rounds fuel (map restrict (sort_unstable_by_key l)))
