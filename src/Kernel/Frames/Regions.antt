-- ===== src/Kernel/Frames/Regions.antt =====
-- What kernel/src/memory/physics.rs makes of the bounds and the types of the memory regions.
use cos_rs.Base.{
  ℕ, ◌+◌, ◌%◌, ◌^◌, ◌<◌, ◌≤◌, ◌≡◌, ◌≢◌, refl, ap, max, bit_and, bit_and_page, bit_and_le, false,
  inl, inr, Option-cases, some, List, [], ◌∷◌, map, ◌==◌, arith,
}
use cos_rs.Kernel.Physics.{Memory}
use cos_rs.Kernel.Frames.{
  FrameAllocator, MemoryRegion, alloc_start, find_frame, alloc_fresh, alloc_frame,
}

alloc_start-unaligned :
    (first : ℕ) (r : MemoryRegion)
    → first ≤ r.base_addr
    → r.base_addr % 0x1000 ≢ 0
    → (alloc_start first r ≤ 0x2000) × (0x1000 ≤ alloc_start first r)
unfolding alloc_start
alloc_start-unaligned first r h u =
    let start = max r.base_addr first in
    let e : start ≡ r.base_addr = omega arith in
    let n : bit_and start 0xfff ≢ 0 =
      omega (arith, bit_and_page start, ap (λ (x : ℕ). x % 0x1000) e) in
    let b = bit_and_le start 0x1000 in
    let t : (bit_and start 0xfff == 0) ≡ false = ground arith in rw t (omega arith, omega arith)

find_frame-unaligned :
    (first : ℕ) (r : MemoryRegion) (regions : List MemoryRegion)
    → first ≤ r.base_addr
    → r.base_addr % 0x1000 ≢ 0
    → 0x3000 ≤ r.base_addr
    → r.base_addr < r.base_addr + r.length
    → r.base_addr + r.length < 2 ^ 64
    → find_frame first (r ∷ regions) ≡ some (alloc_start first r)
unfolding find_frame
find_frame-unaligned first r regions h u low some_length fits =
    let b = alloc_start-unaligned first r h u in ground arith

-- Regions that are all marked with one type.
abbrev pub mark : ℕ → MemoryRegion → MemoryRegion
mark t r = record r { region_type = t }

abbrev pub marked : ℕ → List MemoryRegion → List MemoryRegion
marked t regions = map (mark t) regions

find_frame-marked :
    (first t : ℕ) (regions : List MemoryRegion)
    → find_frame first (marked t regions) ≡ find_frame first regions
unfolding find_frame alloc_start
find_frame-marked first t [] = refl
find_frame-marked first t (r ∷ regions) = rw (find_frame-marked first t regions) refl

alloc_fresh-marked :
    (regions : List MemoryRegion) (t : ℕ) (a : FrameAllocator)
    → alloc_fresh (marked t regions) a ≡ alloc_fresh regions a
unfolding alloc_fresh
alloc_fresh-marked regions t a = elim (Option-cases a.first_alloc_address) [
  | inl e ↦ rw (e, alloc_fresh) refl
  | inr (first, e) ↦ rw (e, alloc_fresh) (rw (find_frame-marked first t regions) refl)
]

-- The result of alloc_frame does not depend on the types of the regions.
alloc_frame-marked :
    (regions : List MemoryRegion) (t : ℕ) (mem : Memory) (a : FrameAllocator)
    → alloc_frame (marked t regions) mem a ≡ alloc_frame regions mem a
unfolding alloc_frame
alloc_frame-marked regions t mem a = elim (Option-cases a.linked_free_address) [
  | inl e ↦ rw (e, alloc_frame) (alloc_fresh-marked regions t a)
  | inr (f, e) ↦ rw (e, alloc_frame) refl
]
