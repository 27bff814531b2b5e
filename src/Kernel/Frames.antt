-- ===== src/Kernel/Frames.antt =====
-- The frame allocator of kernel/src/memory/physics.rs. The free list lies in the freed frames: the
-- first eight bytes of each hold the address of the next one, or 0.
pub mod Free
pub mod Fresh
pub mod Regions
use cos_rs.Base.{
  ℕ, zero, suc, ◌+◌, ◌*◌, ◌/◌, ◌%◌, ◌^◌, max, bit_and, Bool, Option, none, some, List, [], ◌∷◌, ltb,
  leb, ◌==◌, if◌then◌else◌, non_zero, get_or,
}
use cos_rs.Kernel.Physics.{Memory, read_memory, write_memory}

-- `MemoryRegion` of kernel/src/bootloader.rs.
pub record MemoryRegion : Type 0 where
  pub base_addr : ℕ
  pub length : ℕ
  pub region_type : ℕ

pub record FrameAllocator : Type 0 where
  pub first_alloc_address : Option ℕ
  pub linked_free_address : Option ℕ

abbrev pub const_new : FrameAllocator
const_new = record { first_alloc_address = none; linked_free_address = none }

-- The argument is what `get_kernel_used_memory` returns.
unfoldable pub init : ℕ → FrameAllocator → FrameAllocator
init used a = record a { first_alloc_address = non_zero ((used + 0x200000) % 2 ^ 64) }

-- An `Option<NonZeroUsize>` in memory.
abbrev pub link_value : Option ℕ → ℕ
link_value none = 0
link_value (some n) = n

abbrev pub link_byte : ℕ → ℕ → ℕ
link_byte n k = n / 2 ^ (8 * k) % 2 ^ 8

unfoldable pub link_bytes : Option ℕ → List ℕ
link_bytes o =
    let n = link_value o in
    link_byte n 0
    ∷ link_byte n 1
    ∷ link_byte n 2
    ∷ link_byte n 3
    ∷ link_byte n 4
    ∷ link_byte n 5
    ∷ link_byte n 6
    ∷ link_byte n 7
    ∷ []

unfoldable pub link_of : List ℕ → Option ℕ
link_of bytes = non_zero (
    get_or bytes 0 0
    + 2 ^ 8 * get_or bytes 1 0
    + 2 ^ 16 * get_or bytes 2 0
    + 2 ^ 24 * get_or bytes 3 0
    + 2 ^ 32 * get_or bytes 4 0
    + 2 ^ 40 * get_or bytes 5 0
    + 2 ^ 48 * get_or bytes 6 0
    + 2 ^ 56 * get_or bytes 7 0)

abbrev pub region_end : MemoryRegion → ℕ
region_end r = (r.base_addr + r.length) % 2 ^ 64

-- Where `alloc_frame` looks for a frame in a region.
unfoldable pub alloc_start : ℕ → MemoryRegion → ℕ
alloc_start first r =
    let start = max r.base_addr first in
    if bit_and start 0xfff == 0 then start else (bit_and start 0x1000 + 0x1000) % 2 ^ 64

-- The loop of `alloc_frame` over the regions: the start of the frame.
unfoldable pub find_frame : ℕ → List MemoryRegion → Option ℕ
find_frame first [] = none
find_frame first (r ∷ regions) =
    let rest = find_frame first regions in
    if leb (region_end r) first
    then rest
    else if ltb (region_end r) ((alloc_start first r + 0x1000) % 2 ^ 64)
    then rest
    else some (alloc_start first r)

abbrev pub exhausted : FrameAllocator → FrameAllocator × Option ℕ
exhausted a = (record a { first_alloc_address = none }, none)

-- The part of `alloc_frame` behind the free list.
unfoldable pub alloc_fresh : List MemoryRegion → FrameAllocator → FrameAllocator × Option ℕ
alloc_fresh regions a = elim a.first_alloc_address [
  | none ↦ exhausted a
  | some first ↦ elim (find_frame first regions) [
    | none ↦ exhausted a
    | some start ↦
        (record a { first_alloc_address = non_zero ((start + 0x1000) % 2 ^ 64) }, non_zero start)
  ]
]

unfoldable pub alloc_frame : List MemoryRegion → Memory → FrameAllocator → FrameAllocator × Option ℕ
alloc_frame regions mem a = elim a.linked_free_address [
  | none ↦ alloc_fresh regions a
  | some address ↦
      (record a { linked_free_address = link_of (read_memory address 8 mem) }, some address)
]

unfoldable pub delloc_frame : ℕ → Memory → FrameAllocator → Memory × FrameAllocator
delloc_frame address mem a = (
  write_memory address (link_bytes a.linked_free_address) mem,
  record a { linked_free_address = some address },
)
