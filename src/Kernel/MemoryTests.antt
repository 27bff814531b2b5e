-- ===== src/Kernel/MemoryTests.antt =====
-- The theorems on kernel/src/memory/physics.rs at concrete inputs.
use cos_rs.Base.{◌≡◌, refl, some, none, List, [], ◌∷◌, arith}
use cos_rs.Kernel.Physics.{Memory}
use cos_rs.Kernel.Frames.{
  FrameAllocator, MemoryRegion, alloc_frame, delloc_frame, alloc_fresh, find_frame, alloc_start,
}
use cos_rs.Kernel.Frames.Free.{IsFreeList, delloc_frame-IsFreeList, alloc_frames, alloc_frames-free}
use cos_rs.Kernel.Frames.Fresh.{IsFresh, alloc_frame-IsFresh}

abbrev empty : Memory
empty a = 0

abbrev started : FrameAllocator
started = record { first_alloc_address = some 0x400000; linked_free_address = none }

delloc_frame-IsFreeList_example :
    IsFreeList
      (delloc_frame 0x5000 empty started).0
      (delloc_frame 0x5000 empty started).1.linked_free_address
      (0x5000 ∷ [])
delloc_frame-IsFreeList_example =
    delloc_frame-IsFreeList empty started 0x5000 [] refl (omega arith) (omega arith)

abbrev regions : List MemoryRegion
regions =
    record { base_addr = 0; length = 0x9f000; region_type = 1 }
    ∷ record { base_addr = 0x100000; length = 0x7ee0000; region_type = 1 }
    ∷ []

alloc_frames-free_example :
    alloc_frames regions 1
      (delloc_frame 0x5000 empty started).0
      (delloc_frame 0x5000 empty started).1
    ≡ (record { first_alloc_address = some 0x400000; linked_free_address = none }, some 0x5000 ∷ [])
unfolding delloc_frame
alloc_frames-free_example =
    alloc_frames-free regions (delloc_frame 0x5000 empty started).0
      (delloc_frame 0x5000 empty started).1 (0x5000 ∷ []) delloc_frame-IsFreeList_example

alloc_started : (alloc_frame regions empty started).1 ≡ some 0x400000
unfolding alloc_frame alloc_fresh find_frame alloc_start
alloc_started = refl

alloc_frame-IsFresh_example :
    IsFresh 0x400000 regions 0x400000
    × ((alloc_frame regions empty started).0
        ≡ record started { first_alloc_address = some 0x401000 })
alloc_frame-IsFresh_example =
    alloc_frame-IsFresh regions empty started 0x400000 0x400000 refl refl (omega arith)
      (omega arith) (omega arith) alloc_started

abbrev odd_region : MemoryRegion
odd_region = record { base_addr = 0x500800; length = 0x10000; region_type = 1 }
