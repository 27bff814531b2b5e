-- ===== src/Kernel/ElfLoader/Tests.antt =====
-- The theorems on kernel/src/multitask/elf_loader.rs with a process that grants every request.
use cos_rs.Base.{ℕ, ◌+◌, ◌<◌, ◌≤◌, ◌≡◌, refl, true, false, ◌&&◌, some, List, [], ◌∷◌, All, arith}
use cos_rs.Elf.Io.{done}
use cos_rs.Kernel.ElfLoader.{
  ElfLoader, ProcessMemory, alloc_static, is_allocated, user_start, user_end, map_pages,
  create_process_page, AllocateFrameOptions,
}
use cos_rs.Kernel.ElfLoader.Pages.{IsPaged, alloc_static-covers}

-- The process is the list of the mappings that it was asked for.
abbrev Mappings : Type 0
Mappings = List (ℕ × AllocateFrameOptions)

abbrev generous : ProcessMemory Mappings ℕ
generous = record {
  alloc_mapped_frame = λ size o p. ((size, o) ∷ p, some 1);
  write_page_table_memory = λ a bytes p. (p, done tt);
  write_page_table_memory_bytes = λ a byte n p. (p, done tt);
}

abbrev fresh : ElfLoader Mappings
fresh = record { process = []; allocated_page = [] }

alloc_static-done : (alloc_static generous 0x8000000800 0x1000 true true false fresh).1 ≡ done tt
unfolding alloc_static map_pages create_process_page
alloc_static-done = refl

alloc_static-covers_example :
    (true ≡ true)
    × ((true && false) ≡ false)
    × (user_start ≤ 0x8000000800)
    × (0x8000000800 + 0x1000 < user_end)
    × (is_allocated 0x8000001000
          (alloc_static generous 0x8000000800 0x1000 true true false fresh).0.allocated_page
        ≡ true)
    × All IsPaged (alloc_static generous 0x8000000800 0x1000 true true false fresh).0.allocated_page
alloc_static-covers_example =
    alloc_static-covers generous fresh 0x8000000800 0x1000 0x8000001000 true true false tt
      alloc_static-done (omega arith) (omega arith)
