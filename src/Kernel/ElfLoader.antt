-- ===== src/Kernel/ElfLoader.antt =====
-- kernel/src/multitask/elf_loader.rs: the loader of executables into a process, with the page types of
-- kernel/src/multitask/process.rs and the options of kernel/src/memory/page.rs.
pub mod Pages
mod Tests
use cos_rs.Base.{
  ℕ, ◌+◌, ◌-◌, ◌%◌, ◌^◌, min, bit_and, Bool, true, false, not, ◌&&◌, ◌||◌, Option, none, some, List,
  [], ◌∷◌, ltb, leb, ◌==◌, if◌then◌else◌, length,
}
use cos_rs.Elf.Io.{Answer, done, fail}
use cos_rs.Elf.Load.{Loader}

pub record AllocateFrameOptions : Type 0 where
  pub user : Bool
  pub writable : Bool
  pub executable : Bool
  pub static_vaddr : Option ℕ

abbrev pub user_data : AllocateFrameOptions
user_data = record { user = true; writable = true; executable = false; static_vaddr = none }

abbrev pub user_code : AllocateFrameOptions
user_code = record { user = true; writable = false; executable = true; static_vaddr = none }

abbrev pub with_static_vaddr : AllocateFrameOptions → ℕ → AllocateFrameOptions
with_static_vaddr o vaddr = record o { static_vaddr = some vaddr }

pub data ProcessPageType : Type 0 where
  code stack process_data : ProcessPageType
  static_code static_data static_const : ℕ → ProcessPageType

-- The match of `create_process_page`.
unfoldable pub options_of : ProcessPageType → AllocateFrameOptions
options_of code = user_code
options_of stack = user_data
options_of process_data = user_data
options_of (static_code vaddr) = with_static_vaddr user_code vaddr
options_of (static_data vaddr) = with_static_vaddr user_data vaddr
options_of (static_const vaddr) = with_static_vaddr user_data vaddr

-- What the loader uses of the process and its page table: mapping frames, and writing bytes or one
-- repeated byte at a virtual address.
pub record ProcessMemory (P : Type 0) (M : Type 0) : Type 0 where
  pub alloc_mapped_frame : ℕ → AllocateFrameOptions → P → P × Option ℕ
  pub write_page_table_memory : ℕ → List ℕ → P → P × Answer M (Unit {0})
  pub write_page_table_memory_bytes : ℕ → ℕ → ℕ → P → P × Answer M (Unit {0})

pub record ElfLoader (P : Type 0) : Type 0 where
  pub process : P
  pub allocated_page : List (ℕ × ℕ)

pub data ElfLoaderError (M : Type 0) : Type 0 where
  page_reserved page_protection alloc_fail : ElfLoaderError M
  process_memory_error : M → ElfLoaderError M

abbrev pub user_start : ℕ
user_start = 0x8000000000

abbrev pub user_end : ℕ
user_end = 0xffffff8000000000

-- `u64::saturating_add`.
abbrev pub saturating_add : ℕ → ℕ → ℕ
saturating_add a b = min (a + b) (2 ^ 64 - 1)

-- The test that the three operations protect the kernel by.
abbrev pub is_reserved : ℕ → ℕ → Bool
is_reserved addr len = ltb addr user_start || leb user_end (saturating_add addr len)

abbrev pub page_down : ℕ → ℕ
page_down n = bit_and n 0xfffffffffffff000

abbrev pub is_allocated : ℕ → List (ℕ × ℕ) → Bool
is_allocated addr [] = false
is_allocated addr (p ∷ pages) = (leb p.0 addr && ltb addr (p.0 + p.1)) || is_allocated addr pages

abbrev pub page_type_of : Bool → Bool → ℕ → ProcessPageType
page_type_of writable executable vaddr =
    if writable
    then static_data vaddr
    else if executable
    then static_code vaddr
    else static_const vaddr

abbrev pub lift : {M : Type 0} → Answer M (Unit {0}) → Answer (ElfLoaderError M) (Unit {0})
lift (done u) = done u
lift (fail e) = fail (process_memory_error e)

module _ {P : Type 0} {M : Type 0} (memory : ProcessMemory P M) where
  unfoldable pub create_process_page : ℕ → ProcessPageType → P → P × Option ℕ
  create_process_page size page_type p = memory.alloc_mapped_frame size (options_of page_type) p

  -- `alloc_static` behind the choice of the range.
  unfoldable pub map_pages :
      ℕ → ℕ → Bool → Bool → ElfLoader P → ElfLoader P × Answer (ElfLoaderError M) (Unit {0})
  map_pages addr size writable executable l =
      let whole = page_down (size + 0xfff) in
      let r = create_process_page whole (page_type_of writable executable addr) l.process in
      if size == 0 then (l, done tt) else elim r.1 [
        | none ↦ (record l { process = r.0 }, fail alloc_fail)
        | some a ↦
            (record { process = r.0; allocated_page = (addr, whole) ∷ l.allocated_page }, done tt)
      ]

  unfoldable pub alloc_static :
      ℕ → ℕ → Bool → Bool → Bool → ElfLoader P → ElfLoader P × Answer (ElfLoaderError M) (Unit {0})
  alloc_static addr size readable writable executable l =
      let start = page_down addr in
      let total = (size + addr) % 2 ^ 64 - start in
      if not readable
      then (l, fail page_protection)
      else if writable && executable
      then (l, fail page_protection)
      else if is_reserved addr size
      then (l, fail page_reserved)
      else if is_allocated start l.allocated_page
      then map_pages ((start + 0x1000) % 2 ^ 64) (total - 0x1000) writable executable l
      else map_pages start total writable executable l

  unfoldable pub clear_memory :
      ℕ → ℕ → ElfLoader P → ElfLoader P × Answer (ElfLoaderError M) (Unit {0})
  clear_memory addr len l =
      let r = memory.write_page_table_memory_bytes addr 0 len l.process in
      if is_reserved addr len
      then (l, fail page_reserved)
      else (record l { process = r.0 }, lift r.1)

  unfoldable pub write_to_memory :
      ℕ → List ℕ → ElfLoader P → ElfLoader P × Answer (ElfLoaderError M) (Unit {0})
  write_to_memory addr bytes l =
      let r = memory.write_page_table_memory addr bytes l.process in
      if is_reserved addr (length bytes)
      then (l, fail page_reserved)
      else (record l { process = r.0 }, lift r.1)

  abbrev pub elf_loader : Loader (ElfLoader P) (ElfLoaderError M)
  elf_loader = record {
    alloc_static = alloc_static;
    write_to_memory = write_to_memory;
    clear_memory = clear_memory;
  }
