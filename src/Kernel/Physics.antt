-- ===== src/Kernel/Physics.antt =====
-- kernel/src/memory/physics.rs: access to physical memory through a temporary page, with
-- `insert_temp_page_table` of kernel/src/memory/page.rs. Memory maps an address to its byte. The page
-- entry is kept as the frame that it maps, without its flags.
pub mod Access
use cos_rs.Base.{
  ℕ, zero, suc, ◌+◌, ◌-◌, ◌%◌, bit_and, Bool, List, [], ◌∷◌, ◌++◌, ltb, ◌==◌, if◌then◌else◌, min,
  length, take, drop, replicate,
}

abbrev pub Memory : Type 0
Memory = ℕ → ℕ

pub record Window : Type 0 where
  pub frame : ℕ
  pub start : ℕ
  pub size : ℕ

unfoldable pub insert_temp_page_table : ℕ → Window
insert_temp_page_table address =
    let aligned = bit_and address 0xfffffffffffff000 in
    record {
      frame = aligned;
      start = address - aligned + 0x3000;
      size = aligned + 0x1000 - address;
    }

-- The physical address of a virtual address in the temporary page.
abbrev pub translate : Window → ℕ → ℕ
translate w virtual = w.frame + (virtual - 0x3000)

abbrev pub poke : ℕ → ℕ → Memory → Memory
poke address byte mem = λ a. if a == address then byte else mem a

-- `ptr::copy_nonoverlapping` from and to the window, from a virtual address.
unfoldable pub load : Memory → Window → ℕ → ℕ → List ℕ
load mem w virtual zero = []
load mem w virtual (suc n) = mem (translate w virtual) ∷ load mem w (virtual + 1) n

unfoldable pub store : Window → ℕ → List ℕ → Memory → Memory
store w virtual [] mem = mem
store w virtual (byte ∷ bytes) mem =
    store w (virtual + 1) bytes (poke (translate w virtual) byte mem)

-- The loop of `read_memory`; it makes at most as many rounds as there are bytes.
unfoldable pub read_rounds : ℕ → Memory → ℕ → ℕ → List ℕ
read_rounds zero mem src_start src_end = []
read_rounds (suc fuel) mem src_start src_end =
    let w = insert_temp_page_table src_start in
    let len = min w.size (src_end - src_start) in
    let rest = read_rounds fuel mem (src_start + len) src_end in
    if ltb src_start src_end then load mem w w.start len ++ rest else []

unfoldable pub read_memory : ℕ → ℕ → Memory → List ℕ
read_memory address size mem = read_rounds size mem address (address + size)

-- The loop of `write_memory`; `src` is what is still to be copied.
unfoldable pub write_rounds : ℕ → ℕ → ℕ → List ℕ → Memory → Memory
write_rounds zero dst_start dst_end src mem = mem
write_rounds (suc fuel) dst_start dst_end src mem =
    let w = insert_temp_page_table dst_start in
    let len = min w.size (dst_end - dst_start) in
    let rest =
      write_rounds fuel (dst_start + len) dst_end (drop len src)
        (store w w.start (take len src) mem) in
    if ltb dst_start dst_end then rest else mem

unfoldable pub write_memory : ℕ → List ℕ → Memory → Memory
write_memory address src mem = write_rounds (length src) address (address + length src) src mem

unfoldable pub zero_rounds : ℕ → ℕ → ℕ → Memory → Memory
zero_rounds zero dst_start dst_end mem = mem
zero_rounds (suc fuel) dst_start dst_end mem =
    let w = insert_temp_page_table dst_start in
    let len = min w.size (dst_end - dst_start) in
    let rest = zero_rounds fuel (dst_start + len) dst_end (store w w.start (replicate len 0) mem) in
    if ltb dst_start dst_end then rest else mem

unfoldable pub zero_memory : ℕ → ℕ → Memory → Memory
zero_memory address size mem = zero_rounds size address (address + size) mem
