-- ===== src/Elf/Tests.antt =====
-- The theorems on library/elf and library/async_io at concrete inputs: a file in memory that reads at
-- most twenty bytes at a time, and a loader into a plain memory.
use cos_rs.Base.{ℕ, ◌+◌, ◌-◌, ◌≡◌, refl, min, List, [], ◌∷◌, ◌++◌, length, slice, replicate}
use cos_rs.Kernel.Physics.{Memory}
use cos_rs.Kernel.Physics.Access.{poke_all}
use cos_rs.Elf.Io.{done, Io, read_exact, read_rounds}
use cos_rs.Elf.File.{
  ElfProgram, ElfFile, from_io, read_table, read_programs, check_header, check_program,
}
use cos_rs.Elf.Header.{IsLoadable, from_io-IsLoadable}
use cos_rs.Elf.Load.{Loader}
use cos_rs.Elf.Load.Stores.{IsLoader}

abbrev File : Type 0
File = List ℕ × ℕ

abbrev count : ℕ → File → ℕ
count n s = min (min n 20) (length s.0 - s.1)

abbrev file_io : Io File ℕ
file_io = record {
  seek = λ n s. ((s.0, n), done tt);
  read = λ n s. ((s.0, s.1 + count n s), done (slice s.1 (count n s) s.0));
}

abbrev pub memory_loader : Loader Memory ℕ
memory_loader = record {
  alloc_static = λ a n r w x m. (m, done tt);
  write_to_memory = λ a bytes m. (poke_all a bytes m, done tt);
  clear_memory = λ a n m. (poke_all a (replicate n 0) m, done tt);
}

abbrev pub same_memory : Memory → Memory
same_memory m = m

abbrev pub Anywhere : ℕ → ℕ → Memory → Type 0
Anywhere a n m = Unit

pub memory-IsLoader : IsLoader memory_loader same_memory Anywhere
memory-IsLoader = record {
  write-ok = λ a bytes l h. refl;
  write-memory = λ a bytes l h. refl;
  write-mapped = λ a n b bytes l h. tt;
  clear-mapped = λ a n b m l h. tt;
  clear-ok = λ a n l h. refl;
  clear-memory = λ a n l h. refl;
  part = λ a n b m l h p q. tt;
}

abbrev pub segment : ElfProgram
segment = record {
  program_type = 1;
  flag = 6;
  p_offset = 2;
  p_vaddr = 0x8000000000;
  p_filesz = 30;
  p_memsz = 50;
}

abbrev pub empty : Memory
empty a = 0

-- A header with one program header right behind it.
abbrev program_bytes : List ℕ
program_bytes =
    1 ∷ 0 ∷ 0 ∷ 0 ∷ 5 ∷ 0 ∷ 0 ∷ 0 ∷ replicate 8 0
    ++ replicate 8 0
    ++ replicate 8 0
    ++ (3 ∷ replicate 7 0)
    ++ (4 ∷ replicate 7 0)
    ++ (0 ∷ 16 ∷ replicate 6 0)

abbrev header_bytes : List ℕ
header_bytes =
    (0x7f ∷ 0x45 ∷ 0x4c ∷ 0x46 ∷ 2 ∷ 1 ∷ 1 ∷ replicate 9 0)
    ++ (2 ∷ 0 ∷ 0x3e ∷ 0 ∷ 1 ∷ 0 ∷ 0 ∷ 0 ∷ replicate 8 0)
    ++ (64 ∷ replicate 21 0)
    ++ (56 ∷ 0 ∷ 1 ∷ 0 ∷ replicate 6 0)

abbrev program_file : File
program_file = (header_bytes ++ program_bytes, 0)

abbrev parsed : ElfFile
parsed = record {
  header = record {
    bits = 2;
    endian = 1;
    abi = 0;
    elf_type = 2;
    instruction = 0x3e;
    entry_point = 0;
  };
  program =
      record { program_type = 1; flag = 5; p_offset = 0; p_vaddr = 0; p_filesz = 3; p_memsz = 4 }
      ∷ [];
}

from_io-parsed : (from_io file_io program_file).1 ≡ done parsed
unfolding from_io read_table read_programs check_header check_program read_exact read_rounds
from_io-parsed = refl

from_io-IsLoadable_example : IsLoadable parsed
from_io-IsLoadable_example = from_io-IsLoadable file_io program_file parsed from_io-parsed
