-- ===== src/Elf/File.antt =====
-- library/elf/src/lib.rs: the headers of an executable, and `from_io`.
use cos_rs.Base.{
  ℕ, zero, suc, ◌+◌, ◌*◌, ◌^◌, List, [], ◌∷◌, Bool, not, ◌&&◌, ltb, ◌==◌, if◌then◌else◌, get_or,
}
use cos_rs.Elf.Io.{Answer, done, fail, ReadExactError, Io, read_exact}

pub record ElfHeader : Type 0 where
  pub bits : ℕ
  pub endian : ℕ
  pub abi : ℕ
  pub elf_type : ℕ
  pub instruction : ℕ
  pub entry_point : ℕ

pub record ElfProgram : Type 0 where
  pub program_type : ℕ
  pub flag : ℕ
  pub p_offset : ℕ
  pub p_vaddr : ℕ
  pub p_filesz : ℕ
  pub p_memsz : ℕ

pub data ElfReadError (E : Type 0) : Type 0 where
  read : ReadExactError E → ElfReadError E
  seek : E → ElfReadError E
  format unsupport : ElfReadError E

-- `ElfFile` without its reader.
pub record ElfFile : Type 0 where
  pub header : ElfHeader
  pub program : List ElfProgram

-- What `from_io` keeps of the first 64 bytes.
pub record Start : Type 0 where
  pub header : ElfHeader
  pub program_offset : ℕ
  pub program_entry_count : ℕ

-- `from_le_bytes` of the `k` bytes from an offset.
abbrev pub le_at : ℕ → ℕ → List ℕ → ℕ
le_at zero o bytes = 0
le_at (suc k) o bytes = get_or bytes o 0 + 2 ^ 8 * le_at k (o + 1) bytes

abbrev pub has_magic : List ℕ → Bool
has_magic b =
    get_or b 0 0 == 0x7f && get_or b 1 0 == 0x45 && get_or b 2 0 == 0x4c && get_or b 3 0 == 0x46

abbrev pub start_of : List ℕ → Start
start_of b = record {
  header = record {
    bits = get_or b 4 0;
    endian = get_or b 5 0;
    abi = get_or b 7 0;
    elf_type = le_at 2 16 b;
    instruction = le_at 2 18 b;
    entry_point = le_at 8 24 b;
  };
  program_offset = le_at 8 32 b;
  program_entry_count = le_at 2 56 b;
}

-- The checks of `from_io` on the first 64 bytes, in their order.
unfoldable pub check_header : {E : Type 0} → List ℕ → Answer (ElfReadError E) Start
check_header b =
    let bits = get_or b 4 0 in
    let endian = get_or b 5 0 in
    if not (has_magic b)
    then fail format
    else if not (bits == 2)
    then (if bits == 1 then fail unsupport else fail format)
    else if not (endian == 1)
    then (if endian == 2 then fail unsupport else fail format)
    else if not (get_or b 6 0 == 1)
    then fail unsupport
    else if not (get_or b 7 0 == 0)
    then fail unsupport
    else if not (le_at 2 16 b == 2)
    then fail unsupport
    else if not (le_at 2 18 b == 0x3e)
    then fail unsupport
    else if not (le_at 4 20 b == 1)
    then fail unsupport
    else if not (le_at 2 54 b == 56)
    then fail unsupport
    else done (start_of b)

abbrev pub program_of : List ℕ → ElfProgram
program_of b = record {
  program_type = le_at 4 0 b;
  flag = le_at 4 4 b;
  p_offset = le_at 8 8 b;
  p_vaddr = le_at 8 16 b;
  p_filesz = le_at 8 32 b;
  p_memsz = le_at 8 40 b;
}

-- The checks of a program header.
unfoldable pub check_program : {E : Type 0} → List ℕ → Answer (ElfReadError E) ElfProgram
check_program b =
    if ltb (le_at 8 40 b) (le_at 8 32 b)
    then fail format
    else if ltb 0x1000 (le_at 8 48 b)
    then fail unsupport
    else done (program_of b)

abbrev pub push :
    {E : Type 0}
    → ElfProgram
    → Answer (ElfReadError E) (List ElfProgram)
    → Answer (ElfReadError E) (List ElfProgram)
push p (done ps) = done (p ∷ ps)
push p (fail e) = fail e

abbrev pub with_header :
    {E : Type 0}
    → ElfHeader
    → Answer (ElfReadError E) (List ElfProgram)
    → Answer (ElfReadError E) ElfFile
with_header h (done ps) = done (record { header = h; program = ps })
with_header h (fail e) = fail e

module _ {S : Type 0} {E : Type 0} (io : Io S E) where
  unfoldable pub read_programs : ℕ → S → S × Answer (ElfReadError E) (List ElfProgram)
  read_programs zero s = (s, done [])
  read_programs (suc n) s =
      let r = read_exact io 56 s in
      let rest = read_programs n r.0 in
      elim r.1 [
        | fail e ↦ (r.0, fail (read e))
        | done b ↦ elim (check_program b) [
          | fail e ↦ (r.0, fail e)
          | done p ↦ (rest.0, push p rest.1)
        ]
      ]

  -- `from_io` behind the first 64 bytes.
  unfoldable pub read_table : Start → S → S × Answer (ElfReadError E) ElfFile
  read_table h s =
      let r = io.seek h.program_offset s in
      elim r.1 [
        | fail e ↦ (r.0, fail (seek e))
        | done u ↦
            let ps = read_programs h.program_entry_count r.0 in (ps.0, with_header h.header ps.1)
      ]

  unfoldable pub from_io : S → S × Answer (ElfReadError E) ElfFile
  from_io s =
      let r = io.seek 0 s in
      elim r.1 [
        | fail e ↦ (r.0, fail (seek e))
        | done u ↦
            let b = read_exact io 64 r.0 in
            elim b.1 [
              | fail e ↦ (b.0, fail (read e))
              | done bytes ↦ elim (check_header bytes) [
                | fail e ↦ (b.0, fail e)
                | done h ↦ read_table h b.0
              ]
            ]
      ]
