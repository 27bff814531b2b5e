-- ===== src/Elf/Load.antt =====
-- library/elf/src/lib.rs: `Loader`, and `load`.
pub mod Stores
pub mod Segment
use cos_rs.Base.{
  ℕ, zero, suc, ◌+◌, ◌-◌, ◌%◌, ◌^◌, min, bit_and, Bool, true, false, not, List, [], ◌∷◌, length,
  ltb, ◌==◌, if◌then◌else◌,
}
use cos_rs.Elf.Io.{Answer, done, fail, ReadExactError, Io, read_exact}
use cos_rs.Elf.File.{ElfProgram}

pub data ElfLoadError (E : Type 0) (X : Type 0) : Type 0 where
  read : ReadExactError E → ElfLoadError E X
  seek : E → ElfLoadError E X
  load : X → ElfLoadError E X

-- The trait `Loader`; `alloc_static` takes whether the pages are readable, writable, executable.
pub record Loader (L : Type 0) (X : Type 0) : Type 0 where
  pub alloc_static : ℕ → ℕ → Bool → Bool → Bool → L → L × Answer X (Unit {0})
  pub write_to_memory : ℕ → List ℕ → L → L × Answer X (Unit {0})
  pub clear_memory : ℕ → ℕ → L → L × Answer X (Unit {0})

-- The length of the buffer of `load`.
abbrev pub buffer_size : ℕ
buffer_size = 512

-- The type of a segment that is loaded.
abbrev pub type_load : ℕ
type_load = 1

abbrev pub map_load : {E X : Type 0} → Answer X (Unit {0}) → Answer (ElfLoadError E X) (Unit {0})
map_load (done u) = done u
map_load (fail e) = fail (load e)

-- The call of `alloc_static` for a segment.
abbrev pub alloc_segment : {L X : Type 0} → Loader L X → ElfProgram → L → L × Answer X (Unit {0})
alloc_segment loader p l =
    let readable = not (bit_and p.flag 4 == 0) in
    let writable = not (bit_and p.flag 2 == 0) in
    let executable = not (bit_and p.flag 1 == 0) in
    loader.alloc_static p.p_vaddr p.p_memsz readable writable executable l

module _ {S : Type 0} {E : Type 0} {L : Type 0} {X : Type 0} (io : Io S E)
    (loader : Loader L X) where
  -- The loop of `load` over the bytes of a segment; a round for each byte is enough.
  unfoldable pub copy_rounds : ℕ → ℕ → ℕ → S → L → S × L × Answer (ElfLoadError E X) (Unit {0})
  copy_rounds zero addr remain s l = (s, l, done tt)
  copy_rounds (suc fuel) addr remain s l =
      let step = min buffer_size remain in
      elim (remain == 0) [
        | true ↦ (s, l, done tt)
        | false ↦
            let r = read_exact io step s in
            elim r.1 [
              | fail e ↦ (r.0, l, fail (read e))
              | done bytes ↦
                  let w = loader.write_to_memory addr bytes l in
                  elim w.1 [
                    | fail e ↦ (r.0, w.0, fail (load e))
                    | done u ↦ copy_rounds fuel ((addr + step) % 2 ^ 64) (remain - step) r.0 w.0
                  ]
            ]
      ]

  -- What `load` clears behind the bytes of a segment.
  unfoldable pub clear_rest : ElfProgram → S → L → S × L × Answer (ElfLoadError E X) (Unit {0})
  clear_rest p s l =
      let c = loader.clear_memory ((p.p_vaddr + p.p_filesz) % 2 ^ 64) (p.p_memsz - p.p_filesz) l in
      if ltb p.p_filesz p.p_memsz then (s, c.0, map_load c.1) else (s, l, done tt)

  -- A round of `load` for a segment of the type `type_load`.
  unfoldable pub load_segment : ElfProgram → S → L → S × L × Answer (ElfLoadError E X) (Unit {0})
  load_segment p s l =
      let a = alloc_segment loader p l in
      elim a.1 [
        | fail e ↦ (s, a.0, fail (load e))
        | done u ↦
            let k = io.seek p.p_offset s in
            elim k.1 [
              | fail e ↦ (k.0, a.0, fail (seek e))
              | done v ↦
                  let c = copy_rounds p.p_filesz p.p_vaddr p.p_filesz k.0 a.0 in
                  elim c.2 [ fail e ↦ (c.0, c.1, fail e) | done w ↦ clear_rest p c.0 c.1 ]
            ]
      ]

  unfoldable pub load_all : List ElfProgram → S → L → S × L × Answer (ElfLoadError E X) (Unit {0})
  load_all [] s l = (s, l, done tt)
  load_all (p ∷ programs) s l =
      let skipped = load_all programs s l in
      let r = load_segment p s l in
      let rest = load_all programs r.0 r.1 in
      if p.program_type == type_load
      then elim r.2 [ fail e ↦ (r.0, r.1, fail e) | done u ↦ rest ]
      else skipped
