-- ===== src/Elf/Load/Segment.antt =====
-- A segment under `load` of library/elf/src/lib.rs.
use cos_rs.Base.{
  ℕ, ◌+◌, ◌-◌, ◌%◌, ◌^◌, ◌<◌, ◌≤◌, ◌≡◌, refl, sym, ap, ap₂, subst, ◌∙◌, inl, inr, List, ◌++◌,
  length, length-slice, slice, replicate, ltb, Bool-cases, arith,
}
use cos_rs.Kernel.Physics.{Memory}
use cos_rs.Kernel.Physics.Access.{poke_all}
use cos_rs.Elf.Io.{done, Io, View, IsFile}
use cos_rs.Elf.File.{ElfProgram}
use cos_rs.Elf.Load.{Loader, map_load, copy_rounds, clear_rest, load_segment, alloc_segment}
use cos_rs.Elf.Load.Stores.{IsLoader, Stores, Stores-append, copy_rounds-Stores}

module _ {S : Type 0} {E : Type 0} {L : Type 0} {X : Type 0} (io : Io S E) (v : View S)
    (IsOpen : S → Type 0) (f : IsFile io v IsOpen) (loader : Loader L X) (memory : L → Memory)
    (IsMapped : ℕ → ℕ → L → Type 0) (k : IsLoader loader memory IsMapped) where
  clear_rest-Stores :
      (p : ElfProgram) (s : S) (l : L)
      → IsOpen s
      → p.p_filesz ≤ p.p_memsz
      → p.p_vaddr + p.p_memsz < 2 ^ 64
      → IsMapped p.p_vaddr p.p_memsz l
      → Stores io v IsOpen f loader memory IsMapped k
          (p.p_vaddr + p.p_filesz)
          (replicate (p.p_memsz - p.p_filesz) 0)
          s
          l
          (clear_rest io loader p s l)
  unfolding clear_rest
  clear_rest-Stores p s l o h b m = elim (Bool-cases (ltb p.p_filesz p.p_memsz)) [
    | inl e ↦
        let a : (p.p_vaddr + p.p_filesz) % 2 ^ 64 ≡ p.p_vaddr + p.p_filesz = omega arith in
        let n = p.p_memsz - p.p_filesz in
        let g : IsMapped (p.p_vaddr + p.p_filesz) n l =
          k.part p.p_vaddr p.p_memsz (p.p_vaddr + p.p_filesz) n l m (omega arith) (omega arith) in
        rw (e, a)
          (record {
            answer = ap map_load (k.clear-ok (p.p_vaddr + p.p_filesz) n l g);
            stored = k.clear-memory (p.p_vaddr + p.p_filesz) n l g;
            mapped = λ x y. k.clear-mapped x y (p.p_vaddr + p.p_filesz) n l;
            same = refl;
            still_open = o;
          })
    | inr e ↦
        let z : p.p_memsz - p.p_filesz ≡ 0 = ground arith in
        rw (e, z)
          (record {
            answer = refl;
            stored = refl;
            mapped = λ x y g. g;
            same = refl;
            still_open = o;
          })
  ]

  -- On an open file and a loader that keep their laws, with an accepted allocation of the memory
  -- of the segment and a segment that lies in the file, is no longer there than in memory, and
  -- lies below 2^64, loading it succeeds, writes the bytes of the file and then zeros up to the
  -- size in memory from the address and nothing else, keeps the contents of the file and leaves
  -- it open.
  pub load_segment-Stores :
      (p : ElfProgram) (s : S) (l : L)
      → IsOpen s
      → (alloc_segment loader p l).1 ≡ done tt
      → IsMapped p.p_vaddr p.p_memsz (alloc_segment loader p l).0
      → p.p_filesz ≤ p.p_memsz
      → p.p_offset + p.p_filesz ≤ length (v.contents s)
      → p.p_vaddr + p.p_memsz < 2 ^ 64
      → Stores io v IsOpen f loader memory IsMapped k p.p_vaddr
          (slice p.p_offset p.p_filesz (v.contents s) ++ replicate (p.p_memsz - p.p_filesz) 0)
          s
          (alloc_segment loader p l).0
          (load_segment io loader p s l)
  unfolding load_segment
  load_segment-Stores p s l o a m h c b =
      let allocated = (alloc_segment loader p l).0 in
      let s1 = (io.seek p.p_offset s).0 in
      let bytes : List ℕ = slice p.p_offset p.p_filesz (v.contents s) in
      let r = copy_rounds io loader p.p_filesz p.p_vaddr p.p_filesz s1 allocated in
      let cur = f.seek-cursor p.p_offset s o (omega arith) in
      let con = f.seek-contents p.p_offset s o in
      let inside : v.cursor s1 + p.p_filesz ≤ length (v.contents s1) =
        omega (arith, cur, ap length con) in
      let low : IsMapped p.p_vaddr p.p_filesz allocated =
        k.part p.p_vaddr p.p_memsz p.p_vaddr p.p_filesz allocated m (omega arith) (omega arith) in
      let raw =
        copy_rounds-Stores io v IsOpen f loader memory IsMapped k p.p_filesz p.p_vaddr p.p_filesz s1
          allocated (f.seek-IsOpen p.p_offset s o) (omega arith) inside (omega arith) low in
      let copied : Stores io v IsOpen f loader memory IsMapped k p.p_vaddr bytes s allocated r =
        record {
          answer = raw.answer;
          stored =
              raw.stored
              ∙ ap₂
                  (λ (o : ℕ) (c : List ℕ).
                    poke_all p.p_vaddr (slice o p.p_filesz c) (memory allocated))
                  cur con;
          mapped = raw.mapped;
          same = raw.same ∙ con;
          still_open = raw.still_open;
        } in
      let len : length bytes ≡ p.p_filesz = length-slice p.p_offset p.p_filesz (v.contents s) c in
      let rest =
        clear_rest-Stores p r.0 r.1 raw.still_open h b (raw.mapped p.p_vaddr p.p_memsz m) in
      let zeros : List ℕ = replicate (p.p_memsz - p.p_filesz) 0 in
      let whole : Stores io v IsOpen f loader memory IsMapped k p.p_vaddr (bytes ++ zeros) s
          allocated (clear_rest io loader p r.0 r.1) =
        Stores-append io v IsOpen f loader memory IsMapped k p.p_vaddr bytes zeros s allocated r
          (clear_rest io loader p r.0 r.1) copied
          (subst
            (λ (n : ℕ).
              Stores io v IsOpen f loader memory IsMapped k (p.p_vaddr + n) zeros r.0 r.1
                (clear_rest io loader p r.0 r.1))
            (sym len) rest) in
      rw (a, load_segment)
        (rw (f.seek-ok p.p_offset s o (omega arith), load_segment)
          (rw (copied.answer, load_segment) whole))
