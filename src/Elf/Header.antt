-- ===== src/Elf/Header.antt =====
-- What `from_io` of library/elf/src/lib.rs accepts.
use cos_rs.Base.{
  ℕ, zero, suc, ◌≤◌, ◌≡◌, refl, subst, List, [], All, Bool, true, false, not, ltb, ltb→le, ◌==◌,
  if◌then◌else◌, inl, inr, ◌⊎◌, get_or, arith,
}
use cos_rs.Elf.Io.{Answer, done, fail, Io, read_exact}
use cos_rs.Elf.File.{
  ElfHeader, ElfProgram, ElfFile, ElfReadError, Start, le_at, start_of, has_magic, program_of,
  check_header, check_program, push, with_header, read_programs, read_table, from_io,
}

-- A 64-bit little-endian executable for x86-64.
pub record IsSupported (h : ElfHeader) : Type 0 where
  pub bits_lem : h.bits ≡ 2
  pub endian_lem : h.endian ≡ 1
  pub abi_lem : h.abi ≡ 0
  pub elf_type_lem : h.elf_type ≡ 2
  pub instruction_lem : h.instruction ≡ 0x3e

-- The bytes in the file fit into the memory of the segment.
abbrev pub IsSegment : ElfProgram → Type 0
IsSegment p = p.p_filesz ≤ p.p_memsz

Answer-cases : {X A : Type 0} (x : Answer X A) → ((a : A) × (x ≡ done a)) ⊎ ((e : X) × (x ≡ fail e))
Answer-cases (done a) = inl (a, refl)
Answer-cases (fail e) = inr (e, refl)

unfoldable Holds : {X A : Type 0} → (A → Type 0) → Answer X A → Type 0
Holds P (done a) = P a
Holds P (fail e) = Unit

nothing : {X A : Type 0} (P : A → Type 0) (e : X) → Holds P (fail e)
unfolding Holds
nothing P e = tt

holds : (X : Type 0) {A : Type 0} (P : A → Type 0) (a : A) → P a → Holds {X = X} P (done a)
unfolding Holds
holds X P a h = h

if-Holds :
    {X A : Type 0} (P : A → Type 0) (b : Bool) (x : Answer X A) (y : Answer X A)
    → Holds P x
    → (b ≡ false → Holds P y)
    → Holds P (if b then x else y)
if-Holds P true x y h k = h
if-Holds P false x y h k = k refl

refused :
    {X A : Type 0} (P : A → Type 0) (b : Bool) (x y : X) → Holds P (if b then fail x else fail y)
refused P true x y = nothing P x
refused P false x y = nothing P y

IsSupported-start_of :
    (b : List ℕ)
    → get_or b 4 0 ≡ 2
    → get_or b 5 0 ≡ 1
    → get_or b 7 0 ≡ 0
    → le_at 2 16 b ≡ 2
    → le_at 2 18 b ≡ 0x3e
    → IsSupported (start_of b).header
IsSupported-start_of b bits endian abi elf_type instruction = record {
  bits_lem = bits;
  endian_lem = endian;
  abi_lem = abi;
  elf_type_lem = elf_type;
  instruction_lem = instruction;
}

equal : (a n : ℕ) → not (a == n) ≡ false → a ≡ n
equal a n h = ground arith

abbrev Supported : Start → Type 0
Supported h = IsSupported h.header

check_header-Holds : (E : Type 0) (b : List ℕ) → Holds Supported (check_header {E = E} b)
unfolding check_header
check_header-Holds E b = if-Holds Supported (not (has_magic b)) _ _ (nothing _ _) (λ m.
    if-Holds Supported (not (get_or b 4 0 == 2)) _ _ (refused Supported _ _ _) (λ e4.
      if-Holds Supported (not (get_or b 5 0 == 1)) _ _ (refused Supported _ _ _) (λ e5.
        if-Holds Supported (not (get_or b 6 0 == 1)) _ _ (nothing _ _) (λ e6.
          if-Holds Supported (not (get_or b 7 0 == 0)) _ _ (nothing _ _) (λ e7.
            if-Holds Supported (not (le_at 2 16 b == 2)) _ _ (nothing _ _) (λ e16.
              if-Holds Supported (not (le_at 2 18 b == 0x3e)) _ _ (nothing _ _) (λ e18.
                if-Holds Supported (not (le_at 4 20 b == 1)) _ _ (nothing _ _) (λ e20.
                  if-Holds Supported (not (le_at 2 54 b == 56)) _ _ (nothing _ _) (λ e54.
                    holds _ Supported (start_of b) (
                      IsSupported-start_of b (equal _ 2 e4) (equal _ 1 e5) (equal _ 0 e7)
                        (equal _ 2 e16) (equal _ 0x3e e18)))))))))))

Holds-done : {X A : Type 0} (P : A → Type 0) (x : Answer X A) (a : A) → x ≡ done a → Holds P x → P a
unfolding Holds
Holds-done P x a e h = subst (Holds P) e h

check_program-Holds : (E : Type 0) (b : List ℕ) → Holds IsSegment (check_program {E = E} b)
unfolding check_program
check_program-Holds E b =
    if-Holds IsSegment (ltb (le_at 8 40 b) (le_at 8 32 b)) _ _ (nothing _ _) (λ e.
      if-Holds IsSegment (ltb 0x1000 (le_at 8 48 b)) _ _ (nothing _ _)
        (λ a. holds _ IsSegment (program_of b) (ltb→le _ _ e)))

push-Holds :
    {E : Type 0} (p : ElfProgram) (x : Answer (ElfReadError E) (List ElfProgram))
    → IsSegment p
    → Holds (All IsSegment) x
    → Holds (All IsSegment) (push p x)
unfolding Holds
push-Holds p (done ps) h k = (h, k)
push-Holds p (fail e) h k = tt

-- A supported header and segments that fit.
abbrev pub IsLoadable : ElfFile → Type 0
IsLoadable e = IsSupported e.header × All IsSegment e.program

with_header-Holds :
    {E : Type 0} (h : ElfHeader) (x : Answer (ElfReadError E) (List ElfProgram))
    → IsSupported h
    → Holds (All IsSegment) x
    → Holds IsLoadable (with_header h x)
unfolding Holds
with_header-Holds h (done ps) s k = (s, k)
with_header-Holds h (fail e) s k = tt

module _ {S : Type 0} {E : Type 0} (io : Io S E) where
  read_programs-Holds : (n : ℕ) (s : S) → Holds (All IsSegment) (read_programs io n s).1
  unfolding read_programs
  read_programs-Holds zero s = holds _ (All IsSegment) [] tt
  read_programs-Holds (suc n) s = elim (Answer-cases (read_exact io 56 s).1) [
    | inr (x, r) ↦ rw (r, read_programs) (nothing _ _)
    | inl (b, r) ↦ elim (Answer-cases (check_program {E = E} b)) [
      | inr (x, c) ↦ rw (r, read_programs) (rw (c, read_programs) (nothing _ _))
      | inl (p, c) ↦
          rw (r, read_programs)
            (rw (c, read_programs)
              (push-Holds p _ (Holds-done IsSegment _ p c (check_program-Holds E b))
                (read_programs-Holds n (read_exact io 56 s).0)))
    ]
  ]

  read_table-Holds :
      (h : Start) (s : S) → IsSupported h.header → Holds IsLoadable (read_table io h s).1
  unfolding read_table
  read_table-Holds h s k = elim (Answer-cases (io.seek h.program_offset s).1) [
    | inr (x, r) ↦ rw (r, read_table) (nothing _ _)
    | inl (u, r) ↦
        rw (r, read_table)
          (with_header-Holds h.header _ k (read_programs-Holds h.program_entry_count _))
  ]

  from_io-Holds : (s : S) → Holds IsLoadable (from_io io s).1
  unfolding from_io
  from_io-Holds s = elim (Answer-cases (io.seek 0 s).1) [
    | inr (x, r) ↦ rw (r, from_io) (nothing _ _)
    | inl (u, r) ↦ elim (Answer-cases (read_exact io 64 (io.seek 0 s).0).1) [
      | inr (x, q) ↦ rw (r, from_io) (rw (q, from_io) (nothing _ _))
      | inl (b, q) ↦ elim (Answer-cases (check_header {E = E} b)) [
        | inr (x, c) ↦ rw (r, from_io) (rw (q, from_io) (rw (c, from_io) (nothing _ _)))
        | inl (h, c) ↦
            rw (r, from_io)
              (rw (q, from_io)
                (rw (c, from_io)
                  (read_table-Holds h _ (Holds-done Supported _ h c (check_header-Holds E b)))))
      ]
    ]
  ]

  -- An executable that from_io accepts has a header for 64 bits, little endian, the ABI 0, an
  -- executable type and x86-64, and every segment has at most as many bytes in the file as in
  -- memory.
  pub from_io-IsLoadable : (s : S) (e : ElfFile) → (from_io io s).1 ≡ done e → IsLoadable e
  from_io-IsLoadable s e h = Holds-done IsLoadable _ e h (from_io-Holds s)
