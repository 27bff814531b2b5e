-- ===== src/Kernel/ElfLoader/Pages.antt =====
-- The pages that kernel/src/multitask/elf_loader.rs asks for.
use cos_rs.Base.{
  ℕ, ◌+◌, ◌-◌, ◌*◌, ◌/◌, ◌%◌, ◌^◌, ◌<◌, ◌≤◌, ◌≡◌, ◌≢◌, inl, inr, refl, bit_and_frame, Bool, true,
  false, ◌&&◌, ◌||◌, none, List, [], ◌∷◌, ltb, leb, ◌==◌, ltb→lt, ltb→le, Bool-cases, Option-cases,
  All, arith,
}
use cos_rs.Elf.Io.{Answer, done, fail}
use cos_rs.Kernel.ElfLoader.{
  ElfLoader, page_reserved, page_protection, ProcessMemory, user_start, user_end, is_reserved,
  page_down, is_allocated, page_type_of, create_process_page, map_pages, alloc_static,
}

-- Entries that are whole pages.
abbrev pub IsPaged : ℕ × ℕ → Type 0
IsPaged p = (p.0 % 0x1000 ≡ 0) × (p.1 % 0x1000 ≡ 0)

in_page :
    (a n start y : ℕ)
    → a % 0x1000 ≡ 0
    → n % 0x1000 ≡ 0
    → start % 0x1000 ≡ 0
    → (leb a start && ltb start (a + n)) ≡ true
    → start ≤ y
    → y < start + 0x1000
    → (leb a y && ltb y (a + n)) ≡ true
in_page a n start y pa pn ps t lo hi =
    let le : a ≤ start = ground arith in
    let lt : start < a + n = ground arith in
    let top : start + 0x1000 ≤ a + n = omega (arith, le, lt, pa, pn, ps) in ground arith

rest_allocated : (a b : Bool) → a ≡ false → (a || b) ≡ true → b ≡ true
rest_allocated true b t e = absurd (ground arith)
rest_allocated false b t e = e

or_true : (a : Bool) → (a || true) ≡ true
or_true true = refl
or_true false = refl

-- An entry that holds the start of a page holds the page.
is_allocated-page :
    (pages : List (ℕ × ℕ)) (start y : ℕ)
    → All IsPaged pages
    → start % 0x1000 ≡ 0
    → is_allocated start pages ≡ true
    → start ≤ y
    → y < start + 0x1000
    → is_allocated y pages ≡ true
is_allocated-page [] start y h a e lo hi = absurd (ground arith)
is_allocated-page (p ∷ pages) start y h a e lo hi =
    elim (Bool-cases (leb p.0 start && ltb start (p.0 + p.1))) [
      | inl t ↦
          let q : (leb p.0 y && ltb y (p.0 + p.1)) ≡ true =
            in_page p.0 p.1 start y h.0.0 h.0.1 a t lo hi in
          rw q refl
      | inr t ↦
          let ih = is_allocated-page pages start y h.1 a (rest_allocated _ _ t e) lo hi in
          rw ih (or_true _)
    ]

not_done : {X : Type 0} (x : X) → ◌≢◌ {A = Answer X (Unit {0})} (fail x) (done tt)
not_done x e = ground arith

module _ {P : Type 0} {M : Type 0} (memory : ProcessMemory P M) where
  -- What a success of `map_pages` allocates, besides what was allocated.
  record Maps (start total : ℕ) (l : ElfLoader P) (pages : List (ℕ × ℕ)) : Type 0 where
    new_pages : (y : ℕ) → start ≤ y → y < start + total → is_allocated y pages ≡ true
    old_pages : (y : ℕ) → is_allocated y l.allocated_page ≡ true → is_allocated y pages ≡ true
    paged : All IsPaged l.allocated_page → All IsPaged pages

  map_pages-fail :
      (start total : ℕ) (writable executable : Bool) (l : ElfLoader P)
      → (total == 0) ≡ false
      → (create_process_page memory
          (page_down (total + 0xfff))
          (page_type_of writable executable start)
          l.process).1
        ≡ none
      → (map_pages memory start total writable executable l).1 ≢ done tt
  unfolding map_pages
  map_pages-fail start total writable executable l z n = rw (z, n) (λ e. ground arith)

  map_pages-Maps :
      (start total : ℕ) (writable executable : Bool) (l : ElfLoader P)
      → start % 0x1000 ≡ 0
      → total + 0x1000 < 2 ^ 64
      → (map_pages memory start total writable executable l).1 ≡ done tt
      → Maps start total l (map_pages memory start total writable executable l).0.allocated_page
  unfolding map_pages
  map_pages-Maps start total writable executable l a b e =
      let whole : ℕ = page_down (total + 0xfff) in
      let round : whole ≡ (total + 0xfff) / 0x1000 * 0x1000 =
        bit_and_frame (total + 0xfff) (omega arith) in
      elim (Bool-cases (total == 0)) [
        | inl z ↦ rw z (record {
          new_pages = λ y p q. absurd (ground arith);
          old_pages = λ y p. p;
          paged = λ p. p;
        })
        | inr z ↦
            elim (Option-cases
              (create_process_page memory whole (page_type_of writable executable start)
                l.process).1) [
                  | inl n ↦ absurd (map_pages-fail start total writable executable l z n e)
                  | inr (v, n) ↦
                      rw (z, n)
                        (record {
                          new_pages = λ y p q. ground arith;
                          old_pages = λ y p. ground arith;
                          paged = λ p. ((a, omega (arith, round)), p);
                        })
                ]
      ]

  -- What a success of `alloc_static` says of its arguments.
  alloc_static-accepts :
      (l : ElfLoader P) (addr size : ℕ) (readable writable executable : Bool)
      → (alloc_static memory addr size readable writable executable l).1 ≡ done tt
      → (readable ≡ true) × ((writable && executable) ≡ false) × (is_reserved addr size ≡ false)
  unfolding alloc_static
  alloc_static-accepts l addr size false w x e = absurd (ground arith)
  alloc_static-accepts l addr size true w x e = elim (Bool-cases (w && x)) [
    | inl t ↦ absurd (not_done page_protection ((rw t at e)))
    | inr t ↦ elim (Bool-cases (is_reserved addr size)) [
      | inl u ↦ absurd (not_done page_reserved ((rw (t, u) at e)))
      | inr u ↦ (refl, t, u)
    ]
  ]

  Covers : ℕ → ℕ → List (ℕ × ℕ) → Type 0
  Covers addr size pages =
      ((y : ℕ) → addr ≤ y → y < addr + size → is_allocated y pages ≡ true) × All IsPaged pages

  alloc_static-Covers :
      (l : ElfLoader P) (addr size : ℕ) (readable writable executable : Bool)
      → All IsPaged l.allocated_page
      → (alloc_static memory addr size readable writable executable l).1 ≡ done tt
      → Covers addr size
          (alloc_static memory addr size readable writable executable l).0.allocated_page
  unfolding alloc_static Covers
  alloc_static-Covers l addr size readable writable executable p e =
      let c = alloc_static-accepts l addr size readable writable executable e in
      let start : ℕ = page_down addr in
      let total : ℕ = (size + addr) % 2 ^ 64 - start in
      let top : addr + size < user_end = ground arith in
      let down : start ≡ addr / 0x1000 * 0x1000 = bit_and_frame addr (omega arith) in
      let sum : (size + addr) % 2 ^ 64 ≡ size + addr = omega arith in
      elim (Bool-cases (is_allocated start l.allocated_page)) [
        | inl t ↦
            let f = (rw (c.0, c.1, c.2, t) at e) in
            let next : ℕ = (start + 0x1000) % 2 ^ 64 in
            let n : next ≡ start + 0x1000 = omega arith in
            let m =
              map_pages-Maps next (total - 0x1000) writable executable l (omega arith) (omega arith)
                f in
            rw (c.0, c.1, c.2, t)
              (
                (λ y lo hi. elim (Bool-cases (ltb y (start + 0x1000))) [
                  | inl b ↦ m.old_pages y (
                      is_allocated-page l.allocated_page start y p (omega arith) t (omega arith)
                        (ltb→lt y (start + 0x1000) b))
                  | inr b ↦
                      let at_least = ltb→le y (start + 0x1000) b in
                      m.new_pages y (omega arith) (omega arith)
                ]),
                m.paged p,
              )
        | inr t ↦
            let f = (rw (c.0, c.1, c.2, t) at e) in
            let m =
              map_pages-Maps start total writable executable l (omega arith) (omega arith) f in
            rw (c.0, c.1, c.2, t)
              ((λ y lo hi. m.new_pages y (omega arith) (omega arith)), m.paged p)
      ]

  -- If the allocated entries are whole pages, alloc_static succeeds, and an address lies in the
  -- segment, then the segment is readable, not both writable and executable, inside the addresses
  -- of user programs, that address lies in an allocated entry, and the entries are whole pages
  -- again.
  pub alloc_static-covers :
      (l : ElfLoader P) (addr size y : ℕ) (readable writable executable : Bool)
      → All IsPaged l.allocated_page
      → (alloc_static memory addr size readable writable executable l).1 ≡ done tt
      → addr ≤ y
      → y < addr + size
      → (readable ≡ true)
        × ((writable && executable) ≡ false)
        × (user_start ≤ addr)
        × (addr + size < user_end)
        × (is_allocated y
              (alloc_static memory addr size readable writable executable l).0.allocated_page
            ≡ true)
        × All IsPaged
            (alloc_static memory addr size readable writable executable l).0.allocated_page
  unfolding Covers
  alloc_static-covers l addr size y readable writable executable p e lo hi =
      let c = alloc_static-Covers l addr size readable writable executable p e in
      let a = alloc_static-accepts l addr size readable writable executable e in
      (a.0, a.1, ground arith, ground arith, c.0 y lo hi, c.1)
