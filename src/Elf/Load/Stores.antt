-- ===== src/Elf/Load/Stores.antt =====
-- What a loader keeps in memory, and the copies that `load` of library/elf/src/lib.rs makes.
use cos_rs.Base.{
  ℕ, zero, suc, ◌+◌, ◌-◌, ◌%◌, ◌^◌, ◌<◌, ◌≤◌, ◌≡◌, refl, sym, ap, ap₂, subst, ◌∙◌, min, inl, inr,
  List, ◌++◌, length, length-slice, slice, slice-append, replicate, ◌==◌, Bool-cases, arith,
}
use cos_rs.Kernel.Physics.{Memory}
use cos_rs.Kernel.Physics.Access.{poke_all, poke_all-append}
use cos_rs.Elf.Io.{Answer, done, Io, View, IsFile, read_exact}
use cos_rs.Elf.Io.Exact.{read_exact-Reads, slice_none}
use cos_rs.Elf.Load.{Loader, ElfLoadError, buffer_size, copy_rounds}

-- A loader that accepts a range of addresses and keeps what is written there: `memory` is its view,
-- and `IsMapped` holds where it accepts a range.
pub record IsLoader {L X : Type 0} (loader : Loader L X) (memory : L → Memory)
    (IsMapped : ℕ → ℕ → L → Type 0) : Type 0 where
  pub write-ok :
      (a : ℕ) (bytes : List ℕ) (l : L)
      → IsMapped a (length bytes) l
      → (loader.write_to_memory a bytes l).1 ≡ done tt
  pub write-memory :
      (a : ℕ) (bytes : List ℕ) (l : L)
      → IsMapped a (length bytes) l
      → memory (loader.write_to_memory a bytes l).0 ≡ poke_all a bytes (memory l)
  pub write-mapped :
      (a n b : ℕ) (bytes : List ℕ) (l : L)
      → IsMapped a n l
      → IsMapped a n (loader.write_to_memory b bytes l).0
  pub clear-mapped :
      (a n b m : ℕ) (l : L) → IsMapped a n l → IsMapped a n (loader.clear_memory b m l).0
  pub clear-ok : (a n : ℕ) (l : L) → IsMapped a n l → (loader.clear_memory a n l).1 ≡ done tt
  pub clear-memory :
      (a n : ℕ) (l : L)
      → IsMapped a n l
      → memory (loader.clear_memory a n l).0 ≡ poke_all a (replicate n 0) (memory l)
  pub part : (a n b m : ℕ) (l : L) → IsMapped a n l → a ≤ b → b + m ≤ a + n → IsMapped b m l

module _ {S : Type 0} {E : Type 0} {L : Type 0} {X : Type 0} (io : Io S E) (v : View S)
    (IsOpen : S → Type 0) (f : IsFile io v IsOpen) (loader : Loader L X) (memory : L → Memory)
    (IsMapped : ℕ → ℕ → L → Type 0) (k : IsLoader loader memory IsMapped) where
  -- A success that writes these bytes from the address, keeps what is mapped and the file.
  pub record Stores (a : ℕ) (bytes : List ℕ) (s : S) (l : L)
      (r : S × L × Answer (ElfLoadError E X) (Unit {0})) : Type 0 where
    pub answer : r.2 ≡ done tt
    pub stored : memory r.1 ≡ poke_all a bytes (memory l)
    pub mapped : (b n : ℕ) → IsMapped b n l → IsMapped b n r.1
    pub same : v.contents r.0 ≡ v.contents s
    pub still_open : IsOpen r.0

  Stores-none :
      (a n : ℕ) (s : S) (l : L)
      → IsOpen s
      → n ≡ 0
      → Stores a (slice (v.cursor s) n (v.contents s)) s l (s, l, done tt)
  Stores-none a n s l o e = record {
    answer = refl;
    stored =
        ap (λ (bytes : List ℕ). poke_all a bytes (memory l))
          (sym (
            ap (λ (m : ℕ). slice (v.cursor s) m (v.contents s)) e
            ∙ slice_none (v.cursor s) (v.contents s)));
    mapped = λ b m h. h;
    same = refl;
    still_open = o;
  }

  -- One success after another.
  pub Stores-append :
      (a : ℕ) (xs ys : List ℕ) (s : S) (l : L) (r q : S × L × Answer (ElfLoadError E X) (Unit {0}))
      → Stores a xs s l r
      → Stores (a + length xs) ys r.0 r.1 q
      → Stores a (xs ++ ys) s l q
  Stores-append a xs ys s l r q h k = record {
    answer = k.answer;
    stored =
        k.stored ∙ ap (poke_all (a + length xs) ys) h.stored ∙ poke_all-append xs ys a (memory l);
    mapped = λ b n m. k.mapped b n (h.mapped b n m);
    same = k.same ∙ h.same;
    still_open = k.still_open;
  }

  -- The first bytes of a range, and then the rest of it.
  Stores-resize :
      (a n remain : ℕ) (s : S) (l : L) (t : S) (w : L)
      (q : S × L × Answer (ElfLoadError E X) (Unit {0}))
      → IsOpen t
      → n ≤ remain
      → v.cursor t ≡ v.cursor s + n
      → v.contents t ≡ v.contents s
      → length (slice (v.cursor s) n (v.contents s)) ≡ n
      → memory w ≡ poke_all a (slice (v.cursor s) n (v.contents s)) (memory l)
      → ((b m : ℕ) → IsMapped b m l → IsMapped b m w)
      → Stores (a + n) (slice (v.cursor t) (remain - n) (v.contents t)) t w q
      → Stores a (slice (v.cursor s) remain (v.contents s)) s l q
  Stores-resize a n remain s l t w q o le moved same len stored mapped h =
      let xs : List ℕ = slice (v.cursor s) n (v.contents s) in
      let ys : List ℕ = slice (v.cursor t) (remain - n) (v.contents t) in
      let joined : xs ++ ys ≡ slice (v.cursor s) remain (v.contents s) =
        ap₂ (λ (o : ℕ) (c : List ℕ). xs ++ slice o (remain - n) c) moved same
        ∙ slice-append (v.cursor s) n (remain - n) (v.contents s)
        ∙ ap (λ (m : ℕ). slice (v.cursor s) m (v.contents s)) (omega arith) in
      subst (λ (bytes : List ℕ). Stores a bytes s l q) joined
        (Stores-append a xs ys s l (t, w, done tt) q
          (record { answer = refl; stored = stored; mapped = mapped; same = same; still_open = o })
          (subst (λ (m : ℕ). Stores (a + m) ys t w q) (sym len) h))

  pub copy_rounds-Stores :
      (fuel addr remain : ℕ) (s : S) (l : L)
      → IsOpen s
      → remain ≤ fuel
      → v.cursor s + remain ≤ length (v.contents s)
      → addr + remain < 2 ^ 64
      → IsMapped addr remain l
      → Stores addr
          (slice (v.cursor s) remain (v.contents s))
          s
          l
          (copy_rounds io loader fuel addr remain s l)
  unfolding copy_rounds
  copy_rounds-Stores zero addr remain s l o h c b m = Stores-none addr remain s l o (omega arith)
  copy_rounds-Stores (suc fuel) addr remain s l o h c b m = elim (Bool-cases (remain == 0)) [
    | inl e ↦ rw (e, copy_rounds) (Stores-none addr remain s l o (ground arith))
    | inr e ↦
        rw (e, copy_rounds)
          (let n : ℕ = min buffer_size remain in
            let some_bytes : 0 < n = ground arith in
            let le : n ≤ remain = omega arith in
            let r = read_exact-Reads io v IsOpen f n s o (omega arith) in
            let bytes = slice (v.cursor s) n (v.contents s) in
            let len : length bytes ≡ n = length-slice (v.cursor s) n (v.contents s) (omega arith) in
            let mw : IsMapped addr (length bytes) l =
              k.part addr remain addr (length bytes) l m (omega arith) (omega arith) in
            let w = (loader.write_to_memory addr bytes l).0 in
            let next : (addr + n) % 2 ^ 64 ≡ addr + n = omega arith in
            let ih =
              copy_rounds-Stores fuel (addr + n) (remain - n) (read_exact io n s).0 w r.still_open
                (omega arith) (omega (arith, r.moved, ap length r.same)) (omega arith)
                (k.write-mapped (addr + n) (remain - n) addr bytes l
                  (k.part addr remain (addr + n) (remain - n) l m (omega arith) (omega arith))) in
            rw (r.answer, copy_rounds)
              (rw (k.write-ok addr bytes l mw, copy_rounds)
                (rw next (
                  Stores-resize addr n remain s l (read_exact io n s).0 w _ r.still_open le r.moved
                    r.same len (k.write-memory addr bytes l mw)
                    (λ a z. k.write-mapped a z addr bytes l) ih))))
  ]
