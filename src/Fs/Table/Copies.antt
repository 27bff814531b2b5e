-- ===== src/Fs/Table/Copies.antt =====
-- The loop over the copies of the table on a lawful device.
use cos_rs.Base.{
  ℕ, zero, suc, ◌+◌, ◌*◌, ◌≤◌, ◌<◌, ◌≡◌, ◌≢◌, refl, sym, ◌∙◌, subst, List, length, ◌==◌, Bool-cases,
  inl, inr, arith,
}
use cos_rs.Disk.Block.{BlockDevice, IsLawful, ok}
use cos_rs.Fs.Types.{Fat32, done}
use cos_rs.Fs.Table.{write_copies}

module _ {S : Type 0} (d : BlockDevice S) (IsValid : S → Type 0) where
  -- The store after the copies from `i` on were written: what they hold, and that all else is as
  -- it was.
  pub record Copied (stride i rounds block : ℕ) (buffer : List ℕ) (s s' : S) : Type 0 where
    pub valid : IsValid s'
    pub size : d.block_size s' ≡ d.block_size s
    pub count : d.block_count s' ≡ d.block_count s
    pub written :
        (k : ℕ)
        → i ≤ k
        → k < i + rounds
        → (old : List ℕ) → length old ≡ d.block_size s
        → d.read_block (block + k * stride) old s' ≡ ok buffer
    pub kept :
        (j : ℕ)
        → ((k : ℕ) → i ≤ k → k < i + rounds → j ≢ block + k * stride)
        → (old : List ℕ) → d.read_block j old s' ≡ d.read_block j old s

  copy_apart : (i k stride : ℕ) → 0 < stride → i < k → i * stride < k * stride
  copy_apart i k stride p h = grind arith

  module _ (l : IsLawful d IsValid) where
    -- One copy, and then the others.
    Copied-suc :
        (stride i rounds block : ℕ) (buffer : List ℕ) (s s' : S)
        → IsValid s
        → length buffer ≡ d.block_size s
        → 0 < stride
        → block + i * stride < d.block_count s
        → Copied stride
            (suc i)
            rounds
            block
            buffer
            (d.write_block (block + i * stride) buffer s).0
            s'
        → Copied stride i (suc rounds) block buffer s s'
    Copied-suc stride i rounds block buffer s s' v e p inside c =
        let at = block + i * stride in
        let size_at = l.size-write at buffer s in
        record {
          valid = c.valid;
          size = c.size ∙ size_at;
          count = c.count ∙ l.count-write at buffer s;
          written = λ k low high old eo. elim (Bool-cases (k == i)) [
            | inl same ↦
                subst (λ x. d.read_block (block + x * stride) old s' ≡ ok buffer) (ground arith)
                  (c.kept at
                      (λ k' low' high' clash. absurd (omega (arith, copy_apart i k' stride p low')))
                      old
                    ∙ l.read-write_self at buffer old s v inside e eo)
            | inr other ↦ c.written k (ground arith) (omega arith) old (eo ∙ sym size_at)
          ];
          kept = λ j apart old.
              c.kept j (λ k low high. apart k (omega arith) (omega arith)) old
              ∙ l.read-write_ne at j buffer old s v
                  (λ clash. apart i (omega arith) (omega arith) (sym clash));
        }

    pub write_copies_lem :
        (rounds i block : ℕ) (buffer : List ℕ) (f : Fat32 S)
        → IsValid f.store
        → length buffer ≡ d.block_size f.store
        → 0 < f.bpb.fat_size_32
        → ((k : ℕ) → i ≤ k → k < i + rounds → block + k * f.bpb.fat_size_32 < d.block_count f.store)
        → (s' : S) × (write_copies d rounds i block buffer f ≡ (record f { store = s' }, done tt))
          × Copied f.bpb.fat_size_32 i rounds block buffer f.store s'
    unfolding write_copies
    write_copies_lem zero i block buffer f v e p inside = (
      f.store,
      refl,
      record {
        valid = v;
        size = refl;
        count = refl;
        written = λ k low high. absurd (omega arith);
        kept = λ j apart old. refl;
      },
    )
    write_copies_lem (suc rounds) i block buffer f v e p inside =
        let at = block + i * f.bpb.fat_size_32 in
        let here = inside i (omega arith) (omega arith) in
        let s = (d.write_block at buffer f.store).0 in
        let rest =
          write_copies_lem rounds (suc i) block buffer (record f { store = s })
            (l.write-IsValid at buffer f.store v) (e ∙ sym (l.size-write at buffer f.store)) p
            (λ k low high.
              subst (λ n. block + k * f.bpb.fat_size_32 < n) (sym (l.count-write at buffer f.store))
                (inside k (omega arith) (omega arith))) in
        (
          rest.0,
          rw (l.write_ok at buffer f.store v here e) rest.1,
          Copied-suc f.bpb.fat_size_32 i rounds block buffer f.store rest.0 v e p here rest.2,
        )
