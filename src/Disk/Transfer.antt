-- ===== src/Disk/Transfer.antt =====
-- The loops of library/filesystem/src/device/mod.rs over several blocks.
use cos_rs.Base.{
  ℕ, zero, suc, ◌+◌, ◌*◌, ◌≤◌, ◌<◌, ◌≡◌, refl, sym, ap, subst, ◌∙◌, List, [], ◌∷◌, ◌++◌, length,
  slice, take-all, slice-append, length-slice, arith, ltb, ltb→lt, ltb→le, Bool-cases, inl, inr,
}
use cos_rs.Disk.Block.{
  ok, err, BlockDevice, IsLawful, Done, after_write, write_rounds, read_rounds, write_blocks,
  read_blocks,
}

module _ {S : Type 0} (d : BlockDevice S) (IsValid : S → Type 0) (l : IsLawful d IsValid) where
  slice_none : (o n : ℕ) (xs : List ℕ) → n ≡ 0 → slice o n xs ≡ []
  slice_none zero n xs e = rw e
  slice_none (suc o) n [] e = refl
  slice_none (suc o) n (x ∷ xs) e = slice_none o n xs e

  whole : (o n : ℕ) (xs : List ℕ) → o ≡ 0 → length xs ≡ n → slice o n xs ≡ xs
  whole o n xs z e = subst (λ k. slice k n xs ≡ xs) (sym z) (take-all n xs e)

  -- What a loop of writes has done: it succeeded, it kept what the device promises, the blocks
  -- before it are as they were, and each block of it holds its part of the buffer.
  record Wrote (rounds i size b : ℕ) (buf : List ℕ) (s : S) (r : S × Done) : Type 0 where
    done : r.1 ≡ ok tt
    valid : IsValid r.0
    sized : d.block_size r.0 ≡ d.block_size s
    before : (j : ℕ) (old : List ℕ) → j < b + i → d.read_block j old r.0 ≡ d.read_block j old s
    within :
        (t : ℕ) (old : List ℕ)
        → i ≤ t
        → t < i + rounds
        → length old ≡ size
        → d.read_block (b + t) old r.0 ≡ ok (slice (t * size) size buf)

  block_fits : (t n size len : ℕ) → t < n → len ≡ n * size → t * size + size ≤ len
  block_fits t n size len h e = grind arith

  after_write-ok : (r : S × Done) (k : S → S × Done) → r.1 ≡ ok tt → after_write d r k ≡ k r.0
  after_write-ok (s, ok u) k e = refl
  after_write-ok (s, err x) k e = cc

  -- One more block in front of what the rest of the loop has done.
  Wrote-step :
      (rounds i size b : ℕ) (buf : List ℕ) (s : S) (r : S × Done)
      → IsValid s
      → b + i < d.block_count s
      → size ≡ d.block_size s
      → length (slice (i * size) size buf) ≡ size
      → Wrote rounds (suc i) size b buf (d.write_block (b + i) (slice (i * size) size buf) s).0 r
      → Wrote (suc rounds) i size b buf s r
  Wrote-step rounds i size b buf s r v h z full w =
      let part = slice (i * size) size buf in
      record {
        done = w.done;
        valid = w.valid;
        sized = w.sized ∙ l.size-write (b + i) part s;
        before = λ j old k.
            w.before j old (omega arith)
            ∙ l.read-write_ne (b + i) j part old s v (λ (e : b + i ≡ j). omega arith);
        within = λ t old lo hi q. elim (Bool-cases (ltb i t)) [
          | inl later ↦ w.within t old (ltb→lt i t later) (omega arith) q
          | inr first ↦
              subst (λ t'. d.read_block (b + t') old r.0 ≡ ok (slice (t' * size) size buf))
                (omega (arith, ltb→le i t first))
                (w.before (b + i) old (omega arith)
                  ∙ l.read-write_self (b + i) part old s v h (full ∙ z) (q ∙ z))
        ];
      }

  write_rounds-Wrote :
      (rounds i n size b : ℕ) (buf : List ℕ) (s : S)
      → IsValid s
      → i + rounds ≡ n
      → b + n ≤ d.block_count s
      → size ≡ d.block_size s
      → length buf ≡ n * size
      → Wrote rounds i size b buf s (write_rounds d rounds i size b buf s)
  unfolding write_rounds
  write_rounds-Wrote zero i n size b buf s v e h z len = record {
    done = refl;
    valid = v;
    sized = refl;
    before = λ j old k. refl;
    within = λ t old lo hi q. absurd (omega arith);
  }
  write_rounds-Wrote (suc rounds) i n size b buf s v e h z len =
      let part = slice (i * size) size buf in
      let full =
        length-slice (i * size) size buf (block_fits i n size (length buf) (omega arith) len) in
      let r = d.write_block (b + i) part s in
      let k = λ (s' : S). write_rounds d rounds (suc i) size b buf s' in
      let wrote = l.write_ok (b + i) part s v (omega arith) (full ∙ z) in
      let rest =
        write_rounds-Wrote rounds (suc i) n size b buf r.0 (l.write-IsValid (b + i) part s v)
          (omega arith) (rw (l.count-write (b + i) part s) h)
          (z ∙ sym (l.size-write (b + i) part s)) len in
      rw (after_write-ok r k wrote)
        (Wrote-step rounds i size b buf s (k r.0) v (omega arith) z full rest)

  split_range :
      (rounds i size : ℕ) (buf : List ℕ)
      → slice (i * size) size buf ++ slice (suc i * size) (rounds * size) buf
        ≡ slice (i * size) (suc rounds * size) buf
  split_range rounds i size buf =
      ap (λ o. slice (i * size) size buf ++ slice o (rounds * size) buf)
        (let e : suc i * size ≡ i * size + size = omega arith in e)
      ∙ slice-append (i * size) size (rounds * size) buf
      ∙ ap (λ m. slice (i * size) m buf)
          (let e : size + rounds * size ≡ suc rounds * size = omega arith in e)

  read_rounds-ok :
      (rounds i n size b : ℕ) (buf old : List ℕ) (s : S)
      → i + rounds ≡ n
      → length old ≡ n * size
      → ((t : ℕ) (o : List ℕ)
          → i ≤ t
          → t < n
          → length o ≡ size
          → d.read_block (b + t) o s ≡ ok (slice (t * size) size buf))
      → read_rounds d rounds i size b old s ≡ ok (slice (i * size) (rounds * size) buf)
  unfolding read_rounds
  read_rounds-ok zero i n size b buf old s e len h =
      ap ok (sym (slice_none (i * size) (0 * size) buf (omega arith)))
  read_rounds-ok (suc rounds) i n size b buf old s e len h =
      let part = slice (i * size) size old in
      let full =
        length-slice (i * size) size old (block_fits i n size (length old) (omega arith) len) in
      let rest =
        read_rounds-ok rounds (suc i) n size b buf old s (omega arith) len
          (λ t o lo hi q. h t o (omega arith) hi q) in
      rw (h i part (omega arith) (omega arith) full, rest) (ap ok (split_range rounds i size buf))

  -- On a lawful device, write_blocks of a buffer of n whole blocks to a range of the device
  -- succeeds, and read_blocks of the same range then returns the buffer.
  pub read-write_blocks :
      (b n : ℕ) (buf old : List ℕ) (s : S)
      → IsValid s
      → b + n ≤ d.block_count s
      → length buf ≡ n * d.block_size s
      → length old ≡ n * d.block_size s
      → ((write_blocks d b n buf s).1 ≡ ok tt)
        × (read_blocks d b n old (write_blocks d b n buf s).0 ≡ ok buf)
  unfolding write_blocks read_blocks
  read-write_blocks b n buf old s v h e e' =
      let size = d.block_size s in
      let r = write_rounds d n 0 size b buf s in
      let w = write_rounds-Wrote n 0 n size b buf s v (omega arith) h refl e in
      let all =
        read_rounds-ok n 0 n size b buf old r.0 (omega arith) e'
          (λ t o lo hi q. w.within t o (omega arith) (omega arith) q) in
      (w.done, rw w.sized (all ∙ ap ok (whole (0 * size) (n * size) buf (omega arith) e)))
