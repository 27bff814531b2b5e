-- ===== src/Elf/Io/Exact.antt =====
-- `read_exact` of library/async_io/src/lib.rs on a file, whatever the single reads return.
use cos_rs.Base.{
  ℕ, zero, suc, ◌+◌, ◌-◌, ◌<◌, ◌≤◌, ◌≡◌, refl, sym, ap, ap₂, ◌∙◌, false, inl, inr, List, [], ◌∷◌,
  ◌++◌, length, length-slice, slice, slice-append, ◌==◌, Bool-cases, arith,
}
use cos_rs.Elf.Io.{Answer, done, ReadExactError, Io, View, IsFile, prefix, read_rounds, read_exact}

pub slice_none : (o : ℕ) (xs : List ℕ) → slice o 0 xs ≡ []
slice_none zero xs = refl
slice_none (suc o) [] = refl
slice_none (suc o) (x ∷ xs) = slice_none o xs

module _ {S : Type 0} {E : Type 0} (io : Io S E) (v : View S) (IsOpen : S → Type 0)
    (f : IsFile io v IsOpen) where
  -- The bytes from the cursor, with the cursor moved behind them.
  pub record Reads (n : ℕ) (s : S) (r : S × Answer (ReadExactError E) (List ℕ)) : Type 0 where
    pub answer : r.1 ≡ done (slice (v.cursor s) n (v.contents s))
    pub moved : v.cursor r.0 ≡ v.cursor s + n
    pub same : v.contents r.0 ≡ v.contents s
    pub still_open : IsOpen r.0

  Reads-none : (n : ℕ) (s : S) → IsOpen s → n ≡ 0 → Reads n s (s, done [])
  Reads-none n s o e = rw e (record {
    answer = ap done (sym (slice_none (v.cursor s) (v.contents s)));
    moved = omega arith;
    same = refl;
    still_open = o;
  })

  -- One read, followed by reads of the rest.
  Reads-append :
      (n : ℕ) (s : S) (rest : S × Answer (ReadExactError E) (List ℕ))
      → IsOpen s
      → v.cursor s + n ≤ length (v.contents s)
      → f.count n s ≤ n
      → Reads (n - f.count n s) (io.read n s).0 rest
      → Reads n s (rest.0, prefix (slice (v.cursor s) (f.count n s) (v.contents s)) rest.1)
  Reads-append n s rest is_open inside h r = record {
    answer =
        let k = f.count n s in
        let c = v.cursor s in
        let xs = v.contents s in
        ap (prefix (slice c k xs)) r.answer
        ∙ ap done (
            ap₂ (λ (o : ℕ) (ys : List ℕ). slice c k xs ++ slice o (n - k) ys)
              (f.read-cursor n s is_open inside) (f.read-contents n s is_open)
            ∙ slice-append c k (n - k) xs
            ∙ ap (λ (m : ℕ). slice c m xs) (omega arith));
    moved = omega (arith, r.moved, f.read-cursor n s is_open inside);
    same = r.same ∙ f.read-contents n s is_open;
    still_open = r.still_open;
  }

  read_rounds-Reads :
      (fuel n : ℕ) (s : S)
      → IsOpen s
      → n ≤ fuel
      → v.cursor s + n ≤ length (v.contents s)
      → Reads n s (read_rounds io fuel n s)
  unfolding read_rounds
  read_rounds-Reads zero n s is_open h k = Reads-none n s is_open (omega arith)
  read_rounds-Reads (suc fuel) n s is_open h k = elim (Bool-cases (n == 0)) [
    | inl e ↦ rw e (Reads-none n s is_open (ground arith))
    | inr e ↦ rw e (
        let some_bytes : 0 < n = ground arith in
        let c = f.count n s in
        let le = f.count_le n s in
        let pos : 0 < c = f.count_pos n s is_open some_bytes (omega arith) in
        let l : length (slice (v.cursor s) c (v.contents s)) ≡ c =
          length-slice (v.cursor s) c (v.contents s) (omega arith) in
        let z : (c == 0) ≡ false = ground arith in
        let fits : v.cursor (io.read n s).0 + (n - c) ≤ length (v.contents (io.read n s).0) =
          omega (arith, f.read-cursor n s is_open k, ap length (f.read-contents n s is_open)) in
        let ih =
          read_rounds-Reads fuel (n - c) (io.read n s).0 (f.read-IsOpen n s is_open) (omega arith)
            fits in
        rw (f.read-ok n s is_open k, l, z) (Reads-append n s _ is_open k le ih))
  ]

  -- On an open reader that keeps the laws of a file, reading exactly as many bytes as lie behind the
  -- cursor or fewer succeeds with these bytes and moves the cursor behind them, however few each
  -- single read returns.
  pub read_exact-Reads :
      (n : ℕ) (s : S)
      → IsOpen s
      → v.cursor s + n ≤ length (v.contents s)
      → Reads n s (read_exact io n s)
  unfolding read_exact
  read_exact-Reads n s is_open k = read_rounds-Reads n n s is_open (omega arith) k
