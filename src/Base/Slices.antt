-- ===== src/Base/Slices.antt =====
-- Ranges of a byte list: `xs[o..o + n]`, and copying a list over such a range.
use Prim.Native.Nat.add
use Prim.Native.Nat.{ℕ, zero, suc, ◌+◌, ◌≤◌}
use mathlib.Core.Path.{◌≡◌, refl, ap}
use mathlib.Core.List.{List, [], ◌∷◌, ◌++◌}
use native.Mathlib.Omega.{arith}
use cos_rs.Base.Lists.{length, take, set}

module _ {ℓ} {A : Type ℓ} where
  abbrev pub slice : ℕ → ℕ → List A → List A
  slice zero n xs = take n xs
  slice (suc o) n [] = []
  slice (suc o) n (x ∷ xs) = slice o n xs

  -- What does not fit is cut off.
  abbrev pub overwrite : List A → List A → List A
  overwrite ys [] = []
  overwrite [] (x ∷ xs) = x ∷ xs
  overwrite (y ∷ ys) (x ∷ xs) = y ∷ overwrite ys xs

  abbrev pub splice : ℕ → List A → List A → List A
  splice zero ys xs = overwrite ys xs
  splice (suc o) ys [] = []
  splice (suc o) ys (x ∷ xs) = x ∷ splice o ys xs

module _ {ℓ} {A : Type ℓ} where
  pub length-overwrite : (ys xs : List A) → length (overwrite ys xs) ≡ length xs
  length-overwrite ys [] = refl
  length-overwrite [] (x ∷ xs) = refl
  length-overwrite (y ∷ ys) (x ∷ xs) = ap suc (length-overwrite ys xs)

  pub length-splice : (o : ℕ) (ys xs : List A) → length (splice o ys xs) ≡ length xs
  length-splice zero ys xs = length-overwrite ys xs
  length-splice (suc o) ys [] = refl
  length-splice (suc o) ys (x ∷ xs) = ap suc (length-splice o ys xs)

  pub length-slice : (o n : ℕ) (xs : List A) → o + n ≤ length xs → length (slice o n xs) ≡ n
  length-slice zero zero xs h = refl
  length-slice zero (suc n) [] h = omega arith
  length-slice zero (suc n) (x ∷ xs) h = ap suc (length-slice zero n xs (omega arith))
  length-slice (suc o) n [] h = omega arith
  length-slice (suc o) n (x ∷ xs) h = length-slice o n xs (omega arith)

  take-overwrite :
      (ys xs : List A) → length ys ≤ length xs → take (length ys) (overwrite ys xs) ≡ ys
  take-overwrite [] xs h = refl
  take-overwrite (y ∷ ys) [] h = absurd (omega arith)
  take-overwrite (y ∷ ys) (x ∷ xs) h = ap (◌∷◌ y) (take-overwrite ys xs (omega arith))

  -- A range that was written reads back.
  pub slice-splice_self :
      (o : ℕ) (ys xs : List A)
      → o + length ys ≤ length xs
      → slice o (length ys) (splice o ys xs) ≡ ys
  slice-splice_self zero ys xs h = take-overwrite ys xs (omega arith)
  slice-splice_self (suc o) ys [] h = absurd (omega arith)
  slice-splice_self (suc o) ys (x ∷ xs) h = slice-splice_self o ys xs (omega arith)

  slice-overwrite :
      (o n : ℕ) (ys xs : List A) → length ys ≤ o → slice o n (overwrite ys xs) ≡ slice o n xs
  slice-overwrite o n ys [] h = refl
  slice-overwrite o n [] (x ∷ xs) h = refl
  slice-overwrite zero n (y ∷ ys) (x ∷ xs) h = absurd (omega arith)
  slice-overwrite (suc o) n (y ∷ ys) (x ∷ xs) h = slice-overwrite o n ys xs (omega arith)

  -- A range behind what was written, or before it, is as it was.
  pub slice-splice_after :
      (o n p : ℕ) (ys xs : List A) → p + length ys ≤ o → slice o n (splice p ys xs) ≡ slice o n xs
  slice-splice_after o n zero ys xs h = slice-overwrite o n ys xs (omega arith)
  slice-splice_after zero n (suc p) ys xs h = absurd (omega arith)
  slice-splice_after (suc o) n (suc p) ys [] h = refl
  slice-splice_after (suc o) n (suc p) ys (x ∷ xs) h = slice-splice_after o n p ys xs (omega arith)

  take-splice : (n p : ℕ) (ys xs : List A) → n ≤ p → take n (splice p ys xs) ≡ take n xs
  take-splice zero p ys xs h = refl
  take-splice (suc n) zero ys xs h = absurd (omega arith)
  take-splice (suc n) (suc p) ys [] h = refl
  take-splice (suc n) (suc p) ys (x ∷ xs) h = ap (◌∷◌ x) (take-splice n p ys xs (omega arith))

  pub slice-splice_before :
      (o n p : ℕ) (ys xs : List A) → o + n ≤ p → slice o n (splice p ys xs) ≡ slice o n xs
  slice-splice_before zero n p ys xs h = take-splice n p ys xs (omega arith)
  slice-splice_before (suc o) n zero ys xs h = absurd (omega arith)
  slice-splice_before (suc o) n (suc p) ys [] h = refl
  slice-splice_before (suc o) n (suc p) ys (x ∷ xs) h =
      slice-splice_before o n p ys xs (omega arith)

  take-append-slice : (n m : ℕ) (xs : List A) → take n xs ++ slice n m xs ≡ take (n + m) xs
  take-append-slice zero m xs = rw (add.zero m)
  take-append-slice (suc n) m [] = rw (add.suc n m)
  take-append-slice (suc n) m (x ∷ xs) = rw (add.suc n m) (ap (◌∷◌ x) (take-append-slice n m xs))

  -- Neighbouring ranges make one range.
  pub slice-append :
      (o n m : ℕ) (xs : List A) → slice o n xs ++ slice (o + n) m xs ≡ slice o (n + m) xs
  slice-append zero n m xs = rw (add.zero n) (take-append-slice n m xs)
  slice-append (suc o) n m [] = rw (add.suc o n)
  slice-append (suc o) n m (x ∷ xs) = rw (add.suc o n) (slice-append o n m xs)

  take-overwrite_inside :
      (n : ℕ) (ys xs : List A)
      → n ≤ length ys
      → length ys ≤ length xs
      → take n (overwrite ys xs) ≡ take n ys
  take-overwrite_inside zero ys xs h k = refl
  take-overwrite_inside (suc n) [] xs h k = absurd (omega arith)
  take-overwrite_inside (suc n) (y ∷ ys) [] h k = absurd (omega arith)
  take-overwrite_inside (suc n) (y ∷ ys) (x ∷ xs) h k =
      ap (◌∷◌ y) (take-overwrite_inside n ys xs (omega arith) (omega arith))

  -- A range inside what was copied to the front.
  pub slice-overwrite_inside :
      (o n : ℕ) (ys xs : List A)
      → o + n ≤ length ys
      → length ys ≤ length xs
      → slice o n (overwrite ys xs) ≡ slice o n ys
  slice-overwrite_inside zero n ys xs h k = take-overwrite_inside n ys xs (omega arith) k
  slice-overwrite_inside (suc o) n [] xs h k = absurd (omega arith)
  slice-overwrite_inside (suc o) n (y ∷ ys) [] h k = absurd (omega arith)
  slice-overwrite_inside (suc o) n (y ∷ ys) (x ∷ xs) h k =
      slice-overwrite_inside o n ys xs (omega arith) (omega arith)

  take-take : (n m : ℕ) (xs : List A) → n ≤ m → take n (take m xs) ≡ take n xs
  take-take zero m xs h = refl
  take-take (suc n) zero xs h = absurd (omega arith)
  take-take (suc n) (suc m) [] h = refl
  take-take (suc n) (suc m) (x ∷ xs) h = ap (◌∷◌ x) (take-take n m xs (omega arith))

  slice-take : (o n m : ℕ) (xs : List A) → o + n ≤ m → slice o n (take m xs) ≡ slice o n xs
  slice-take zero n m xs h = take-take n m xs (omega arith)
  slice-take (suc o) n zero xs h = absurd (omega arith)
  slice-take (suc o) n (suc m) [] h = refl
  slice-take (suc o) n (suc m) (x ∷ xs) h = slice-take o n m xs (omega arith)

  slice-nil : (o n : ℕ) → slice {A = A} o n [] ≡ []
  slice-nil zero zero = refl
  slice-nil zero (suc n) = refl
  slice-nil (suc o) n = refl

  -- A range of a range.
  pub slice-slice :
      (o n p m : ℕ) (xs : List A) → o + n ≤ m → slice o n (slice p m xs) ≡ slice (p + o) n xs
  slice-slice o n zero m xs h = rw (add.zero o) (slice-take o n m xs h)
  slice-slice o n (suc p) m [] h = rw (add.suc p o) (slice-nil o n)
  slice-slice o n (suc p) m (x ∷ xs) h = rw (add.suc p o) (slice-slice o n p m xs h)

  -- A write at an index, and then of the range behind it.
  pub splice-set :
      (o : ℕ) (y : A) (ys xs : List A) → splice (suc o) ys (set xs o y) ≡ splice o (y ∷ ys) xs
  splice-set zero y ys [] = refl
  splice-set zero y ys (x ∷ xs) = refl
  splice-set (suc o) y ys [] = refl
  splice-set (suc o) y ys (x ∷ xs) = ap (◌∷◌ x) (splice-set o y ys xs)

  pub splice-nil : (o : ℕ) (xs : List A) → splice o [] xs ≡ xs
  splice-nil zero [] = refl
  splice-nil zero (x ∷ xs) = refl
  splice-nil (suc o) [] = refl
  splice-nil (suc o) (x ∷ xs) = ap (◌∷◌ x) (splice-nil o xs)
