-- ===== src/Base/Joins.antt =====
-- Ranges across the join of two lists, and two writes side by side.
use Prim.Native.Nat.add
use Prim.Native.Nat.{ℕ, zero, suc, ◌+◌, ◌-◌, ◌≤◌}
use mathlib.Core.Path.{◌≡◌, refl, sym, ap, ◌∙◌}
use mathlib.Core.List.{List, [], ◌∷◌, ◌++◌}
use native.Mathlib.Omega.{arith}
use cos_rs.Base.Lists.{length, take}
use cos_rs.Base.Slices.{slice, overwrite, splice}

module _ {ℓ} {A : Type ℓ} where
  take-append_left : (n : ℕ) (xs ys : List A) → n ≤ length xs → take n (xs ++ ys) ≡ take n xs
  take-append_left zero xs ys h = refl
  take-append_left (suc n) [] ys h = absurd (omega arith)
  take-append_left (suc n) (x ∷ xs) ys h = ap (◌∷◌ x) (take-append_left n xs ys (omega arith))

  pub slice-append_left :
      (o n : ℕ) (xs ys : List A) → o + n ≤ length xs → slice o n (xs ++ ys) ≡ slice o n xs
  slice-append_left zero n xs ys h = take-append_left n xs ys (omega arith)
  slice-append_left (suc o) n [] ys h = absurd (omega arith)
  slice-append_left (suc o) n (x ∷ xs) ys h = slice-append_left o n xs ys (omega arith)

  pub slice-append_right :
      (o n : ℕ) (xs ys : List A) → length xs ≤ o → slice o n (xs ++ ys) ≡ slice (o - length xs) n ys
  slice-append_right o n [] ys h = ap (λ k. slice k n ys) (omega arith)
  slice-append_right zero n (x ∷ xs) ys h = absurd (omega arith)
  slice-append_right (suc o) n (x ∷ xs) ys h =
      slice-append_right o n xs ys (omega arith) ∙ ap (λ k. slice k n ys) (omega arith)

  take-append_across : (m : ℕ) (xs ys : List A) → take (length xs + m) (xs ++ ys) ≡ xs ++ take m ys
  take-append_across m [] ys = ap (λ k. take k ys) (omega arith)
  take-append_across m (x ∷ xs) ys =
      rw (add.suc (length xs) m) (ap (◌∷◌ x) (take-append_across m xs ys))

  take_whole : (xs : List A) → take (length xs) xs ≡ xs
  take_whole [] = refl
  take_whole (x ∷ xs) = ap (◌∷◌ x) (take_whole xs)

  pub slice-append_across :
      (o n m : ℕ) (xs ys : List A)
      → o + n ≡ length xs
      → slice o (n + m) (xs ++ ys) ≡ slice o n xs ++ slice 0 m ys
  slice-append_across zero n m xs ys h =
      let same : n ≡ length xs = omega arith in
      ap (λ k. take (k + m) (xs ++ ys)) same
      ∙ take-append_across m xs ys
      ∙ ap (λ u. u ++ take m ys) (sym (ap (λ k. take k xs) same ∙ take_whole xs))
  slice-append_across (suc o) n m [] ys h = absurd (omega arith)
  slice-append_across (suc o) n m (x ∷ xs) ys h = slice-append_across o n m xs ys (omega arith)

  overwrite-splice :
      (xs ys buf : List A) → splice (length xs) ys (overwrite xs buf) ≡ overwrite (xs ++ ys) buf
  overwrite-splice [] ys [] = refl
  overwrite-splice [] ys (b ∷ buf) = refl
  overwrite-splice (x ∷ xs) ys [] = refl
  overwrite-splice (x ∷ xs) ys (b ∷ buf) = ap (◌∷◌ x) (overwrite-splice xs ys buf)

  pub splice-append :
      (o : ℕ) (xs ys buf : List A)
      → splice (o + length xs) ys (splice o xs buf) ≡ splice o (xs ++ ys) buf
  splice-append zero xs ys buf =
      ap (λ k. splice k ys (overwrite xs buf)) (omega arith) ∙ overwrite-splice xs ys buf
  splice-append (suc o) xs ys [] = rw (add.suc o (length xs)) refl
  splice-append (suc o) xs ys (b ∷ buf) =
      rw (add.suc o (length xs)) (ap (◌∷◌ b) (splice-append o xs ys buf))
