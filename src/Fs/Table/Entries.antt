-- ===== src/Fs/Table/Entries.antt =====
-- Entries of the table in the bytes of a sector: little-endian numbers at an offset.
use Prim.Native.Nat.add
use cos_rs.Base.{
  ℕ, zero, suc, ◌+◌, ◌*◌, ◌^◌, ◌≤◌, ◌<◌, ◌≡◌, ◌≢◌, refl, sym, ap, ap₂, ◌∙◌, List, [], ◌∷◌, length,
  get_or, slice, take, slice-splice_self, slice-splice_before, slice-splice_after, length-splice,
  inl, inr, Bool-cases, ltb, ltb→lt, ltb→le, arith,
}
use cos_rs.Elf.File.{le_at}
use cos_rs.Fs.Types.{le_bytes}
use cos_rs.Fs.Table.{entry_in, put_entry}

get_or-take : (n i : ℕ) (xs : List ℕ) → i < n → get_or (take n xs) i 0 ≡ get_or xs i 0
get_or-take zero i xs h = absurd (omega arith)
get_or-take (suc n) i [] h = refl
get_or-take (suc n) zero (x ∷ xs) h = refl
get_or-take (suc n) (suc i) (x ∷ xs) h = get_or-take n i xs (omega arith)

pub get_or-slice :
    (o n i : ℕ) (xs : List ℕ) → i < n → get_or (slice o n xs) i 0 ≡ get_or xs (o + i) 0
get_or-slice zero n i xs h = rw (add.zero i) (get_or-take n i xs h)
get_or-slice (suc o) n i [] h = refl
get_or-slice (suc o) n i (x ∷ xs) h = rw (add.suc o i) (get_or-slice o n i xs h)

le_at-inside :
    (k o n i : ℕ) (xs : List ℕ) → i + k ≤ n → le_at k i (slice o n xs) ≡ le_at k (o + i) xs
le_at-inside zero o n i xs h = refl
le_at-inside (suc k) o n i xs h =
    let here = get_or-slice o n i xs (omega arith) in
    let rest = le_at-inside k o n (i + 1) xs (omega arith) in
    let next : o + (i + 1) ≡ o + i + 1 = omega arith in
    ap₂ (λ a b. a + 2 ^ 8 * b) here (rest ∙ ap (λ p. le_at k p xs) next)

-- A number is read from its own bytes.
pub le_at-slice : (k o : ℕ) (xs : List ℕ) → le_at k o xs ≡ le_at k 0 (slice o k xs)
le_at-slice k o xs =
    let whole : o + 0 ≡ o = omega arith in
    sym (le_at-inside k o k 0 xs (omega arith) ∙ ap (λ p. le_at k p xs) whole)

le_at-le_bytes : (e : ℕ) → e < 2 ^ 32 → le_at 4 0 (le_bytes 4 e) ≡ e
le_at-le_bytes e h = omega arith

pub length-put_entry : (buffer : List ℕ) (o e : ℕ) → length (put_entry buffer o e) ≡ length buffer
length-put_entry buffer o e = length-splice (4 * o) (le_bytes 4 e) buffer

pub entry_in-put_entry_self :
    (buffer : List ℕ) (o e : ℕ)
    → e < 2 ^ 32
    → 4 * o + 4 ≤ length buffer
    → entry_in (put_entry buffer o e) o ≡ e
entry_in-put_entry_self buffer o e h fits =
    le_at-slice 4 (4 * o) (put_entry buffer o e)
    ∙ ap (le_at 4 0) (slice-splice_self (4 * o) (le_bytes 4 e) buffer fits)
    ∙ le_at-le_bytes e h

slice-put_entry_ne :
    (buffer : List ℕ) (o p e : ℕ)
    → o ≢ p
    → slice (4 * p) 4 (put_entry buffer o e) ≡ slice (4 * p) 4 buffer
slice-put_entry_ne buffer o p e n = elim (Bool-cases (ltb o p)) [
  | inl h ↦ slice-splice_after (4 * p) 4 (4 * o) (le_bytes 4 e) buffer (omega (arith, ltb→lt o p h))
  | inr h ↦
      slice-splice_before (4 * p) 4 (4 * o) (le_bytes 4 e) buffer (omega (arith, ltb→le o p h))
]

pub entry_in-put_entry_ne :
    (buffer : List ℕ) (o p e : ℕ) → o ≢ p → entry_in (put_entry buffer o e) p ≡ entry_in buffer p
entry_in-put_entry_ne buffer o p e n =
    le_at-slice 4 (4 * p) (put_entry buffer o e)
    ∙ ap (le_at 4 0) (slice-put_entry_ne buffer o p e n)
    ∙ sym (le_at-slice 4 (4 * p) buffer)
