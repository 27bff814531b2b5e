-- ===== src/Fs/Name/Match.antt =====
-- `name_match_long` on the entries of a packed name.
use cos_rs.Base.{
  ℕ, zero, suc, ◌-◌, ◌≡◌, ◌↔◌, refl, sym, ap, ◌∙◌, subst, List, [], ◌∷◌, ◌++◌, All, ◌==◌, length,
  replicate, true, Bool-cases, inl, inr, arith, Option, none, some,
}
use cos_rs.Fs.Name.{
  DirectoryEntryLong, non_zeros, long_name, match_with_array, then_match, match_entries, at_end,
  name_match_long, pack_name,
}
use cos_rs.Fs.Name.Pack.{NonZero, Filled, non_zeros-Filled, non_zeros-append}
use cos_rs.Fs.Name.RoundTrip.{AllFilled, pack_name_lem}

-- Zeros only behind the rest.
abbrev IsPadded : List ℕ → Type 0
IsPadded [] = Unit
IsPadded (zero ∷ xs) = All (λ x. x ≡ 0) xs
IsPadded (suc x ∷ xs) = IsPadded xs

All-zero-split :
    (xs ys : List ℕ) → All (λ x. x ≡ 0) (xs ++ ys) → All (λ x. x ≡ 0) xs × All (λ x. x ≡ 0) ys
All-zero-split [] ys a = (tt, a)
All-zero-split (x ∷ xs) ys a = let r = All-zero-split xs ys a.1 in ((a.0, r.0), r.1)

IsPadded-zeros : (xs : List ℕ) → All (λ x. x ≡ 0) xs → IsPadded xs
IsPadded-zeros [] a = tt
IsPadded-zeros (zero ∷ xs) a = a.1
IsPadded-zeros (suc x ∷ xs) a = absurd (ground arith)

IsPadded-split : (xs ys : List ℕ) → IsPadded (xs ++ ys) → IsPadded xs × IsPadded ys
IsPadded-split [] ys p = (tt, p)
IsPadded-split (zero ∷ xs) ys p = let r = All-zero-split xs ys p in (r.0, IsPadded-zeros ys r.1)
IsPadded-split (suc x ∷ xs) ys p = IsPadded-split xs ys p

IsPadded-replicate : (ys : List ℕ) (n : ℕ) → All NonZero ys → IsPadded (ys ++ replicate n 0)
IsPadded-replicate [] zero a = tt
IsPadded-replicate [] (suc n) a = zeros n
  where
    zeros : (k : ℕ) → All {A = ℕ} (λ x. x ≡ 0) (replicate k 0)
    zeros zero = tt
    zeros (suc k) = (refl, zeros k)
IsPadded-replicate (zero ∷ ys) n a = absurd (a.0 refl)
IsPadded-replicate (suc y ∷ ys) n a = IsPadded-replicate ys n a.1

match-zeros :
    (iter xs : List ℕ) → All (λ x. x ≡ 0) xs → match_with_array iter (non_zeros xs) ≡ some iter
unfolding match_with_array
match-zeros iter [] a = refl
match-zeros iter (zero ∷ xs) a = match-zeros iter xs a.1
match-zeros iter (suc x ∷ xs) a = absurd (ground arith)

-- Behind the first zero nothing is compared, and nothing is there to compare.
match-non_zeros :
    (iter xs : List ℕ)
    → IsPadded xs
    → match_with_array iter xs ≡ match_with_array iter (non_zeros xs)
unfolding match_with_array
match-non_zeros iter [] p = refl
match-non_zeros iter (zero ∷ xs) p = sym (match-zeros iter xs p)
match-non_zeros [] (suc x ∷ xs) p = refl
match-non_zeros (c ∷ iter) (suc x ∷ xs) p = rw (match-non_zeros iter xs p) refl

match-append :
    (iter xs ys : List ℕ)
    → All NonZero xs
    → match_with_array iter (xs ++ ys) ≡ then_match (match_with_array iter xs) ys
unfolding match_with_array
match-append iter [] ys a = refl
match-append iter (zero ∷ xs) ys a = absurd (a.0 refl)
match-append [] (suc x ∷ xs) ys a = refl
match-append (c ∷ iter) (suc x ∷ xs) ys a = elim (Bool-cases (suc x == c)) [
  | inl e ↦ rw e (match-append iter xs ys a.1)
  | inr e ↦ rw e refl
]

All-non_zeros : (xs : List ℕ) → All NonZero (non_zeros xs)
All-non_zeros [] = tt
All-non_zeros (zero ∷ xs) = All-non_zeros xs
All-non_zeros (suc x ∷ xs) = (λ e. ground arith, All-non_zeros xs)

-- A whole match is equality.
match-at_end :
    (iter xs : List ℕ) → All NonZero xs → (at_end (match_with_array iter xs) ≡ true) ↔ (iter ≡ xs)
unfolding match_with_array
match-at_end [] [] a = ground arith
match-at_end (c ∷ iter) [] a = ground arith
match-at_end iter (zero ∷ xs) a = absurd (a.0 refl)
match-at_end [] (suc x ∷ xs) a = ground arith
match-at_end (c ∷ iter) (suc x ∷ xs) a = elim (Bool-cases (suc x == c)) [
  | inl e ↦ rw e (ground (arith, match-at_end iter xs a.1))
  | inr e ↦ rw e (ground arith)
]

then_match-non_zeros :
    (o : Option (List ℕ)) (xs : List ℕ)
    → IsPadded xs
    → then_match o xs ≡ then_match o (non_zeros xs)
then_match-non_zeros none xs p = refl
then_match-non_zeros (some iter) xs p = match-non_zeros iter xs p

then_match-append :
    (o : Option (List ℕ)) (xs ys : List ℕ)
    → All NonZero xs
    → then_match o (xs ++ ys) ≡ then_match (then_match o xs) ys
then_match-append none xs ys a = refl
then_match-append (some iter) xs ys a = match-append iter xs ys a

then_match-parts :
    (o : Option (List ℕ)) (xs ys : List ℕ)
    → IsPadded (xs ++ ys)
    → then_match (then_match o xs) ys ≡ then_match o (non_zeros (xs ++ ys))
then_match-parts o xs ys p =
    let both = IsPadded-split xs ys p in
    ap (λ r. then_match r ys) (then_match-non_zeros o xs both.0)
    ∙ then_match-non_zeros (then_match o (non_zeros xs)) ys both.1
    ∙ sym (then_match-append o (non_zeros xs) (non_zeros ys) (All-non_zeros xs))
    ∙ ap (then_match o) (sym (non_zeros-append xs ys))

-- The three parts of an entry are one comparison with what it holds.
match_entry :
    (o : Option (List ℕ)) (e : DirectoryEntryLong) (ys : List ℕ)
    → Filled e ys
    → then_match (then_match (then_match o e.name1) e.name2) e.name3 ≡ then_match o ys
match_entry o e ys f =
    let padded = subst IsPadded (sym f.units) (IsPadded-replicate ys (13 - length ys) f.non_zero) in
    let back = IsPadded-split e.name1 (e.name2 ++ e.name3) padded in
    then_match-parts (then_match o e.name1) e.name2 e.name3 back.1
    ∙ sym (then_match-non_zeros (then_match o e.name1) (e.name2 ++ e.name3) back.1)
    ∙ then_match-parts o e.name1 (e.name2 ++ e.name3) padded
    ∙ ap (then_match o) (non_zeros-Filled e ys f)

then_match-nil : (o : Option (List ℕ)) → then_match o [] ≡ o
unfolding match_with_array
then_match-nil none = refl
then_match-nil (some iter) = refl

match_entries_lem :
    (o : Option (List ℕ)) (long : List DirectoryEntryLong)
    → AllFilled long
    → match_entries o long ≡ then_match o (long_name long)
unfolding match_entries long_name
match_entries_lem o [] a = sym (then_match-nil o)
match_entries_lem o (e ∷ long) ((ys, f), a) =
    let held = non_zeros-Filled e ys f in
    ap (λ r. match_entries r long) (match_entry o e ys f)
    ∙ match_entries_lem (then_match o ys) long a
    ∙ sym (then_match-append o ys (long_name long) f.non_zero)
    ∙ ap (λ u. then_match o (u ++ long_name long)) (sym held)

-- For a name without NUL units, name_match_long of the long entries that new makes of it accepts
-- exactly this name.
pub name_match_long-pack_name :
    (utf16 other : List ℕ)
    → All NonZero utf16
    → (name_match_long (pack_name utf16) other ≡ true) ↔ (other ≡ utf16)
unfolding name_match_long
name_match_long-pack_name utf16 other a =
    let packed = pack_name_lem utf16 a in
    let whole =
      match_entries_lem (some other) (pack_name utf16) packed.0
      ∙ ap (match_with_array other) packed.1 in
    rw whole (match-at_end other utf16 a)

-- The text that `name_to_string` reads back.
pub name_to_string-pack_name :
    (utf16 : List ℕ) → All NonZero utf16 → long_name (pack_name utf16) ≡ utf16
name_to_string-pack_name utf16 a = (pack_name_lem utf16 a).1
