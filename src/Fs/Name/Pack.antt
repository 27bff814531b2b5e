-- ===== src/Fs/Name/Pack.antt =====
-- The long entries that `Fat32FileMetadata::new` makes of a name.
use cos_rs.Base.{
  ℕ, zero, suc, ◌-◌, ◌≤◌, ◌<◌, ◌≡◌, ◌≢◌, refl, sym, ap, ap₂, ◌∙◌, List, [], ◌∷◌, ◌++◌, length, set,
  replicate, append_assoc, append-nil, All, ltb, Bool-cases, inl, inr, arith, none, some,
  length-append, length-set,
}
use cos_rs.Fs.Name.{
  DirectoryEntryLong, name1_len, name2_len, name3_len, blank_long, Packing, put_unit, units_of,
  non_zeros, long_name,
}

abbrev pub NonZero : ℕ → Type 0
NonZero x = x ≢ 0

set-append_left : (xs ys : List ℕ) (i v : ℕ) → i < length xs → set (xs ++ ys) i v ≡ set xs i v ++ ys
set-append_left [] ys i v h = absurd (omega arith)
set-append_left (x ∷ xs) ys zero v h = refl
set-append_left (x ∷ xs) ys (suc i) v h = ap (◌∷◌ x) (set-append_left xs ys i v (omega arith))

set-append_right :
    (xs ys : List ℕ) (i v : ℕ) → length xs ≤ i → set (xs ++ ys) i v ≡ xs ++ set ys (i - length xs) v
set-append_right [] ys i v h = ap (λ k. set ys k v) (omega arith)
set-append_right (x ∷ xs) ys zero v h = absurd (omega arith)
set-append_right (x ∷ xs) ys (suc i) v h =
    ap (◌∷◌ x) (set-append_right xs ys i v (omega arith) ∙ ap (λ k. xs ++ set ys k v) (omega arith))

-- An entry with `ys` in front and zeros behind.
pub record Filled (e : DirectoryEntryLong) (ys : List ℕ) : Type 0 where
  pub len1 : length e.name1 ≡ name1_len
  pub len2 : length e.name2 ≡ name2_len
  pub len3 : length e.name3 ≡ name3_len
  pub units : units_of e ≡ ys ++ replicate (13 - length ys) 0
  pub short_enough : length ys ≤ 13
  pub non_zero : All NonZero ys

units-put_unit :
    (e : DirectoryEntryLong) (i ch : ℕ)
    → length e.name1 ≡ 5
    → length e.name2 ≡ 6
    → units_of (put_unit e i ch) ≡ set (units_of e) i ch
unfolding put_unit
units-put_unit e i ch h k = elim (Bool-cases (ltb i 5)) [
  | inl t ↦ rw t (sym (set-append_left e.name1 (e.name2 ++ e.name3) i ch (ground arith)))
  | inr t ↦
      let outer = set-append_right e.name1 (e.name2 ++ e.name3) i ch (ground arith) in
      let back : i - length e.name1 ≡ i - 5 = omega arith in
      elim (Bool-cases (ltb i 11)) [
        | inl s ↦
            rw (t, s)
              (sym (
                outer
                ∙ ap (λ k. e.name1 ++ set (e.name2 ++ e.name3) k ch) back
                ∙ ap (◌++◌ e.name1) (set-append_left e.name2 e.name3 (i - 5) ch (ground arith))))
        | inr s ↦
            let back2 : i - 5 - length e.name2 ≡ i - 5 - 6 = omega arith in
            rw (t, s)
              (sym (
                outer
                ∙ ap (λ k. e.name1 ++ set (e.name2 ++ e.name3) k ch) back
                ∙ ap (◌++◌ e.name1) (
                    set-append_right e.name2 e.name3 (i - 5) ch (ground arith)
                    ∙ ap (λ k. e.name2 ++ set e.name3 k ch) back2)))
      ]
]

-- The unit behind what is filled, with the zero that it replaces.
set-zeros :
    (ys : List ℕ) (n ch : ℕ)
    → set (ys ++ replicate (suc n) 0) (length ys) ch ≡ (ys ++ ch ∷ []) ++ replicate n 0
set-zeros [] n ch = refl
set-zeros (y ∷ ys) n ch = ap (◌∷◌ y) (set-zeros ys n ch)

All-snoc : (ys : List ℕ) (ch : ℕ) → All NonZero ys → NonZero ch → All NonZero (ys ++ ch ∷ [])
All-snoc [] ch a n = (n, tt)
All-snoc (y ∷ ys) ch a n = (a.0, All-snoc ys ch a.1 n)

put_unit-lengths :
    (e : DirectoryEntryLong) (i ch : ℕ)
    → (length (put_unit e i ch).name1 ≡ length e.name1)
      × (length (put_unit e i ch).name2 ≡ length e.name2)
      × (length (put_unit e i ch).name3 ≡ length e.name3)
unfolding put_unit
put_unit-lengths e i ch = (
  ground (arith, length-set e.name1 i ch),
  ground (arith, length-set e.name2 (i - name1_len) ch),
  ground (arith, length-set e.name3 (i - name1_len - name2_len) ch),
)

pub Filled-put_unit :
    (e : DirectoryEntryLong) (ys : List ℕ) (ch : ℕ)
    → Filled e ys
    → length ys < 13
    → NonZero ch
    → Filled (put_unit e (length ys) ch) (ys ++ ch ∷ [])
Filled-put_unit e ys ch f less n =
    let l = put_unit-lengths e (length ys) ch in
    let room : 13 - length ys ≡ suc (12 - length ys) = omega arith in
    let long = length-append ys (ch ∷ []) in
    let left : 12 - length ys ≡ 13 - length (ys ++ ch ∷ []) = omega (arith, long) in
    record {
      len1 = l.0 ∙ f.len1;
      len2 = l.1 ∙ f.len2;
      len3 = l.2 ∙ f.len3;
      units =
          units-put_unit e (length ys) ch f.len1 f.len2
          ∙ ap (λ u. set u (length ys) ch) (f.units ∙ ap (λ k. ys ++ replicate k 0) room)
          ∙ set-zeros ys (12 - length ys) ch
          ∙ ap (λ k. (ys ++ ch ∷ []) ++ replicate k 0) left;
      short_enough = omega (arith, long);
      non_zero = All-snoc ys ch f.non_zero n;
    }

pub Filled-blank : (order : ℕ) → Filled (blank_long order) []
Filled-blank order = record {
  len1 = refl;
  len2 = refl;
  len3 = refl;
  units = refl;
  short_enough = omega arith;
  non_zero = tt;
}

-- The state of the loop after the units `xs`: full entries, and one that is partly filled.
pub data Packed : Packing → List ℕ → Type 0 where
  between :
      {long : List DirectoryEntryLong} {i : ℕ} {xs : List ℕ}
      → All (λ e. (ys : List ℕ) × Filled e ys) long
      → long_name long ≡ xs
      → Packed (record { long = long; current_long = none; i = i }) xs
  within :
      {long : List DirectoryEntryLong} {e : DirectoryEntryLong} {xs ys : List ℕ}
      → All (λ e. (ys : List ℕ) × Filled e ys) long
      → Filled e ys
      → length ys < 13
      → long_name long ++ ys ≡ xs
      → Packed (record { long = long; current_long = some e; i = length ys }) xs

pub non_zeros-append : (xs ys : List ℕ) → non_zeros (xs ++ ys) ≡ non_zeros xs ++ non_zeros ys
non_zeros-append [] ys = refl
non_zeros-append (zero ∷ xs) ys = non_zeros-append xs ys
non_zeros-append (suc x ∷ xs) ys = ap (◌∷◌ (suc x)) (non_zeros-append xs ys)

non_zeros-zeros : (n : ℕ) → non_zeros (replicate n 0) ≡ []
non_zeros-zeros zero = refl
non_zeros-zeros (suc n) = non_zeros-zeros n

non_zeros-all : (xs : List ℕ) → All NonZero xs → non_zeros xs ≡ xs
non_zeros-all [] a = refl
non_zeros-all (zero ∷ xs) a = absurd (a.0 refl)
non_zeros-all (suc x ∷ xs) a = ap (◌∷◌ (suc x)) (non_zeros-all xs a.1)

-- The units of an entry without its zeros.
pub non_zeros-Filled :
    (e : DirectoryEntryLong) (ys : List ℕ) → Filled e ys → non_zeros (units_of e) ≡ ys
non_zeros-Filled e ys f =
    ap non_zeros f.units
    ∙ non_zeros-append ys (replicate (13 - length ys) 0)
    ∙ ap₂ ◌++◌ (non_zeros-all ys f.non_zero) (non_zeros-zeros (13 - length ys))
    ∙ append-nil ys

pub long_name-snoc :
    (long : List DirectoryEntryLong) (e : DirectoryEntryLong) (ys : List ℕ)
    → Filled e ys
    → long_name (long ++ e ∷ []) ≡ long_name long ++ ys
unfolding long_name
long_name-snoc [] e ys f = append-nil (non_zeros (units_of e)) ∙ non_zeros-Filled e ys f
long_name-snoc (l ∷ long) e ys f =
    ap (◌++◌ (non_zeros (units_of l))) (long_name-snoc long e ys f)
    ∙ sym (append_assoc (non_zeros (units_of l)) (long_name long) ys)

pub All-last :
    (long : List DirectoryEntryLong) (e : DirectoryEntryLong) (ys : List ℕ)
    → All (λ e. (ys : List ℕ) × Filled e ys) long
    → Filled e ys
    → All (λ e. (ys : List ℕ) × Filled e ys) (long ++ e ∷ [])
All-last [] e ys a f = ((ys, f), tt)
All-last (l ∷ long) e ys a f = (a.0, All-last long e ys a.1 f)
