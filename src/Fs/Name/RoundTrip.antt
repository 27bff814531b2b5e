-- ===== src/Fs/Name/RoundTrip.antt =====
-- A name that was packed into long entries and read again.
use cos_rs.Base.{
  ℕ, ◌+◌, ◌<◌, ◌≡◌, refl, sym, ap, ◌∙◌, subst, List, [], ◌∷◌, ◌++◌, length, All, append_assoc,
  append-nil, length-append, ◌%◌, ◌^◌, ◌==◌, Bool-cases, inl, inr, arith, none, some,
}
use cos_rs.Fs.Name.{
  DirectoryEntryLong, blank_long, Packing, put_unit, put_char, pack_char, pack_chars, close_packing,
  pack_name, long_name,
}
use cos_rs.Fs.Name.Pack.{
  NonZero, Filled, Packed, between, within, Filled-put_unit, Filled-blank, long_name-snoc, All-last,
}

-- Every entry of a list is filled from its front.
abbrev pub AllFilled : List DirectoryEntryLong → Type 0
AllFilled long = All (λ e. (ys : List ℕ) × Filled e ys) long

Packed-put_char :
    (long : List DirectoryEntryLong) (e : DirectoryEntryLong) (ys xs : List ℕ) (ch : ℕ)
    → AllFilled long
    → Filled e ys
    → length ys < 13
    → NonZero ch
    → long_name long ++ ys ≡ xs
    → Packed (put_char long e (length ys) ch) (xs ++ ch ∷ [])
unfolding put_char
Packed-put_char long e ys xs ch a f less n units =
    let f' = Filled-put_unit e ys ch f less n in
    let grown : long_name long ++ (ys ++ ch ∷ []) ≡ xs ++ ch ∷ [] =
      sym (append_assoc (long_name long) ys (ch ∷ [])) ∙ ap (λ u. u ++ ch ∷ []) units in
    elim (Bool-cases (length ys + 1 == 13)) [
      | inl t ↦ rw t (
          between (All-last long (put_unit e (length ys) ch) (ys ++ ch ∷ []) a f')
            (long_name-snoc long (put_unit e (length ys) ch) (ys ++ ch ∷ []) f' ∙ grown))
      | inr t ↦
          let long_one = length-append ys (ch ∷ []) in
          let at : length (ys ++ ch ∷ []) ≡ length ys + 1 = long_one in
          rw t (
            subst
              (λ k.
                Packed
                  (record { long = long; current_long = some (put_unit e (length ys) ch); i = k })
                  (xs ++ ch ∷ []))
              at (within a f' (ground arith) grown))
    ]

Packed-pack_char :
    (p : Packing) (xs : List ℕ) (ch : ℕ)
    → Packed p xs
    → NonZero ch
    → Packed (pack_char p ch) (xs ++ ch ∷ [])
unfolding pack_char
Packed-pack_char p xs ch (between {long = long} a e) n =
    Packed-put_char long (blank_long (length long % 2 ^ 8)) [] xs ch a
      (Filled-blank (length long % 2 ^ 8)) (omega arith) n (append-nil (long_name long) ∙ e)
Packed-pack_char p xs ch (within {long = long} {e = e} {ys = ys} a f less u) n =
    Packed-put_char long e ys xs ch a f less n u

Packed-pack_chars :
    (p : Packing) (xs ys : List ℕ)
    → Packed p xs
    → All NonZero ys
    → Packed (pack_chars p ys) (xs ++ ys)
unfolding pack_chars
Packed-pack_chars p xs [] k a = subst (Packed p) (sym (append-nil xs)) k
Packed-pack_chars p xs (ch ∷ ys) k a =
    subst (Packed (pack_chars (pack_char p ch) ys)) (append_assoc xs (ch ∷ []) ys)
      (Packed-pack_chars (pack_char p ch) (xs ++ ch ∷ []) ys (Packed-pack_char p xs ch k a.0) a.1)

Packed-close :
    (p : Packing) (xs : List ℕ)
    → Packed p xs
    → AllFilled (close_packing p) × (long_name (close_packing p) ≡ xs)
Packed-close p xs (between a e) = (a, e)
Packed-close p xs (within {long = long} {e = e} {ys = ys} a f less u) =
    (All-last long e ys a f, long_name-snoc long e ys f ∙ u)

-- The entries of a name are filled, and the name is in them.
pub pack_name_lem :
    (utf16 : List ℕ)
    → All NonZero utf16
    → AllFilled (pack_name utf16) × (long_name (pack_name utf16) ≡ utf16)
unfolding pack_name long_name
pack_name_lem utf16 a =
    let start : Packing = record { long = []; current_long = none; i = 0 } in
    Packed-close (pack_chars start utf16) utf16
      (Packed-pack_chars start [] utf16 (between tt refl) a)
