-- ===== src/Locks/Spsc/Slots.antt =====
-- A range of a ring of slots that holds a list of values.
use native.Mathlib.Nat.{div-add-mod}
use cos_rs.Base.{
  ℕ, zero, suc, ◌+◌, ◌*◌, ◌/◌, ◌%◌, ◌≤◌, ◌<◌, ◌≡◌, ◌≢◌, refl, sym, ◌∙◌, subst, Option, some, List,
  [], ◌∷◌, ◌++◌, length, get_elem?, set, get_elem?-set_ne, arith,
}

gap : (n p q : ℕ) → n * p < n * q → n * p + n ≤ n * q
gap n p zero h = absurd (omega arith)
gap n zero (suc q) h = omega arith
gap n (suc p) (suc q) h = omega (arith, gap n p q (omega arith))

-- Two indices that are less than a round apart are different slots.
pub mod_ne : (a b n : ℕ) → a < b → b < a + n → a % n ≢ b % n
mod_ne a b n low high same = absurd (
    omega (
      arith,
      div-add-mod a n,
      div-add-mod b n,
      gap n (a / n) (b / n) (omega (arith, div-add-mod a n, div-add-mod b n)),
    ))

module _ {A : Type 0} where
  pub get_elem?-lt : (xs : List A) (i : ℕ) → i < length xs → (a : A) × (get_elem? xs i ≡ some a)
  get_elem?-lt [] i h = absurd (omega arith)
  get_elem?-lt (x ∷ xs) zero h = (x, refl)
  get_elem?-lt (x ∷ xs) (suc i) h = get_elem?-lt xs i (omega arith)

  -- The slots from an index hold the values.
  abbrev pub Holds : List (Option A) → ℕ → ℕ → List A → Type 0
  Holds buffer size index [] = Unit {0}
  Holds buffer size index (a ∷ vs) =
      (get_elem? buffer (index % size) ≡ some (some a)) × Holds buffer size (suc index) vs

  -- A slot behind the range or before it is none of the range.
  pub Holds-set_behind :
      (buffer : List (Option A)) (size index at : ℕ) (v : Option A) (vs : List A)
      → index + length vs ≤ at
      → at < index + size
      → Holds buffer size index vs
      → Holds (set buffer (at % size) v) size index vs
  Holds-set_behind buffer size index at v [] low high h = tt
  Holds-set_behind buffer size index at v (a ∷ vs) low high h = (
    get_elem?-set_ne buffer (at % size) (index % size) v
          (λ e. mod_ne index at size (omega arith) high (sym e))
        ∙ h.0,
    Holds-set_behind buffer size (suc index) at v vs (omega arith) (omega arith) h.1,
  )

  pub Holds-set_before :
      (buffer : List (Option A)) (size index at : ℕ) (v : Option A) (vs : List A)
      → at < index
      → index + length vs ≤ at + size
      → Holds buffer size index vs
      → Holds (set buffer (at % size) v) size index vs
  Holds-set_before buffer size index at v [] low high h = tt
  Holds-set_before buffer size index at v (a ∷ vs) low high h = (
    get_elem?-set_ne buffer (at % size) (index % size) v (mod_ne at index size low (omega arith))
        ∙ h.0,
    Holds-set_before buffer size (suc index) at v vs (omega arith) (omega arith) h.1,
  )

  pub Holds-snoc :
      (buffer : List (Option A)) (size index at : ℕ) (a : A) (vs : List A)
      → at ≡ index + length vs
      → get_elem? buffer (at % size) ≡ some (some a)
      → Holds buffer size index vs
      → Holds buffer size index (vs ++ a ∷ [])
  Holds-snoc buffer size index at a [] e g h =
      (subst (λ k. get_elem? buffer (k % size) ≡ some (some a)) (omega arith) g, tt)
  Holds-snoc buffer size index at a (b ∷ vs) e g h =
      (h.0, Holds-snoc buffer size (suc index) at a vs (omega arith) g h.1)
