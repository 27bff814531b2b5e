-- ===== src/Base/Bits.antt =====
-- The native `bit_and` at masks.
use Prim.Native.Nat.{
  ℕ, zero, suc, ◌+◌, ◌*◌, ◌/◌, ◌%◌, ◌^◌, ◌≤◌, ◌<◌, min, digits, bit_and, bit_and-bitwise,
}
use mathlib.Core.Path.{◌≡◌, refl, ap, ◌∙◌}
use native.Mathlib.Omega.{arith}
use native.Mathlib.Nat.{le_refl}

-- The number with `k` binary ones, and the lowest `k` binary digits of a number.
abbrev ones : ℕ → ℕ
ones zero = 0
ones (suc k) = ones k * 2 + 1

abbrev low : ℕ → ℕ → ℕ
low zero a = 0
low (suc k) a = low k (a / 2) * 2 + a % 2

low_zero : (k : ℕ) → low k 0 ≡ 0
low_zero zero = refl
low_zero (suc k) = omega (arith, low_zero k)

abbrev and_digits : ℕ → ℕ → ℕ → ℕ
and_digits = digits (λ b. 0) min

and_digits_nil : (n a : ℕ) → and_digits n a 0 ≡ 0
and_digits_nil zero a = refl
and_digits_nil (suc n) zero = refl
and_digits_nil (suc n) (suc a) = omega (arith, and_digits_nil n (suc a / 2))

and_digits-ones : (n k a : ℕ) → a ≤ n → and_digits n a (ones k) ≡ low k a
and_digits-ones zero k zero h = omega (arith, low_zero k)
and_digits-ones zero k (suc a) h = absurd (omega arith)
and_digits-ones (suc n) k zero h = omega (arith, low_zero k)
and_digits-ones (suc n) zero (suc a) h = and_digits_nil (suc n) (suc a)
and_digits-ones (suc n) (suc k) (suc a) h =
    let half : (ones k * 2 + 1) / 2 ≡ ones k = omega arith in
    let odd : (ones k * 2 + 1) % 2 ≡ 1 = omega arith in
    rw (half, odd) (omega (arith, and_digits-ones n k (suc a / 2) (omega arith)))

and_digits_le : (n a b : ℕ) → and_digits n a b ≤ b
and_digits_le zero a b = omega arith
and_digits_le (suc n) zero b = omega arith
and_digits_le (suc n) (suc a) b = omega (arith, and_digits_le n (suc a / 2) (b / 2))

pub bit_and_le : (a b : ℕ) → bit_and a b ≤ b
bit_and_le a b = simp bit_and-bitwise (and_digits_le a a b)

low_page : (a : ℕ) → low 12 a ≡ a % 0x1000
low_page a = omega arith

-- The offset in a page.
pub bit_and_page : (a : ℕ) → bit_and a 0xfff ≡ a % 0x1000
bit_and_page a = simp bit_and-bitwise (and_digits-ones a 12 a (le_refl a) ∙ low_page a)

-- The number with `j` binary ones above `k` zeros, and the digits of a number that it keeps.
abbrev high_ones : ℕ → ℕ → ℕ
high_ones zero j = ones j
high_ones (suc k) j = high_ones k j * 2

abbrev high : ℕ → ℕ → ℕ → ℕ
high zero j a = low j a
high (suc k) j a = high k j (a / 2) * 2

high_zero : (k j : ℕ) → high k j 0 ≡ 0
high_zero zero j = low_zero j
high_zero (suc k) j = omega (arith, high_zero k j)

and_digits-high : (n k j a : ℕ) → a ≤ n → and_digits n a (high_ones k j) ≡ high k j a
and_digits-high n zero j a h = and_digits-ones n j a h
and_digits-high zero (suc k) j zero h = omega (arith, high_zero k j)
and_digits-high zero (suc k) j (suc a) h = absurd (omega arith)
and_digits-high (suc n) (suc k) j zero h = omega (arith, high_zero k j)
and_digits-high (suc n) (suc k) j (suc a) h =
    let half : high_ones k j * 2 / 2 ≡ high_ones k j = omega arith in
    let even : high_ones k j * 2 % 2 ≡ 0 = omega arith in
    rw (half, even) (omega (arith, and_digits-high n k j (suc a / 2) (omega arith)))

low-all : (k a : ℕ) → a ≤ ones k → low k a ≡ a
low-all zero a h = omega arith
low-all (suc k) a h = omega (arith, low-all k (a / 2) (omega arith))

abbrev halves : ℕ → ℕ → ℕ
halves zero a = a
halves (suc k) a = halves k (a / 2)

abbrev twice : ℕ → ℕ → ℕ
twice zero a = a
twice (suc k) a = twice k a * 2

high-twice : (k j a : ℕ) → high k j a ≡ twice k (low j (halves k a))
high-twice zero j a = refl
high-twice (suc k) j a = omega (arith, high-twice k j (a / 2))

halves_page : (a : ℕ) → halves 12 a ≡ a / 0x1000
halves_page a = omega arith

twice_page : (a : ℕ) → twice 12 a ≡ a * 0x1000
twice_page a = omega arith

high_page : (a : ℕ) → a < 2 ^ 64 → high 12 52 a ≡ a / 0x1000 * 0x1000
high_page a h =
    high-twice 12 52 a
    ∙ ap (twice 12) (ap (low 52) (halves_page a) ∙ low-all 52 (a / 0x1000) (omega arith))
    ∙ twice_page (a / 0x1000)

-- The page of a 64-bit address.
pub bit_and_frame : (a : ℕ) → a < 2 ^ 64 → bit_and a 0xfffffffffffff000 ≡ a / 0x1000 * 0x1000
bit_and_frame a h = simp bit_and-bitwise (and_digits-high a 12 52 a (le_refl a) ∙ high_page a h)
