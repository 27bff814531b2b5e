-- ===== src/Heap/Format.antt =====
-- The slots of a new page of library/heap/src/lib.rs.
use cos_rs.Base.{
  ℕ, zero, suc, ◌+◌, ◌*◌, max, ◌≤◌, ◌<◌, ◌≡◌, refl, sym, subst, List, [], ◌∷◌, length, arith, store,
}
use cos_rs.Heap.{link_slots, head_size, size_class, free_count, at_index}

-- From a pointer the links lead through the slots to the null pointer.
abbrev pub Chain : (ℕ → ℕ) → ℕ → List ℕ → Type 0
Chain links first [] = first ≡ 0
Chain links first (slot ∷ rest) = (first ≡ slot) × Chain links (links slot) rest

-- Slots from a last one downwards.
abbrev pub Below : ℕ → List ℕ → Type 0
Below bound [] = Unit {0}
Below bound (slot ∷ rest) = (slot < bound) × Below bound rest

-- Each slot lies above the next, so that all of them are different.
abbrev pub Descending : List ℕ → Type 0
Descending [] = Unit {0}
Descending (slot ∷ rest) = Below slot rest × Descending rest

Below-weaken : (low high : ℕ) (l : List ℕ) → low ≤ high → Below low l → Below high l
Below-weaken low high [] h b = tt
Below-weaken low high (s ∷ rest) h b = (omega (arith, b.0), Below-weaken low high rest h b.1)

Chain-store :
    (links : ℕ → ℕ) (slot value first : ℕ) (l : List ℕ)
    → Below slot l
    → Chain links first l
    → Chain (store slot value links) first l
Chain-store links slot value first [] b c = c
Chain-store links slot value first (s ∷ rest) b c =
    let same : store slot value links s ≡ links s = let less = b.0 in ground arith in
    (
      c.0,
      subst (λ p. Chain (store slot value links) p rest) (sym same)
          (Chain-store links slot value (links s) rest b.1 c.1),
    )

-- The slots of `n` rounds, the last one first, before those linked already.
unfoldable pub slots_from : ℕ → ℕ → ℕ → List ℕ → List ℕ
slots_from zero class slot l = l
slots_from (suc n) class slot l = slots_from n class (slot + class) (slot ∷ l)

pub link_slots-Chain :
    (n fuel class limit slot : ℕ) (links : ℕ → ℕ) (first : ℕ) (l : List ℕ)
    → n ≤ fuel
    → 0 < class
    → limit ≤ slot + n * class
    → slot + n * class < limit + class
    → Below slot l
    → Chain links first l
    → let r = link_slots fuel class limit slot links first in
      Chain r.0 r.1 (slots_from n class slot l)
unfolding link_slots slots_from
link_slots-Chain zero zero class limit slot links first l enough pos low high b c = c
link_slots-Chain zero (suc fuel) class limit slot links first l enough pos low high b c =
    ground arith
link_slots-Chain (suc n) zero class limit slot links first l enough pos low high b c =
    absurd (omega arith)
link_slots-Chain (suc n) (suc fuel) class limit slot links first l enough pos low high b c =
    let here : store slot first links slot ≡ first = ground arith in
    let next =
      link_slots-Chain n fuel class limit (slot + class) (store slot first links) slot (slot ∷ l)
        (omega arith) pos (omega arith) (omega arith)
        (omega arith, Below-weaken slot (slot + class) l (omega arith) b)
        (
          refl,
          subst (λ p. Chain (store slot first links) p l) (sym here)
              (Chain-store links slot first first l b c),
        ) in
    let inside : slot < limit = omega arith in ground (arith, next)

-- A slot that begins behind the head of its page, ends in the page, and lies at a multiple of the
-- class from its start.
abbrev pub IsSlot : ℕ → ℕ → ℕ → Type 0
IsSlot page class slot =
    (page + head_size ≤ slot) × (slot + class ≤ page + 0x1000) × (k : ℕ) × (slot ≡ page + k * class)

abbrev pub Slots : ℕ → ℕ → List ℕ → Type 0
Slots page class [] = Unit {0}
Slots page class (s ∷ rest) = IsSlot page class s × Slots page class rest

pub slots_from-Slots :
    (page class n k slot : ℕ) (l : List ℕ)
    → page + head_size ≤ slot
    → slot ≡ page + k * class
    → slot + n * class ≤ page + 0x1000
    → Slots page class l
    → Slots page class (slots_from n class slot l)
unfolding slots_from
slots_from-Slots page class zero k slot l low at high all = all
slots_from-Slots page class (suc n) k slot l low at high all =
    slots_from-Slots page class n (suc k) (slot + class) (slot ∷ l) (omega arith) (omega arith)
      (omega arith) ((low, omega arith, k, at), all)

pub slots_from-Descending :
    (n class slot : ℕ) (l : List ℕ)
    → 0 < class
    → Below slot l
    → Descending l
    → Descending (slots_from n class slot l)
unfolding slots_from
slots_from-Descending zero class slot l pos below down = down
slots_from-Descending (suc n) class slot l pos below down =
    slots_from-Descending n class (slot + class) (slot ∷ l) pos
      (omega arith, Below-weaken slot (slot + class) l (omega arith) below) (below, down)

pub length-slots_from :
    (n class slot : ℕ) (l : List ℕ) → length (slots_from n class slot l) ≡ n + length l
unfolding slots_from
length-slots_from zero class slot l = omega arith
length-slots_from (suc n) class slot l =
    omega (arith, length-slots_from n class (slot + class) (slot ∷ l))

-- The classes fill a page behind its head.
pub class_lem :
    (index : ℕ)
    → index < 9
    → let class = size_class index in
      (0 < class)
      × (0 < free_count class)
      × (free_count class < 0x1000)
      × (head_size ≤ max class head_size)
      × (max class head_size + free_count class * class ≡ 0x1000)
      × (k : ℕ) × (max class head_size ≡ k * class)
unfolding at_index
class_lem zero h = (omega arith, omega arith, omega arith, omega arith, refl, 4, refl)
class_lem (suc zero) h = (omega arith, omega arith, omega arith, omega arith, refl, 2, refl)
class_lem (suc (suc zero)) h = (omega arith, omega arith, omega arith, omega arith, refl, 1, refl)
class_lem (suc (suc (suc zero))) h =
    (omega arith, omega arith, omega arith, omega arith, refl, 1, refl)
class_lem (suc (suc (suc (suc zero)))) h =
    (omega arith, omega arith, omega arith, omega arith, refl, 1, refl)
class_lem (suc (suc (suc (suc (suc zero))))) h =
    (omega arith, omega arith, omega arith, omega arith, refl, 1, refl)
class_lem (suc (suc (suc (suc (suc (suc zero)))))) h =
    (omega arith, omega arith, omega arith, omega arith, refl, 1, refl)
class_lem (suc (suc (suc (suc (suc (suc (suc zero))))))) h =
    (omega arith, omega arith, omega arith, omega arith, refl, 1, refl)
class_lem (suc (suc (suc (suc (suc (suc (suc (suc zero)))))))) h =
    (omega arith, omega arith, omega arith, omega arith, refl, 1, refl)
class_lem (suc (suc (suc (suc (suc (suc (suc (suc (suc index))))))))) h = absurd (omega arith)
