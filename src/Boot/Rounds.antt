-- ===== src/Boot/Rounds.antt =====
-- The loop over steps 3 and 4 of bootloader/src/memory.rs.
use cos_rs.Base.{
  ℕ, ◌+◌, ◌-◌, ◌≤◌, ◌<◌, ◌≡◌, inl, inr, refl, false, List, [], ◌∷◌, length, if◌then◌else◌, arith,
}
use cos_rs.Kernel.Frames.{MemoryRegion}
use cos_rs.Boot.{type_reserved, end_addr, resolve_from, resolve, remove_empty}
use cos_rs.Boot.Total.{total, hit, beyond, room, Sorted}
use cos_rs.Boot.Cut.{
  le_or_lt, end_addr_lem, hit-resolve_from, beyond-resolve_from, room-resolve_from,
  reserved-resolve_from,
}

-- From a bound on, each region ends before the next one.
abbrev pub Apart : ℕ → List MemoryRegion → Type 0
Apart low [] = Unit {0}
Apart low (r ∷ rest) = (low ≤ r.base_addr) × Apart (r.base_addr + r.length) rest

pub Apart-weaken : (low high : ℕ) (l : List MemoryRegion) → low ≤ high → Apart high l → Apart low l
Apart-weaken low high [] h p = tt
Apart-weaken low high (r ∷ rest) h p = (omega (arith, p.0), p.1)

pub Apart-resolve_from :
    (prev : MemoryRegion) (rest : List MemoryRegion)
    → beyond prev + total beyond rest ≡ 0
    → Sorted prev.base_addr rest
    → (resolve_from prev rest).1 ≡ false
    → Apart prev.base_addr (resolve_from prev rest).0
unfolding resolve_from
Apart-resolve_from prev [] h s still = (omega arith, tt)
Apart-resolve_from prev (cur ∷ rest) h s still =
    let later : (resolve_from cur rest).1 ≡ false = ground arith in
    let next = Apart-resolve_from cur rest (omega arith) s.1 later in
    let hp = end_addr_lem prev (omega arith) in
    let low = s.0 in
    let behind =
      Apart-weaken (prev.base_addr + prev.length) cur.base_addr (resolve_from cur rest).0 in
    let behind2 =
      Apart-weaken (prev.base_addr + (prev.length - (end_addr prev - cur.base_addr))) cur.base_addr
        (resolve_from cur rest).0 in
    ground (arith, behind, behind2)

pub Apart-Sorted : (low : ℕ) (l : List MemoryRegion) → Apart low l → Sorted low l
Apart-Sorted low [] p = tt
Apart-Sorted low (r ∷ rest) p =
    (p.0, Apart-Sorted r.base_addr rest (Apart-weaken r.base_addr _ rest (omega arith) p.1))

pub Apart-remove_empty :
    (low : ℕ) (l : List MemoryRegion) → Apart low l → Apart low (remove_empty l)
unfolding remove_empty
Apart-remove_empty low [] p = tt
Apart-remove_empty low (r ∷ rest) p =
    let kept = Apart-remove_empty (r.base_addr + r.length) rest p.1 in
    let first = p.0 in
    let weak = Apart-weaken low (r.base_addr + r.length) (remove_empty rest) in ground (arith, weak)

-- What one round does to the sums over the regions.
pub record Shrinks (l q : List MemoryRegion) : Type 0 where
  pub inside : total beyond q ≡ 0
  pub no_more : (type a : ℕ) → total (hit type a) q ≤ total (hit type a) l
  pub reserved_stays :
      (a : ℕ) → 0 < total (hit type_reserved a) l → 0 < total (hit type_reserved a) q

pub Shrinks-trans : (l m q : List MemoryRegion) → Shrinks l m → Shrinks m q → Shrinks l q
Shrinks-trans l m q x y = record {
  inside = y.inside;
  no_more = λ type a. omega (arith, x.no_more type a, y.no_more type a);
  reserved_stays = λ a found. y.reserved_stays a (x.reserved_stays a found);
}

hit-remove_empty :
    (type a : ℕ) (l : List MemoryRegion)
    → total (hit type a) (remove_empty l) ≡ total (hit type a) l
unfolding remove_empty
hit-remove_empty type a [] = refl
hit-remove_empty type a (r ∷ rest) = let more = hit-remove_empty type a rest in ground arith

beyond-remove_empty : (l : List MemoryRegion) → total beyond (remove_empty l) ≤ total beyond l
unfolding remove_empty
beyond-remove_empty [] = omega arith
beyond-remove_empty (r ∷ rest) = let more = beyond-remove_empty rest in ground arith

-- Each region that is removed frees room.
pub room-remove_empty :
    (l : List MemoryRegion)
    → total beyond l ≡ 0
    → (total room (remove_empty l) + length l ≤ total room l + length (remove_empty l))
      × (length (remove_empty l) ≤ length l)
unfolding remove_empty
room-remove_empty [] h = (omega arith, omega arith)
room-remove_empty (r ∷ rest) h =
    let more = room-remove_empty rest (omega arith) in
    let first : beyond r ≡ 0 = omega arith in ground arith

pub Shrinks-remove_empty : (l : List MemoryRegion) → total beyond l ≡ 0 → Shrinks l (remove_empty l)
Shrinks-remove_empty l h = record {
  inside = omega (arith, beyond-remove_empty l);
  no_more = λ type a. omega (arith, hit-remove_empty type a l);
  reserved_stays = λ a found. omega (arith, hit-remove_empty type_reserved a l);
}

pub Shrinks-resolve :
    (l : List MemoryRegion) → total beyond l ≡ 0 → Sorted 0 l → Shrinks l (resolve l).0
Shrinks-resolve [] h s = record {
  inside = refl;
  no_more = λ type a. omega arith;
  reserved_stays = λ a found. found;
}
Shrinks-resolve (r ∷ rest) h s = record {
  inside = beyond-resolve_from r rest h;
  no_more = λ type a. hit-resolve_from type a r rest h;
  reserved_stays = λ a found. elim (le_or_lt r.base_addr a) [
    | inl past ↦ reserved-resolve_from a r.base_addr r rest h s.1 (inl past) found
    | inr below ↦ reserved-resolve_from a r.base_addr r rest h s.1 (inr below) found
  ];
}

pub room-resolve :
    (l : List MemoryRegion)
    → total beyond l ≡ 0
    → total room (resolve l).0 + (if (resolve l).1 then 1 else 0) ≤ total room l
room-resolve [] h = omega arith
room-resolve (r ∷ rest) h = room-resolve_from r rest h

pub Apart-resolve :
    (l : List MemoryRegion)
    → total beyond l ≡ 0
    → Sorted 0 l
    → (resolve l).1 ≡ false
    → Apart 0 (resolve l).0
Apart-resolve [] h s still = tt
Apart-resolve (r ∷ rest) h s still =
    Apart-weaken 0 r.base_addr (resolve_from r rest).0 s.0 (Apart-resolve_from r rest h s.1 still)
