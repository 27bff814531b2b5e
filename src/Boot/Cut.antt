-- ===== src/Boot/Cut.antt =====
-- Step 3 of bootloader/src/memory.rs: one pass over overlapping regions.
use native.Mathlib.Nat.{mod-eq_of_lt}
use cos_rs.Base.{
  ℕ, ◌+◌, ◌≤◌, ◌<◌, ◌≡◌, ◌⊎◌, inl, inr, refl, false, List, [], ◌∷◌, leb, if◌then◌else◌, Bool-cases,
  arith,
}
use cos_rs.Kernel.Frames.{MemoryRegion}
use cos_rs.Boot.{type_reserved, end_addr, cut_current, cut_previous, resolve_from}
use cos_rs.Boot.Total.{total, hit, beyond, room, Sorted}

pub end_addr_lem : (r : MemoryRegion) → beyond r ≡ 0 → end_addr r ≡ r.base_addr + r.length
end_addr_lem r h = mod-eq_of_lt (ground arith)

hit-cut_current :
    (type a : ℕ) (prev cur : MemoryRegion)
    → beyond prev ≡ 0
    → beyond cur ≡ 0
    → hit type a (cut_current prev cur) ≤ hit type a cur
hit-cut_current type a prev cur hp hc = ground (arith, end_addr_lem prev hp)

hit-cut_previous :
    (type a : ℕ) (prev cur : MemoryRegion) → hit type a (cut_previous prev cur) ≤ hit type a prev
hit-cut_previous type a prev cur = ground arith

beyond-cut_current :
    (prev cur : MemoryRegion) → beyond prev ≡ 0 → beyond cur ≡ 0 → beyond (cut_current prev cur) ≡ 0
beyond-cut_current prev cur hp hc = ground (arith, end_addr_lem prev hp)

-- What is in the part that is cut off a region is in the reserved region before it.
hit-split :
    (a : ℕ) (prev cur : MemoryRegion)
    → beyond prev ≡ 0
    → beyond cur ≡ 0
    → prev.region_type ≡ type_reserved
    → prev.base_addr ≤ a
    → hit type_reserved a cur
      ≤ hit type_reserved a prev + hit type_reserved a (cut_current prev cur)
hit-split a prev cur hp hc e h = ground (arith, end_addr_lem prev hp)

room-cut_current :
    (prev cur : MemoryRegion)
    → beyond prev ≡ 0
    → beyond cur ≡ 0
    → leb (end_addr prev) cur.base_addr ≡ false
    → room (cut_current prev cur) < room cur
room-cut_current prev cur hp hc e = ground (arith, end_addr_lem prev hp)

-- No region grows.
pub hit-resolve_from :
    (type a : ℕ) (prev : MemoryRegion) (rest : List MemoryRegion)
    → beyond prev + total beyond rest ≡ 0
    → total (hit type a) (resolve_from prev rest).0 ≤ hit type a prev + total (hit type a) rest
unfolding resolve_from
hit-resolve_from type a prev [] h = omega arith
hit-resolve_from type a prev (cur ∷ rest) h =
    let hp : beyond prev ≡ 0 = omega arith in
    let hc : beyond cur ≡ 0 = omega arith in
    let cut = beyond-cut_current prev cur hp hc in
    let plain = hit-resolve_from type a cur rest (omega arith) in
    let moved = hit-resolve_from type a (cut_current prev cur) rest (omega arith) in
    let less = hit-cut_current type a prev cur hp hc in
    let shorter = hit-cut_previous type a prev cur in ground arith

pub beyond-resolve_from :
    (prev : MemoryRegion) (rest : List MemoryRegion)
    → beyond prev + total beyond rest ≡ 0
    → total beyond (resolve_from prev rest).0 ≡ 0
unfolding resolve_from
beyond-resolve_from prev [] h = omega arith
beyond-resolve_from prev (cur ∷ rest) h =
    let hp : beyond prev ≡ 0 = omega arith in
    let hc : beyond cur ≡ 0 = omega arith in
    let cut = beyond-cut_current prev cur hp hc in
    let plain = beyond-resolve_from cur rest (omega arith) in
    let moved = beyond-resolve_from (cut_current prev cur) rest (omega arith) in ground arith

-- A pass that moves a base address leaves less room, any other the same.
pub room-resolve_from :
    (prev : MemoryRegion) (rest : List MemoryRegion)
    → beyond prev + total beyond rest ≡ 0
    → total room (resolve_from prev rest).0 + (if (resolve_from prev rest).1 then 1 else 0)
      ≤ room prev + total room rest
unfolding resolve_from
room-resolve_from prev [] h = omega arith
room-resolve_from prev (cur ∷ rest) h =
    let hp : beyond prev ≡ 0 = omega arith in
    let hc : beyond cur ≡ 0 = omega arith in
    let cut = beyond-cut_current prev cur hp hc in
    let plain = room-resolve_from cur rest (omega arith) in
    let moved = room-resolve_from (cut_current prev cur) rest (omega arith) in
    let less = room-cut_current prev cur hp hc in ground arith

pub le_or_lt : (m n : ℕ) → (m ≤ n) ⊎ (n < m)
le_or_lt m n = elim (Bool-cases (leb m n)) [
  | inl e ↦ inl (ground arith)
  | inr e ↦ inr (ground arith)
]

above :
    (a low : ℕ) (l : List MemoryRegion) → Sorted low l → a < low → total (hit type_reserved a) l ≡ 0
above a low [] s h = refl
above a low (r ∷ rest) s h =
    let more = above a r.base_addr rest s.1 (omega (arith, s.0)) in let first = s.0 in ground arith

-- No reserved address is lost.
pub reserved-resolve_from :
    (a low : ℕ) (prev : MemoryRegion) (rest : List MemoryRegion)
    → beyond prev + total beyond rest ≡ 0
    → Sorted low rest
    → (prev.base_addr ≤ a) ⊎ (a < low)
    → 0 < hit type_reserved a prev + total (hit type_reserved a) rest
    → 0 < total (hit type_reserved a) (resolve_from prev rest).0
unfolding resolve_from
reserved-resolve_from a low prev [] h s side found = omega arith
reserved-resolve_from a low prev (cur ∷ rest) h s (inr below) found =
    let none_behind = above a low (cur ∷ rest) s below in ground arith
reserved-resolve_from a low prev (cur ∷ rest) h s (inl past) found =
    let hp : beyond prev ≡ 0 = omega arith in
    let hc : beyond cur ≡ 0 = omega arith in
    let cut = beyond-cut_current prev cur hp hc in
    let plain =
      reserved-resolve_from a cur.base_addr cur rest (omega arith) s.1 (le_or_lt cur.base_addr a) in
    elim (le_or_lt (cut_current prev cur).base_addr a) [
      | inl moved ↦
          let behind =
            reserved-resolve_from a cur.base_addr (cut_current prev cur) rest (omega arith) s.1
              (inl moved) in
          ground (arith, plain, behind, hit-split a prev cur hp hc)
      | inr inside ↦ ground (arith, plain, end_addr_lem prev hp, hit-split a prev cur hp hc)
    ]
