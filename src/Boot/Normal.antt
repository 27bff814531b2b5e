-- ===== src/Boot/Normal.antt =====
-- `normalize_memory_region` of bootloader/src/memory.rs as a whole.
use cos_rs.Base.{
  ℕ, suc, ◌+◌, ◌*◌, ◌^◌, ◌≤◌, ◌<◌, ◌≡◌, ◌∙◌, refl, sym, ap, some, List, [], ◌∷◌, map, length, arith,
}
use cos_rs.Kernel.Frames.{MemoryRegion}
use cos_rs.Boot.{type_usable, type_reserved, restrict, merge, merged, normalize_memory_region}
use cos_rs.Boot.Total.{total, hit, beyond, room, Sorted, SortsByBase}
use cos_rs.Boot.Rounds.{Apart}
use cos_rs.Boot.Loop.{Settles, rounds-Settles}
use cos_rs.Boot.Merge.{
  blocked, blocked-map, beyond-map, Parted, hit-merge, Apart-merge, Parted-merge,
}

room_lem : (l : List MemoryRegion) → total room l ≤ 2 ^ 64 * length l
room_lem [] = omega arith
room_lem (r ∷ rest) = let more = room_lem rest in omega arith

length-total : (l : List MemoryRegion) → total (λ r. 1) l ≡ length l
length-total [] = refl
length-total (r ∷ rest) = let more = length-total rest in omega arith

length-map : (l : List MemoryRegion) → length (map restrict l) ≡ length l
length-map [] = refl
length-map (r ∷ rest) = ap suc (length-map rest)

Sorted-map : (low : ℕ) (l : List MemoryRegion) → Sorted low l → Sorted low (map restrict l)
Sorted-map low [] s = tt
Sorted-map low (r ∷ rest) s =
    let more = Sorted-map r.base_addr rest s.1 in let first = s.0 in ground arith

-- Below the first region, no region holds an address.
hit-below :
    (type a low : ℕ) (l : List MemoryRegion) → Apart low l → a < low → total (hit type a) l ≡ 0
hit-below type a low [] p h = refl
hit-below type a low (r ∷ rest) p h =
    let more = hit-below type a (r.base_addr + r.length) rest p.1 (omega (arith, p.0)) in
    let first = p.0 in ground arith

-- Regions that are apart do not hold one address with two types.
one_type :
    (a low : ℕ) (l : List MemoryRegion)
    → Apart low l
    → 0 < total (hit type_reserved a) l
    → total (hit type_usable a) l ≡ 0
one_type a low [] p h = refl
one_type a low (r ∷ rest) p h =
    let more = one_type a (r.base_addr + r.length) rest p.1 in
    let reserved_none = hit-below type_reserved a (r.base_addr + r.length) rest p.1 in
    let usable_none = hit-below type_usable a (r.base_addr + r.length) rest p.1 in
    ground (arith, more, reserved_none, usable_none)

module _ (sort : List MemoryRegion → List MemoryRegion) (sorts : SortsByBase sort) where
  abbrev start : List MemoryRegion → List MemoryRegion
  start l = map restrict (sort l)

  start-Settles :
      (fuel : ℕ) (l : List MemoryRegion)
      → 2 ^ 64 * length l < fuel
      → total beyond l ≡ 0
      → Settles sort sorts fuel (start l)
  start-Settles fuel l enough h =
      let count =
        length-map (sort l)
        ∙ sym (length-total (sort l))
        ∙ sorts.total_sort (λ r. 1) l
        ∙ length-total l in
      rounds-Settles sort sorts fuel (start l)
        (omega (arith, room_lem (start l), ap (λ n. 2 ^ 64 * n) count))
        (beyond-map (sort l) ∙ sorts.total_sort beyond l ∙ h)
        (Sorted-map 0 (sort l) (sorts.sorted_sort l))

  -- For every sort by base address, if all regions end below 2^64, then with fuel above 2^64
  -- times the number of regions the loop ends, each region of the result ends before the next
  -- one, and no region can be merged with the next one.
  pub normalize_memory_region-Parted :
      (fuel : ℕ) (l : List MemoryRegion)
      → 2 ^ 64 * length l < fuel
      → total beyond l ≡ 0
      → (out : List MemoryRegion) × (normalize_memory_region sort fuel l ≡ some out)
        × Apart 0 out
        × Parted out
  unfolding normalize_memory_region
  normalize_memory_region-Parted fuel l enough h =
      let t = start-Settles fuel l enough h in
      (merge t.0, ap (merged sort) t.1, Apart-merge t.0 t.3.inside t.2, Parted-merge t.0)

  -- For every sort by base address, if all regions end below 2^64, an address in a region that
  -- the BIOS does not mark usable lies in a reserved region of the result and in no usable one,
  -- with fuel above 2^64 times the number of regions.
  pub normalize_memory_region-blocked :
      (fuel : ℕ) (l : List MemoryRegion) (a : ℕ)
      → 2 ^ 64 * length l < fuel
      → total beyond l ≡ 0
      → 0 < total (blocked a) l
      → (out : List MemoryRegion) × (normalize_memory_region sort fuel l ≡ some out)
        × (0 < total (hit type_reserved a) out)
        × (total (hit type_usable a) out ≡ 0)
  unfolding normalize_memory_region
  normalize_memory_region-blocked fuel l a enough h found =
      let t = start-Settles fuel l enough h in
      let before = blocked-map a (sort l) ∙ sorts.total_sort (blocked a) l in
      let stays = t.3.reserved_stays a (omega (arith, before)) in
      let same = λ (type : ℕ). hit-merge type a t.0 t.3.inside t.2 in
      (
        merge t.0,
        ap (merged sort) t.1,
        omega (arith, same type_reserved, stays),
        same type_usable ∙ one_type a 0 t.0 t.2 stays,
      )
