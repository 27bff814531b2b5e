-- ===== src/Boot/Merge.antt =====
-- Steps 2 and 5 of bootloader/src/memory.rs: the types, and the merging of neighbours.
use cos_rs.Base.{
  ℕ, ◌+◌, ◌%◌, ◌^◌, ◌≡◌, refl, Bool, false, not, ◌&&◌, List, [], ◌∷◌, map, leb, ltb, ◌==◌,
  if◌then◌else◌, arith,
}
use cos_rs.Kernel.Frames.{MemoryRegion}
use cos_rs.Boot.{type_usable, type_reserved, end_addr, restrict, merge_from, merge}
use cos_rs.Boot.Total.{total, hit, beyond}
use cos_rs.Boot.Cut.{end_addr_lem}
use cos_rs.Boot.Rounds.{Apart, Apart-weaken}

-- 1 for a region that holds the address and is not marked usable.
abbrev pub blocked : ℕ → MemoryRegion → ℕ
blocked a r =
    if not (r.region_type == type_usable) && (leb r.base_addr a && ltb a (r.base_addr + r.length))
    then 1
    else 0

pub blocked-map :
    (a : ℕ) (l : List MemoryRegion)
    → total (hit type_reserved a) (map restrict l) ≡ total (blocked a) l
blocked-map a [] = refl
blocked-map a (r ∷ rest) = let more = blocked-map a rest in ground arith

pub hit-map :
    (a : ℕ) (l : List MemoryRegion)
    → total (hit type_usable a) (map restrict l) ≡ total (hit type_usable a) l
hit-map a [] = refl
hit-map a (r ∷ rest) = let more = hit-map a rest in ground arith

pub beyond-map : (l : List MemoryRegion) → total beyond (map restrict l) ≡ total beyond l
beyond-map [] = refl
beyond-map (r ∷ rest) = let more = beyond-map rest in ground arith

abbrev pub touches : MemoryRegion → MemoryRegion → Bool
touches prev cur = (prev.region_type == cur.region_type) && (end_addr prev == cur.base_addr)

-- No region can be merged with the next one.
abbrev pub Parted : List MemoryRegion → Type 0
Parted [] = Unit {0}
Parted (r ∷ []) = Unit {0}
Parted (r ∷ s ∷ rest) = (touches r s ≡ false) × Parted (s ∷ rest)

abbrev joined : MemoryRegion → MemoryRegion → MemoryRegion
joined prev cur = record prev { length = (prev.length + cur.length) % 2 ^ 64 }

-- Merging keeps what the regions hold, and their order.
hit-merge_from :
    (type a : ℕ) (prev : MemoryRegion) (rest : List MemoryRegion)
    → beyond prev + total beyond rest ≡ 0
    → Apart (prev.base_addr + prev.length) rest
    → total (hit type a) (merge_from prev rest) ≡ hit type a prev + total (hit type a) rest
unfolding merge_from
hit-merge_from type a prev [] h p = refl
hit-merge_from type a prev (cur ∷ rest) h p =
    let plain = hit-merge_from type a cur rest (omega arith) p.1 in
    let one = hit-merge_from type a (joined prev cur) rest in
    ground (arith, one, end_addr_lem prev (omega arith))

Apart-merge_from :
    (prev : MemoryRegion) (rest : List MemoryRegion)
    → beyond prev + total beyond rest ≡ 0
    → Apart (prev.base_addr + prev.length) rest
    → Apart prev.base_addr (merge_from prev rest)
unfolding merge_from
Apart-merge_from prev [] h p = (omega arith, tt)
Apart-merge_from prev (cur ∷ rest) h p =
    let plain = Apart-merge_from cur rest (omega arith) p.1 in
    let behind =
      Apart-weaken (prev.base_addr + prev.length) cur.base_addr (merge_from cur rest) p.0 plain in
    let one = Apart-merge_from (joined prev cur) rest in
    let next = p.1 in ground (arith, one, end_addr_lem prev (omega arith))

Parted-cons :
    (prev cur : MemoryRegion) (rest : List MemoryRegion)
    → touches prev cur ≡ false
    → Parted (merge_from cur rest)
    → Parted (prev ∷ merge_from cur rest)
unfolding merge_from
Parted-cons prev cur [] e p = (e, tt)
Parted-cons prev cur (next ∷ rest) e p =
    let one = Parted-cons prev (joined cur next) rest e in ground (arith, one)

Parted-merge_from : (prev : MemoryRegion) (rest : List MemoryRegion) → Parted (merge_from prev rest)
unfolding merge_from
Parted-merge_from prev [] = tt
Parted-merge_from prev (cur ∷ rest) =
    let one = Parted-merge_from (joined prev cur) rest in
    let plain = Parted-merge_from cur rest in
    let front = Parted-cons prev cur rest in ground (arith, front)

pub hit-merge :
    (type a : ℕ) (l : List MemoryRegion)
    → total beyond l ≡ 0
    → Apart 0 l
    → total (hit type a) (merge l) ≡ total (hit type a) l
hit-merge type a [] h p = refl
hit-merge type a (r ∷ rest) h p = hit-merge_from type a r rest h p.1

pub Apart-merge : (l : List MemoryRegion) → total beyond l ≡ 0 → Apart 0 l → Apart 0 (merge l)
Apart-merge [] h p = tt
Apart-merge (r ∷ rest) h p =
    Apart-weaken 0 r.base_addr (merge_from r rest) p.0 (Apart-merge_from r rest h p.1)

pub Parted-merge : (l : List MemoryRegion) → Parted (merge l)
Parted-merge [] = tt
Parted-merge (r ∷ rest) = Parted-merge_from r rest
