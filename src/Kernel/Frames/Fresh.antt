-- ===== src/Kernel/Frames/Fresh.antt =====
-- Frames that kernel/src/memory/physics.rs allocates for the first time.
use cos_rs.Base.{
  ℕ, zero, suc, ◌+◌, ◌%◌, ◌^◌, ◌<◌, ◌≤◌, ◌≡◌, ◌≢◌, refl, sym, ap, ◌∙◌, subst, max, bit_and_page,
  Bool, true, false, inl, inr, Option, none, some, List, [], ◌∷◌, All, All-get, ◌||◌, get_elem?,
  ltb, leb, Bool-cases, Option-cases, non_zero, arith,
}
use cos_rs.Kernel.Physics.{Memory}
use cos_rs.Kernel.Frames.{
  FrameAllocator, MemoryRegion, region_end, alloc_start, find_frame, alloc_fresh, alloc_frame,
}

-- A region of physical memory that starts on a page.
abbrev pub IsRegion : MemoryRegion → Type 0
IsRegion r = (r.base_addr % 0x1000 ≡ 0) × (r.base_addr + r.length ≤ 2 ^ 52)

-- The frame at an address lies in a region.
abbrev pub IsInside : ℕ → MemoryRegion → Type 0
IsInside s r = (r.base_addr ≤ s) × (s + 0x1000 ≤ r.base_addr + r.length)

-- Behind an address, the region has room for a frame.
abbrev pub HasRoom : ℕ → MemoryRegion → Type 0
HasRoom first r = max r.base_addr first + 0x1000 ≤ r.base_addr + r.length

alloc_start-max :
    (first : ℕ) (r : MemoryRegion)
    → first % 0x1000 ≡ 0
    → IsRegion r
    → alloc_start first r ≡ max r.base_addr first
unfolding alloc_start
alloc_start-max first r h p =
    let e : max r.base_addr first % 0x1000 ≡ 0 = omega arith in
    rw (bit_and_page (max r.base_addr first), e) refl

-- A frame on a page at or behind an address, inside one of the regions.
pub record IsFresh (first : ℕ) (regions : List MemoryRegion) (s : ℕ) : Type 0 where
  pub behind : first ≤ s
  pub aligned : s % 0x1000 ≡ 0
  pub index : ℕ
  pub region : MemoryRegion
  pub found : get_elem? regions index ≡ some region
  pub inside : IsInside s region

IsFresh-suc :
    (first s : ℕ) (r : MemoryRegion) (regions : List MemoryRegion)
    → IsFresh first regions s
    → IsFresh first (r ∷ regions) s
IsFresh-suc first s r regions h = record {
  behind = h.behind;
  aligned = h.aligned;
  index = suc h.index;
  region = h.region;
  found = h.found;
  inside = h.inside;
}

IsFresh-zero :
    (first s : ℕ) (r : MemoryRegion) (regions : List MemoryRegion)
    → first % 0x1000 ≡ 0
    → IsRegion r
    → s ≡ max r.base_addr first
    → first < region_end r
    → (s + 0x1000) % 2 ^ 64 ≤ region_end r
    → IsFresh first (r ∷ regions) s
IsFresh-zero first s r regions h p e lt le = record {
  behind = omega arith;
  aligned = omega arith;
  index = 0;
  region = r;
  found = refl;
  inside = (omega arith, omega (arith, p.1));
}

find_frame-IsFresh :
    (first s : ℕ) (regions : List MemoryRegion)
    → first % 0x1000 ≡ 0
    → All IsRegion regions
    → find_frame first regions ≡ some s
    → IsFresh first regions s
unfolding find_frame
find_frame-IsFresh first s [] h p e = absurd (ground arith)
find_frame-IsFresh first s (r ∷ regions) h p e =
    let ih : find_frame first regions ≡ some s → IsFresh first (r ∷ regions) s =
      λ f. IsFresh-suc first s r regions (find_frame-IsFresh first s regions h p.1 f) in
    elim (Bool-cases (leb (region_end r) first)) [
      | inl t ↦ ih (ground arith)
      | inr t ↦ elim (Bool-cases (ltb (region_end r) ((alloc_start first r + 0x1000) % 2 ^ 64))) [
        | inl u ↦ ih (ground arith)
        | inr u ↦
            let a : s ≡ alloc_start first r = ground arith in
            IsFresh-zero first s r regions h p.0 (a ∙ alloc_start-max first r h p.0) (ground arith)
              (ground arith)
      ]
    ]

pub alloc_frame-found :
    (regions : List MemoryRegion) (mem : Memory) (a : FrameAllocator) (first s : ℕ)
    → a.linked_free_address ≡ none
    → a.first_alloc_address ≡ some first
    → find_frame first regions ≡ some s
    → 0 < s
    → s + 0x1000 < 2 ^ 64
    → alloc_frame regions mem a ≡ (record a { first_alloc_address = some (s + 0x1000) }, some s)
unfolding alloc_frame alloc_fresh
alloc_frame-found regions mem a first s l e f z b =
    let m : (s + 0x1000) % 2 ^ 64 ≡ s + 0x1000 = omega arith in
    let n : non_zero s ≡ some s = ground arith in
    let k : non_zero (s + 0x1000) ≡ some (s + 0x1000) = ground arith in
    rw (l, alloc_frame) (rw (e, alloc_fresh) (rw (f, alloc_fresh) (rw (m, n, k) (cc))))

none_found :
    (regions : List MemoryRegion) (mem : Memory) (a : FrameAllocator) (first s : ℕ)
    → a.linked_free_address ≡ none
    → a.first_alloc_address ≡ some first
    → find_frame first regions ≡ none
    → (alloc_frame regions mem a).1 ≢ some s
unfolding alloc_frame alloc_fresh
none_found regions mem a first s l e f =
    rw (l, alloc_frame) (rw (e, alloc_fresh) (rw (f, alloc_fresh) (λ q. ground arith)))

-- With an empty free list, a first address on a page and regions below 2^52 that start on pages,
-- a frame that alloc_frame answers with is on a page at or behind the first address and inside a
-- region, and the first address is then the end of that frame.
pub alloc_frame-IsFresh :
    (regions : List MemoryRegion) (mem : Memory) (a : FrameAllocator) (first s : ℕ)
    → a.linked_free_address ≡ none
    → a.first_alloc_address ≡ some first
    → 0 < first
    → first % 0x1000 ≡ 0
    → All IsRegion regions
    → (alloc_frame regions mem a).1 ≡ some s
    → IsFresh first regions s
      × ((alloc_frame regions mem a).0 ≡ record a { first_alloc_address = some (s + 0x1000) })
alloc_frame-IsFresh regions mem a first s l e z h p q =
    elim (Option-cases (find_frame first regions)) [
      | inl f ↦ absurd (none_found regions mem a first s l e f q)
      | inr (t, f) ↦
          let v = find_frame-IsFresh first t regions h p f in
          let b = All-get IsRegion regions v.index v.region p v.found in
          let r =
            alloc_frame-found regions mem a first t l e f (omega (arith, v.behind))
              (omega (arith, v.inside.1, b.1)) in
          let same : t ≡ s = ground (arith, ap (λ (x : FrameAllocator × Option ℕ). x.1) r) in
          subst
            (λ x.
              IsFresh first regions x
              × ((alloc_frame regions mem a).0
                  ≡ record a { first_alloc_address = some (x + 0x1000) }))
            same (v, ap (λ (x : FrameAllocator × Option ℕ). x.0) r)
    ]

-- The tests by which the loop of `alloc_frame` leaves a region out.
abbrev skips : ℕ → MemoryRegion → Bool
skips first r =
    leb (region_end r) first || ltb (region_end r) ((alloc_start first r + 0x1000) % 2 ^ 64)

room-skips :
    (first : ℕ) (r : MemoryRegion)
    → first % 0x1000 ≡ 0
    → IsRegion r
    → HasRoom first r
    → skips first r ≡ false
room-skips first r h p room = rw (alloc_start-max first r h p) (ground arith)

find_frame-skip :
    (first : ℕ) (r : MemoryRegion) (regions : List MemoryRegion)
    → skips first r ≡ true
    → find_frame first (r ∷ regions) ≡ find_frame first regions
unfolding find_frame
find_frame-skip first r regions h = ground arith

find_frame-take :
    (first : ℕ) (r : MemoryRegion) (regions : List MemoryRegion)
    → skips first r ≡ false
    → find_frame first (r ∷ regions) ≡ some (alloc_start first r)
unfolding find_frame
find_frame-take first r regions h = ground arith

find_frame-room :
    (first i : ℕ) (regions : List MemoryRegion) (r : MemoryRegion)
    → first % 0x1000 ≡ 0
    → All IsRegion regions
    → get_elem? regions i ≡ some r
    → HasRoom first r
    → (s : ℕ) × (find_frame first regions ≡ some s)
find_frame-room first i [] r h p g room = absurd (ground arith)
find_frame-room first zero (q ∷ regions) r h p g room =
    let here : HasRoom first q =
      subst (λ o. elim o [ none ↦ Unit | some y ↦ HasRoom first y ]) (sym g) room in
    (alloc_start first q, find_frame-take first q regions (room-skips first q h p.0 here))
find_frame-room first (suc i) (q ∷ regions) r h p g room =
    let later = find_frame-room first i regions r h p.1 g room in
    elim (Bool-cases (skips first q)) [
      | inl t ↦ (later.0, find_frame-skip first q regions t ∙ later.1)
      | inr t ↦ (alloc_start first q, find_frame-take first q regions t)
    ]

-- With an empty free list, a first address on a page and regions below 2^52 that start on pages,
-- alloc_frame answers with a frame whenever a region has room for one behind the first address.
pub alloc_frame-room :
    (regions : List MemoryRegion) (mem : Memory) (a : FrameAllocator) (first i : ℕ)
    (r : MemoryRegion)
    → a.linked_free_address ≡ none
    → a.first_alloc_address ≡ some first
    → 0 < first
    → first % 0x1000 ≡ 0
    → All IsRegion regions
    → get_elem? regions i ≡ some r
    → HasRoom first r
    → (s : ℕ) × ((alloc_frame regions mem a).1 ≡ some s)
alloc_frame-room regions mem a first i r l e z h p g room =
    let w = find_frame-room first i regions r h p g room in
    let v = find_frame-IsFresh first w.0 regions h p w.1 in
    let b = All-get IsRegion regions v.index v.region p v.found in
    let pos : 0 < w.0 = omega (arith, v.behind) in
    let top : w.0 + 0x1000 < 2 ^ 64 = omega (arith, v.inside.1, b.1) in
    let r = alloc_frame-found regions mem a first w.0 l e w.1 pos top in
    (w.0, ap (λ (x : FrameAllocator × Option ℕ). x.1) r)
