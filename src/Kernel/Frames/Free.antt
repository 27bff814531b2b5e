-- ===== src/Kernel/Frames/Free.antt =====
-- The free list of kernel/src/memory/physics.rs in memory.
use cos_rs.Base.{
  ℕ, zero, suc, ◌+◌, ◌*◌, ◌/◌, ◌%◌, ◌^◌, ◌<◌, ◌≤◌, ◌≡◌, ◌≢◌, ◌⊎◌, inl, inr, map, refl, sym, ap, ◌∙◌,
  subst, Option, none, some, List, [], ◌∷◌, All, length, ltb, ltb→lt, ltb→le, Bool-cases, non_zero,
  arith,
}
use cos_rs.Kernel.Physics.{Memory, write_memory}
use cos_rs.Kernel.Physics.Access.{
  bytes_at, poke_all, read_memory-bytes_at, write_memory-poke_all, bytes_at-poke_all_self,
  bytes_at-poke_all_apart,
}
use cos_rs.Kernel.Frames.{
  FrameAllocator, MemoryRegion, alloc_frame, delloc_frame, link_bytes, link_of,
}

-- A link that an `Option<NonZeroUsize>` can hold.
abbrev pub IsLink : Option ℕ → Type 0
IsLink none = Unit
IsLink (some n) = (0 < n) × (n < 2 ^ 64)

join_bytes :
    (n : ℕ)
    → n < 2 ^ 64
    → n / 1 % 256
        + 256 * (n / 256 % 256)
        + 65536 * (n / 65536 % 256)
        + 16777216 * (n / 16777216 % 256)
        + 4294967296 * (n / 4294967296 % 256)
        + 1099511627776 * (n / 1099511627776 % 256)
        + 281474976710656 * (n / 281474976710656 % 256)
        + 72057594037927936 * (n / 72057594037927936 % 256)
      ≡ n
join_bytes n h = omega arith

non_zero_pos : (n : ℕ) → 0 < n → non_zero n ≡ some n
non_zero_pos n h = ground arith

link_of-link_bytes : (o : Option ℕ) → IsLink o → link_of (link_bytes o) ≡ o
unfolding link_of link_bytes
link_of-link_bytes none h = refl
link_of-link_bytes (some n) h = ap non_zero (join_bytes n h.1) ∙ non_zero_pos n h.0

length-link_bytes : (o : Option ℕ) → length (link_bytes o) ≡ 8
unfolding link_bytes
length-link_bytes o = refl

-- A frame of physical memory.
abbrev pub IsFrame : ℕ → Type 0
IsFrame f = (0 < f) × (f % 0x1000 ≡ 0) × (f + 0x1000 ≤ 2 ^ 64)

-- The free list from a link holds these distinct frames, in this order.
abbrev pub IsFreeList : Memory → Option ℕ → List ℕ → Type 0
IsFreeList mem link [] = link ≡ none
IsFreeList mem link (f ∷ frames) =
    (link ≡ some f)
    × IsFrame f
    × All (λ g. f ≢ g) frames
    × IsFreeList mem (link_of (bytes_at mem f 8)) frames

IsLink-of_IsFreeList :
    (mem : Memory) (link : Option ℕ) (frames : List ℕ) → IsFreeList mem link frames → IsLink link
IsLink-of_IsFreeList mem link [] h = subst IsLink (sym h) tt
IsLink-of_IsFreeList mem link (f ∷ frames) h =
    let b : f < 2 ^ 64 = omega (arith, h.1.2) in subst IsLink (sym h.0) (h.1.0, b)

frames_apart : (a f n : ℕ) → IsFrame a → IsFrame f → a ≢ f → n ≤ 0x1000 → (f + 8 ≤ a) ⊎ (a + n ≤ f)
frames_apart a f n p q d l = elim (Bool-cases (ltb a f)) [
  | inl e ↦ inr (omega (arith, ltb→lt a f e, p.1, q.1))
  | inr e ↦ inl (omega (arith, ltb→le a f e, d, p.1, q.1))
]

-- A write to another frame keeps the free list.
IsFreeList-poke_all :
    (mem : Memory) (a : ℕ) (bytes : List ℕ) (link : Option ℕ) (frames : List ℕ)
    → IsFrame a
    → length bytes ≤ 0x1000
    → All (λ g. a ≢ g) frames
    → IsFreeList mem link frames
    → IsFreeList (poke_all a bytes mem) link frames
IsFreeList-poke_all mem a bytes link [] p l d h = h
IsFreeList-poke_all mem a bytes link (f ∷ frames) p l d h =
    let apart : (f + 8 ≤ a) ⊎ (a + length bytes ≤ f) =
      frames_apart a f (length bytes) p h.1 d.0 l in
    let e : bytes_at (poke_all a bytes mem) f 8 ≡ bytes_at mem f 8 =
      bytes_at-poke_all_apart bytes 8 a f mem apart in
    (
      h.0,
      h.1,
      h.2,
      subst (λ b. IsFreeList (poke_all a bytes mem) (link_of b) frames) (sym e)
          (IsFreeList-poke_all mem a bytes (link_of (bytes_at mem f 8)) frames p l d.1 h.3),
    )

-- If the free list in memory holds some distinct frames and a frame that is not among them is
-- given back, then the free list in the new memory holds that frame and then the others in their
-- order.
pub delloc_frame-IsFreeList :
    (mem : Memory) (a : FrameAllocator) (f : ℕ) (frames : List ℕ)
    → IsFreeList mem a.linked_free_address frames
    → IsFrame f
    → All (λ g. f ≢ g) frames
    → IsFreeList (delloc_frame f mem a).0 (delloc_frame f mem a).1.linked_free_address (f ∷ frames)
unfolding delloc_frame
delloc_frame-IsFreeList mem a f frames h p d =
    let link = a.linked_free_address in
    let bytes = link_bytes link in
    let l : length bytes ≡ 8 = length-link_bytes link in
    let w : write_memory f bytes mem ≡ poke_all f bytes mem =
      write_memory-poke_all mem f bytes (omega (arith, p.2)) in
    let back : bytes_at (poke_all f bytes mem) f 8 ≡ bytes =
      ap (bytes_at (poke_all f bytes mem) f) (sym l) ∙ bytes_at-poke_all_self bytes f mem in
    let next : link_of (bytes_at (poke_all f bytes mem) f 8) ≡ link =
      ap link_of back ∙ link_of-link_bytes link (IsLink-of_IsFreeList mem link frames h) in
    subst (λ (m : Memory). IsFreeList m (some f) (f ∷ frames)) (sym w)
      (
        refl,
        p,
        d,
        subst (λ o. IsFreeList (poke_all f bytes mem) o frames) (sym next)
            (IsFreeList-poke_all mem f bytes link frames p (omega arith) d h),
      )

-- As many calls of `alloc_frame`.
unfoldable pub alloc_frames :
    List MemoryRegion → ℕ → Memory → FrameAllocator → FrameAllocator × List (Option ℕ)
alloc_frames regions zero mem a = (a, [])
alloc_frames regions (suc n) mem a =
    let r = alloc_frame regions mem a in
    let rest = alloc_frames regions n mem r.0 in (rest.0, r.1 ∷ rest.1)

alloc_free :
    (regions : List MemoryRegion) (mem : Memory) (a : FrameAllocator) (f : ℕ)
    → a.linked_free_address ≡ some f
    → f + 8 ≤ 2 ^ 64
    → alloc_frame regions mem a
      ≡ (record a { linked_free_address = link_of (bytes_at mem f 8) }, some f)
unfolding alloc_frame
alloc_free regions mem a f e h = rw (e, alloc_frame, read_memory-bytes_at mem f 8 h) refl

-- If the free list in memory holds some distinct frames, then as many allocations answer with
-- exactly these frames in the order of the list, and leave the free list empty and the address of
-- the next fresh frame as it was.
pub alloc_frames-free :
    (regions : List MemoryRegion) (mem : Memory) (a : FrameAllocator) (frames : List ℕ)
    → IsFreeList mem a.linked_free_address frames
    → alloc_frames regions (length frames) mem a
      ≡ (record a { linked_free_address = none }, map some frames)
unfolding alloc_frames
alloc_frames-free regions mem a [] h =
    ap (λ (o : Option ℕ). (record a { linked_free_address = o }, [])) h
alloc_frames-free regions mem a (f ∷ frames) h =
    let r = alloc_free regions mem a f h.0 (omega (arith, h.1.2)) in
    let ih =
      alloc_frames-free regions mem (record a { linked_free_address = link_of (bytes_at mem f 8) })
        frames h.3 in
    rw r (ap (λ (x : FrameAllocator × List (Option ℕ)). (x.0, some f ∷ x.1)) ih)
