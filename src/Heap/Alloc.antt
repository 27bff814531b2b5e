-- ===== src/Heap/Alloc.antt =====
-- `allocate` of library/heap/src/lib.rs from a new page.
use cos_rs.Base.{
  ℕ, zero, suc, ◌+◌, ◌-◌, ◌%◌, ◌^◌, max, ◌≤◌, ◌<◌, ◌≡◌, refl, sym, ap, subst, ◌∙◌, Option, some,
  List, [], ◌∷◌, length, set, arith, store,
}
use cos_rs.Heap.{
  link_slots, head_size, size_class, free_count, at_index, heap_size_classes, Layout, smaller,
  effective, get_bucket_index_by_layout, HeapNodeHead, RustHeap, add_page, take_slot, with_page,
  allocate,
}
use cos_rs.Heap.Format.{
  Chain, Below, Descending, Slots, IsSlot, slots_from, slots_from-Descending, link_slots-Chain,
  slots_from-Slots, length-slots_from, class_lem,
}

pub at_index-set : (l : List ℕ) (i v : ℕ) → i < length l → at_index (set l i v) i ≡ v
unfolding at_index
at_index-set [] i v h = absurd (omega arith)
at_index-set (x ∷ l) zero v h = refl
at_index-set (x ∷ l) (suc i) v h = at_index-set l i v (omega arith)

-- The class of a layout of at most 2048 bytes is large enough.
pub smaller_lem :
    (n : ℕ)
    → n ≤ 2048
    → (smaller heap_size_classes n < 9) × (n ≤ size_class (smaller heap_size_classes n))
unfolding smaller at_index
smaller_lem n h = ground arith

-- The slots of a new page, the last one first.
abbrev slots_of : ℕ → ℕ → List ℕ
slots_of index page =
    let class = size_class index in
    slots_from (free_count class) class (page + max class head_size) []

store_self : (a : ℕ) (head : HeapNodeHead) (heads : ℕ → HeapNodeHead) → store a head heads a ≡ head
store_self a head heads = ground arith

module _ {P : Type 0} where
  -- What is true of a page of a class whose slots in a list are free.
  abbrev pub HasFree : ℕ → ℕ → RustHeap P → List ℕ → Type 0
  HasFree page class h free =
      Slots page class free
      × Descending free
      × Chain h.links (h.heads page).free_ptr free
      × ((h.heads page).free_left ≡ length free)

  -- What a `take_slot` from a page with no other behind it does to that page.
  take_slot-head :
      (index page : ℕ) (h : RustHeap P)
      → at_index h.bucket index ≡ page
      → (h.heads page).next ≡ 0
      → let r = take_slot index h in
        (r.0 ≡ (h.heads page).free_ptr)
        × (r.1.links ≡ h.links)
        × ((r.1.heads page).free_ptr ≡ h.links (h.heads page).free_ptr)
        × ((r.1.heads page).free_left ≡ ((h.heads page).free_left + (2 ^ 64 - 1)) % 2 ^ 64)
  unfolding take_slot
  take_slot-head index page h at alone = ground arith

  take_slot_lem :
      (index page class : ℕ) (h : RustHeap P) (slot : ℕ) (free : List ℕ)
      → at_index h.bucket index ≡ page
      → (h.heads page).next ≡ 0
      → length free < 0x1000
      → HasFree page class h (slot ∷ free)
      → let r = take_slot index h in
        IsSlot page class r.0 × Below r.0 free × HasFree page class r.1 free
  take_slot_lem index page class h slot free at alone few (slots, down, chain, count) =
      let facts = take_slot-head index page h at alone in
      let second : ((take_slot index h).1.heads page).free_ptr ≡ h.links slot =
        facts.2 ∙ ap h.links chain.0 in
      (
        subst (IsSlot page class) (sym (facts.0 ∙ chain.0)) slots.0,
        subst (λ s. Below s free) (sym (facts.0 ∙ chain.0)) down.0,
        (
          slots.1,
          down.1,
          subst (λ m. Chain m ((take_slot index h).1.heads page).free_ptr free) (sym facts.1)
              (subst (λ p. Chain h.links p free) (sym second) chain.1),
          omega (arith, facts.3, count, few),
        ),
      )

  add_page-HasFree :
      (index page : ℕ) (h : RustHeap P)
      → index < 9
      → length h.bucket ≡ 9
      → at_index h.bucket index ≡ 0
      → let g = add_page index page h in
        (at_index g.bucket index ≡ page)
        × ((g.heads page).next ≡ 0)
        × (length (slots_of index page) ≡ free_count (size_class index))
        × HasFree page (size_class index) g (slots_of index page)
  unfolding add_page
  add_page-HasFree index page h less nine empty =
      let class = size_class index in
      let facts = class_lem index less in
      let count = length-slots_from (free_count class) class (page + max class head_size) [] in
      let chain =
        link_slots-Chain (free_count class) 0x1000 class (page + 0x1000)
          (page + max class head_size) h.links 0 [] (omega (arith, facts.2)) facts.0
          (omega (arith, facts.4)) (omega (arith, facts.4, facts.0)) tt refl in
      let slots =
        slots_from-Slots page class (free_count class) facts.5 (page + max class head_size) []
          (omega (arith, facts.3)) (omega (arith, facts.6)) (omega (arith, facts.4)) tt in
      let made : HeapNodeHead = record {
        prev = 0;
        next = at_index h.bucket index;
        free_ptr =
            (link_slots 0x1000 class (page + 0x1000) (page + max class head_size) h.links 0).1;
        free_left = free_count class;
      } in
      let head = store_self page made h.heads in
      let links =
        (link_slots 0x1000 class (page + 0x1000) (page + max class head_size) h.links 0).0 in
      (
        at_index-set h.bucket index page (omega (arith, nine)),
        ap (λ r. r.next) head ∙ empty,
        omega (arith, count),
        (
          slots,
          slots_from-Descending (free_count class) class (page + max class head_size) [] facts.0 tt
              tt,
          subst (λ p. Chain links p (slots_of index page)) (sym (ap (λ r. r.free_ptr) head)) chain,
          ap (λ r. r.free_left) head ∙ omega (arith, count),
        ),
      )

  take_slot-slots :
      (index page class n : ℕ) (h : RustHeap P) (slots : List ℕ)
      → at_index h.bucket index ≡ page
      → (h.heads page).next ≡ 0
      → length slots ≡ n
      → 0 < n
      → n < 0x1000
      → HasFree page class h slots
      → let r = take_slot index h in
        IsSlot page class r.0
        × (free : List ℕ) × (1 + length free ≡ n)
        × Below r.0 free
        × HasFree page class r.1 free
  take_slot-slots index page class n h [] at alone count some_left few has = absurd (omega arith)
  take_slot-slots index page class n h (s ∷ free) at alone count some_left few has =
      let r = take_slot_lem index page class h s free at alone (omega arith) has in
      (r.0, free, omega arith, r.1, r.2)

  module _ (allocate_pages : ℕ → P → Option ℕ × P) where
    allocate-with_page :
        (l : Layout) (h : RustHeap P)
        → effective l ≤ 2048
        → at_index h.bucket (get_bucket_index_by_layout l) ≡ 0
        → let r = allocate_pages 0x1000 h.provider in
          allocate allocate_pages l h
          ≡ with_page allocate_pages
              (get_bucket_index_by_layout l)
              r.0
              (record h { provider = r.1 })
    unfolding allocate
    allocate-with_page l h small empty = let fits = smaller_lem (effective l) small in ground arith

    -- For a heap with nine buckets, of which the one of a layout of at most 2048 bytes is empty,
    -- and a provider that gives a page, allocate answers with a slot of that page that is behind
    -- its head, ends in the page, lies at a multiple of a size class that is large enough, and
    -- leaves a page whose free list leads through exactly as many other such slots, all of them
    -- below the one it answered with, as its count says, one less than the table of counts has.
    pub allocate-HasFree :
        (l : Layout) (h : RustHeap P) (page : ℕ) (provider : P)
        → effective l ≤ 2048
        → length h.bucket ≡ 9
        → at_index h.bucket (get_bucket_index_by_layout l) ≡ 0
        → allocate_pages 0x1000 h.provider ≡ (some page, provider)
        → let r = allocate allocate_pages l h in
          let class = size_class (get_bucket_index_by_layout l) in
          (effective l ≤ class)
          × IsSlot page class r.0
          × (free : List ℕ) × (1 + length free ≡ free_count class)
          × Below r.0 free
          × HasFree page class r.1 free
    allocate-HasFree l h page provider small nine empty gives =
        let index = get_bucket_index_by_layout l in
        let class = size_class index in
        let fits = smaller_lem (effective l) small in
        let facts = class_lem index fits.0 in
        let g = record h { provider = provider } in
        let made = add_page-HasFree index page g fits.0 nine empty in
        let same : allocate allocate_pages l h ≡ take_slot index (add_page index page g) =
          allocate-with_page l h small empty
          ∙ ap (λ r. with_page allocate_pages index r.0 (record h { provider = r.1 })) gives in
        let r =
          take_slot-slots index page class (free_count class) (add_page index page g)
            (slots_of index page) made.0 made.1 made.2 facts.1 facts.2 made.3 in
        rw same (fits.1, r.0, r.1, r.2, r.3, r.4)
