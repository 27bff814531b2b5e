-- ===== src/Heap/Reuse.antt =====
-- A freed slot of library/heap/src/lib.rs is the next one handed out.
use cos_rs.Base.{
  ℕ, ◌+◌, ◌-◌, ◌%◌, ◌^◌, ◌≤◌, ◌<◌, ◌≡◌, ◌≢◌, ◌⊎◌, refl, sym, ap, ◌∙◌, Option, length, arith,
}
use cos_rs.Heap.{
  size_class, free_count, at_index, Layout, effective, get_bucket_index_by_layout, RustHeap,
  take_slot, allocate, give_slot, deallocate,
}
use cos_rs.Heap.Alloc.{at_index-set, smaller_lem}

module _ {P : Type 0} where
  give_slot-first :
      (index page ptr : ℕ) (h : RustHeap P)
      → index < length h.bucket
      → ((h.heads page).free_left ≡ 0) ⊎ (at_index h.bucket index ≡ page)
      → let g = give_slot index page ptr h in
        (at_index g.bucket index ≡ page)
        × ((g.heads page).free_ptr ≡ ptr)
        × ((g.heads page).free_left ≡ ((h.heads page).free_left + 1) % 2 ^ 64)
  unfolding give_slot
  give_slot-first index page ptr h less first =
      let put = at_index-set h.bucket index page less in ground arith

  take_slot-first :
      (index : ℕ) (h : RustHeap P)
      → (take_slot index h).0 ≡ (h.heads (at_index h.bucket index)).free_ptr
  unfolding take_slot
  take_slot-first index h = refl

  module _ (allocate_pages : ℕ → P → Option ℕ × P) (deallocate_pages : ℕ → ℕ → P → P) where
    allocate-first :
        (l : Layout) (h : RustHeap P)
        → effective l ≤ 2048
        → at_index h.bucket (get_bucket_index_by_layout l) ≢ 0
        → allocate allocate_pages l h ≡ take_slot (get_bucket_index_by_layout l) h
    unfolding allocate
    allocate-first l h small full = let fits = smaller_lem (effective l) small in ground arith

    deallocate-give_slot :
        (ptr : ℕ) (l : Layout) (h : RustHeap P)
        → ptr % 0x1000 ≢ 0
        → let index = get_bucket_index_by_layout l in
          let page = ptr - ptr % 0x1000 in
          ((give_slot index page ptr h).heads page).free_left ≢ free_count (size_class index)
          → deallocate deallocate_pages ptr l h ≡ give_slot index page ptr h
    unfolding deallocate
    deallocate-give_slot ptr l h inner kept = ground arith

    -- For a layout of at most 2048 bytes and a slot that is not at the start of its page, whose
    -- page is the first of the bucket of the layout or has no free slot, if freeing the slot does
    -- not make the page whole, then the next allocate of the layout answers with this slot.
    pub allocate-deallocate :
        (ptr : ℕ) (l : Layout) (h : RustHeap P)
        → effective l ≤ 2048
        → length h.bucket ≡ 9
        → 0x1000 < ptr
        → ptr % 0x1000 ≢ 0
        → ((h.heads (ptr - ptr % 0x1000)).free_left ≡ 0)
          ⊎ (at_index h.bucket (get_bucket_index_by_layout l) ≡ ptr - ptr % 0x1000)
        → ((h.heads (ptr - ptr % 0x1000)).free_left + 1) % 2 ^ 64
          ≢ free_count (size_class (get_bucket_index_by_layout l))
        → (allocate allocate_pages l (deallocate deallocate_pages ptr l h)).0 ≡ ptr
    allocate-deallocate ptr l h small nine high inner first more =
        let index = get_bucket_index_by_layout l in
        let page = ptr - ptr % 0x1000 in
        let fits = smaller_lem (effective l) small in
        let g = give_slot index page ptr h in
        let facts = give_slot-first index page ptr h (omega (arith, nine, fits.0)) first in
        let back = deallocate-give_slot ptr l h inner (λ e. more (sym facts.2 ∙ e)) in
        let front : at_index g.bucket index ≢ 0 = λ e. absurd (omega (arith, facts.0, e)) in
        rw back (
          ap (λ r. r.0) (allocate-first l g small front)
          ∙ take_slot-first index g
          ∙ ap (λ p. (g.heads p).free_ptr) facts.0
          ∙ facts.1)
