-- ===== src/Heap/Tests.antt =====
-- Runs of library/heap/src/lib.rs over a provider that hands out one page after the other.
use cos_rs.Base.{ℕ, ◌+◌, ◌≤◌, ◌≡◌, refl, inr, Option, some, List, length, arith}
use cos_rs.Heap.{
  size_class, free_count, at_index, Layout, smaller, effective, get_bucket_index_by_layout,
  RustHeap, link_slots, add_page, take_slot, allocate, give_slot, unlink, deallocate, new,
}
use cos_rs.Heap.Format.{Below, IsSlot}
use cos_rs.Heap.Alloc.{HasFree, allocate-HasFree}
use cos_rs.Heap.Reuse.{allocate-deallocate}

abbrev next_pages : ℕ → ℕ → Option ℕ × ℕ
next_pages size next = (some next, next + size)

abbrev words : Layout
words = record { size = 24; align = 8 }

abbrev half_page : Layout
half_page = record { size = 2048; align = 8 }

abbrev fresh : RustHeap ℕ
fresh = new 0x10000

fresh_bucket :
    (length fresh.bucket ≡ 9) × (at_index fresh.bucket (get_bucket_index_by_layout words) ≡ 0)
unfolding new at_index smaller
fresh_bucket = (refl, refl)

fresh_provider : next_pages 0x1000 fresh.provider ≡ (some 0x10000, 0x11000)
unfolding new
fresh_provider = refl

allocate-HasFree_example :
    let r = allocate next_pages words fresh in
    let class = size_class (get_bucket_index_by_layout words) in
    (effective words ≤ class)
    × IsSlot 0x10000 class r.0
    × (free : List ℕ) × (1 + length free ≡ free_count class)
    × Below r.0 free
    × HasFree 0x10000 class r.1 free
allocate-HasFree_example =
    allocate-HasFree next_pages words fresh 0x10000 0x11000 (omega arith) fresh_bucket.0
      fresh_bucket.1 fresh_provider

-- The only slot of its page is taken, so the page leaves the bucket; it goes back when it is freed.
abbrev taken : ℕ × RustHeap ℕ
taken = allocate next_pages half_page fresh

taken_slot : (taken.0 ≡ 0x10800) × (at_index taken.1.bucket 8 ≡ 0)
unfolding allocate new at_index smaller add_page link_slots take_slot
taken_slot = (refl, refl)

taken_back :
    (deallocate (λ address size next. address) taken.0 half_page taken.1).provider ≡ 0x10000
unfolding allocate new at_index smaller add_page link_slots take_slot deallocate give_slot unlink
taken_back = refl

-- Two slots are taken; the second goes back and is handed out again.
abbrev two_taken : ℕ × RustHeap ℕ
two_taken = allocate next_pages words (allocate next_pages words fresh).1

two_taken_slot :
    (two_taken.0 ≡ 0x10fc0)
    × (length two_taken.1.bucket ≡ 9)
    × (at_index two_taken.1.bucket (get_bucket_index_by_layout words) ≡ 0x10000)
    × ((two_taken.1.heads 0x10000).free_left ≡ 125)
unfolding allocate new at_index smaller add_page link_slots take_slot
two_taken_slot = (refl, refl, refl, refl)

words_count : free_count (size_class (get_bucket_index_by_layout words)) ≡ 127
unfolding at_index smaller
words_count = refl

allocate-deallocate_example :
    (allocate next_pages words (deallocate (λ address size next. next) 0x10fc0 words two_taken.1)).0
    ≡ 0x10fc0
allocate-deallocate_example =
    allocate-deallocate next_pages (λ address size next. next) 0x10fc0 words two_taken.1
      (omega arith) two_taken_slot.1 (omega arith) (λ e. absurd (omega (arith, e)))
      (inr two_taken_slot.2) (λ e. absurd (omega (arith, e, two_taken_slot.3, words_count)))
