-- ===== src/Heap.antt =====
-- library/heap/src/lib.rs: the heap of size classes over whole pages.
--
-- Memory is two functions of an address: the head of a page, and the link in a free slot. A slot does
-- not overlap the head of its page. The null pointer is 0. The provider of pages is an argument.
pub mod Format
pub mod Alloc
pub mod Reuse
mod Tests
use cos_rs.Base.{
  ℕ, zero, suc, ◌+◌, ◌-◌, ◌*◌, ◌/◌, ◌%◌, ◌^◌, Bool, true, false, Option, none, some, List, [], ◌∷◌,
  length, get_elem?, set, max, ltb, leb, ◌==◌, if◌then◌else◌, store,
}

abbrev pub heap_size_classes : List ℕ
heap_size_classes = 8 ∷ 16 ∷ 32 ∷ 64 ∷ 128 ∷ 256 ∷ 512 ∷ 1024 ∷ 2048 ∷ []

-- `size_of::<HeapNodeHead>()`.
abbrev pub head_size : ℕ
head_size = 32

abbrev pub free_count : ℕ → ℕ
free_count size = (0x1000 - head_size) / size

-- An index into a table; the code's indices are in range.
unfoldable pub at_index : List ℕ → ℕ → ℕ
at_index [] i = 0
at_index (x ∷ xs) zero = x
at_index (x ∷ xs) (suc i) = at_index xs i

abbrev pub size_class : ℕ → ℕ
size_class index = at_index heap_size_classes index

pub record Layout : Type 0 where
  pub size : ℕ
  pub align : ℕ

pub record HeapNodeHead : Type 0 where
  pub prev : ℕ
  pub next : ℕ
  pub free_ptr : ℕ
  pub free_left : ℕ

-- Both results of `binary_search` on the classes: how many of them are smaller.
unfoldable pub smaller : List ℕ → ℕ → ℕ
smaller [] n = 0
smaller (x ∷ xs) n = if ltb x n then suc (smaller xs n) else 0

abbrev pub effective : Layout → ℕ
effective l = max l.align l.size

abbrev pub get_bucket_index_by_layout : Layout → ℕ
get_bucket_index_by_layout l = smaller heap_size_classes (effective l)

abbrev pub page_size : Layout → ℕ
page_size l =
    let size = effective l in if size % 0x1000 == 0 then size else (size - size % 0x1000) + 0x1000

-- The loop that links the slots of a new page, on fuel: the links, and the first slot.
unfoldable pub link_slots : ℕ → ℕ → ℕ → ℕ → (ℕ → ℕ) → ℕ → (ℕ → ℕ) × ℕ
link_slots zero class limit slot links first = (links, first)
link_slots (suc fuel) class limit slot links first = elim (ltb slot limit) [
  | true ↦ link_slots fuel class limit (slot + class) (store slot first links) slot
  | false ↦ (links, first)
]

pub record RustHeap (P : Type 0) : Type 0 where
  pub bucket : List ℕ
  pub heads : ℕ → HeapNodeHead
  pub links : ℕ → ℕ
  pub provider : P

-- A change of the head at an address.
abbrev pub set_prev : ℕ → ℕ → (ℕ → HeapNodeHead) → ℕ → HeapNodeHead
set_prev page prev heads = store page (record (heads page) { prev = prev }) heads

abbrev pub set_next : ℕ → ℕ → (ℕ → HeapNodeHead) → ℕ → HeapNodeHead
set_next page next heads = store page (record (heads page) { next = next }) heads

-- The same unless the pointer is null.
abbrev pub set_prev_of : ℕ → ℕ → (ℕ → HeapNodeHead) → ℕ → HeapNodeHead
set_prev_of page prev heads = if page == 0 then heads else set_prev page prev heads

module _ {P : Type 0} where
  -- A new page becomes the bucket, which was empty.
  unfoldable pub add_page : ℕ → ℕ → RustHeap P → RustHeap P
  add_page index page h =
      let class = size_class index in
      let r = link_slots 0x1000 class (page + 0x1000) (page + max class head_size) h.links 0 in
      record h {
        bucket = set h.bucket index page;
        heads =
            store page
              (record {
                prev = 0;
                next = at_index h.bucket index;
                free_ptr = r.1;
                free_left = free_count class;
              })
              h.heads;
        links = r.0;
      }

  -- A slot of the first page of a bucket; a page without slots leaves the bucket. The count is a
  -- `u64` that wraps at 0.
  unfoldable pub take_slot : ℕ → RustHeap P → ℕ × RustHeap P
  take_slot index h =
      let page = at_index h.bucket index in
      let head = h.heads page in
      let left = (head.free_left + (2 ^ 64 - 1)) % 2 ^ 64 in
      let heads =
        store page (record head { free_ptr = h.links head.free_ptr; free_left = left }) h.heads in
      (
        head.free_ptr,
        if left == 0
            then record h {
              bucket = set h.bucket index head.next;
              heads = set_prev_of head.next 0 heads;
            }
            else record h { heads = heads },
      )

  module _ (allocate_pages : ℕ → P → Option ℕ × P) where
    abbrev pub pointer : Option ℕ → ℕ
    pointer (some address) = address
    pointer none = 0

    abbrev pub with_page : ℕ → Option ℕ → RustHeap P → ℕ × RustHeap P
    with_page index (some page) h = take_slot index (add_page index page h)
    with_page index none h = (0, h)

    unfoldable pub allocate : Layout → RustHeap P → ℕ × RustHeap P
    allocate l h =
        let index = get_bucket_index_by_layout l in
        elim (leb (length heap_size_classes) index) [
          | true ↦
              let r = allocate_pages (page_size l) h.provider in
              (pointer r.0, record h { provider = r.1 })
          | false ↦ elim (at_index h.bucket index == 0) [
            | true ↦
                let r = allocate_pages 0x1000 h.provider in
                with_page index r.0 (record h { provider = r.1 })
            | false ↦ take_slot index h
          ]
        ]

  -- A slot goes back to its page; a page that had none comes back to the bucket.
  unfoldable pub give_slot : ℕ → ℕ → ℕ → RustHeap P → RustHeap P
  give_slot index page ptr h =
      let head = h.heads page in
      let left = (head.free_left + 1) % 2 ^ 64 in
      let heads = store page (record head { free_ptr = ptr; free_left = left }) h.heads in
      let links = store ptr head.free_ptr h.links in
      let first = at_index h.bucket index in
      if left == 1
      then record h {
        bucket = set h.bucket index page;
        heads = set_prev page 0 (set_next page first (set_prev_of first page heads));
        links = links;
      }
      else record h { heads = heads; links = links }

  -- A page leaves the list of its bucket.
  unfoldable pub unlink : ℕ → ℕ → RustHeap P → RustHeap P
  unlink index page h =
      let head = h.heads page in
      if head.prev == 0
      then record h {
        bucket = set h.bucket index head.next;
        heads = set_prev_of head.next 0 h.heads;
      }
      else record h {
        heads = set_prev_of head.next head.prev (set_next head.prev head.next h.heads);
      }

  module _ (deallocate_pages : ℕ → ℕ → P → P) where
    unfoldable pub deallocate : ℕ → Layout → RustHeap P → RustHeap P
    deallocate ptr l h = elim (ptr % 0x1000 == 0) [
      | true ↦ record h { provider = deallocate_pages ptr (page_size l) h.provider }
      | false ↦
          let page = ptr - ptr % 0x1000 in
          let index = get_bucket_index_by_layout l in
          let given = give_slot index page ptr h in
          let left = unlink index page given in
          if (given.heads page).free_left == free_count (size_class index)
          then record left { provider = deallocate_pages page 0x1000 left.provider }
          else given
    ]

unfoldable pub new : {P : Type 0} → P → RustHeap P
new provider = record {
  bucket = 0 ∷ 0 ∷ 0 ∷ 0 ∷ 0 ∷ 0 ∷ 0 ∷ 0 ∷ 0 ∷ [];
  heads = λ a. record { prev = 0; next = 0; free_ptr = 0; free_left = 0 };
  links = λ a. 0;
  provider = provider;
}
