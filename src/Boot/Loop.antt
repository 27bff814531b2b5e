-- ===== src/Boot/Loop.antt =====
-- The loop over steps 3 and 4 of bootloader/src/memory.rs ends.
use cos_rs.Base.{ℕ, zero, suc, ◌<◌, ◌≡◌, ◌∙◌, inl, inr, some, List, length, ◌==◌, Bool-cases, arith}
use cos_rs.Kernel.Frames.{MemoryRegion}
use cos_rs.Boot.{type_reserved, resolve, remove_empty, rounds}
use cos_rs.Boot.Total.{total, hit, beyond, room, Sorted, SortsByBase}
use cos_rs.Boot.Rounds.{
  Apart, Apart-remove_empty, Apart-Sorted, Apart-resolve, Shrinks, Shrinks-trans,
  Shrinks-remove_empty, Shrinks-resolve, room-resolve, room-remove_empty,
}

module _ (sort : List MemoryRegion → List MemoryRegion) (sorts : SortsByBase sort) where
  Shrinks-sort : (l q : List MemoryRegion) → Shrinks l q → Shrinks l (sort q)
  Shrinks-sort l q x = record {
    inside = sorts.total_sort beyond q ∙ x.inside;
    no_more = λ type a. omega (arith, x.no_more type a, sorts.total_sort (hit type a) q);
    reserved_stays = λ a found.
        omega (arith, x.reserved_stays a found, sorts.total_sort (hit type_reserved a) q);
  }

  abbrev pub Settles : ℕ → List MemoryRegion → Type 0
  Settles fuel l =
      (out : List MemoryRegion) × (rounds sort fuel l ≡ some out) × Apart 0 out × Shrinks l out

  Settles-next :
      (fuel : ℕ) (l q : List MemoryRegion)
      → rounds sort (suc fuel) l ≡ rounds sort fuel q
      → Shrinks l q
      → Settles fuel q
      → Settles (suc fuel) l
  Settles-next fuel l q e x t = (t.0, e ∙ t.1, t.2, Shrinks-trans l q t.0 x t.3)

  -- One more round than the room lets happen is enough.
  pub rounds-Settles :
      (fuel : ℕ) (l : List MemoryRegion)
      → total room l < fuel
      → total beyond l ≡ 0
      → Sorted 0 l
      → Settles fuel l
  unfolding rounds
  rounds-Settles zero l enough h s = absurd (omega arith)
  rounds-Settles (suc fuel) l enough h s =
      let q = (resolve l).0 in
      let x = Shrinks-resolve l h s in
      let left = room-resolve l h in
      let removed = room-remove_empty q x.inside in
      elim (Bool-cases (resolve l).1) [
        | inl moved ↦
            let y = Shrinks-sort l q x in
            Settles-next fuel l (sort q) (ground arith) y (
              rounds-Settles fuel (sort q) (let same = sorts.total_sort room q in ground arith)
                y.inside (sorts.sorted_sort q))
        | inr still ↦
            let apart = Apart-resolve l h s still in
            elim (Bool-cases (length (remove_empty q) == length q)) [
              | inl same ↦ (q, ground arith, apart, x)
              | inr fewer ↦
                  let y = Shrinks-trans l q (remove_empty q) x (Shrinks-remove_empty q x.inside) in
                  Settles-next fuel l (remove_empty q) (ground arith) y (
                    rounds-Settles fuel (remove_empty q) (ground arith) y.inside
                      (Apart-Sorted 0 (remove_empty q) (Apart-remove_empty 0 q apart)))
            ]
      ]
