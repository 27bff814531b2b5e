-- ===== src/RbTree/Delete.antt =====
-- The operations of `RBTreeMap` in library/try_alloc/src/collection/rbtree/map.rs that take a node out.
use Prim.Native.Nat.{Ordering}
use cos_rs.Base.{
  ℕ, zero, suc, Option, none, some, ◌==◌, if◌then◌else◌, Bool, true, false, not, ◌&&◌,
}
use cos_rs.RbTree.{
  black, red, Entry, RbTreeMap, Run, done, panicked, out_of_fuel, ◌>>=◌, is_red, is_nil, set_parent,
  set_left, set_right, set_color, adopt, relink, rotate_left, rotate_right,
}
use cos_rs.RbTree.Ops.{find, unbox}

module _ {A : Type 0} where
  -- A NIL node in the place of another does not learn its parent.
  unfoldable pub transplanted : ℕ → ℕ → RbTreeMap A → RbTreeMap A
  transplanted u v m =
      let m1 = relink (m.nodes u).parent u v m in
      let m2 = adopt v (m1.nodes u).parent m1 in set_parent u m2.nil m2

  unfoldable pub transplant : ℕ → ℕ → RbTreeMap A → Run (RbTreeMap A)
  transplant u v m =
      if u == m.nil then panicked else if u == v then panicked else done (transplanted u v m)

  unfoldable pub tree_minimum : ℕ → ℕ → RbTreeMap A → Run ℕ
  tree_minimum zero a m = out_of_fuel
  tree_minimum (suc fuel) a m = elim (is_nil m (m.nodes a).left) [
    | true ↦ done a
    | false ↦ tree_minimum fuel (m.nodes a).left m
  ]

-- How a round of `delete_fixup` ends: with the node to go on at, or with `break`.
pub data Round (A : Type 0) : Type 0 where
  again : ℕ → RbTreeMap A → Round A
  stop : RbTreeMap A → Round A

module _ {A : Type 0} where
  -- 1. The sibling is red.
  unfoldable pub lower_left : ℕ → RbTreeMap A → Run (RbTreeMap A)
  lower_left x m =
      let p = (m.nodes x).parent in
      let y = (m.nodes p).right in
      if is_red (m.nodes y).color
      then (let m1 = set_color y (m.nodes p).color m in
          let m2 = set_color (m1.nodes x).parent red m1 in rotate_left (m2.nodes x).parent m2)
      else done m

  unfoldable pub lower_right : ℕ → RbTreeMap A → Run (RbTreeMap A)
  lower_right x m =
      let p = (m.nodes x).parent in
      let y = (m.nodes p).left in
      if is_red (m.nodes y).color
      then (let m1 = set_color y (m.nodes p).color m in
          let m2 = set_color (m1.nodes x).parent red m1 in rotate_right (m2.nodes x).parent m2)
      else done m

  -- 2. Both children of the sibling are black.
  abbrev pub both_black : ℕ → RbTreeMap A → Bool
  both_black y m =
      not (is_red (m.nodes (m.nodes y).left).color)
      && not (is_red (m.nodes (m.nodes y).right).color)

  unfoldable pub give_up : ℕ → ℕ → RbTreeMap A → Round A
  give_up x y m =
      let m1 = set_color y red m in
      let q = (m1.nodes x).parent in
      if is_red (m1.nodes q).color then stop (set_color q black m1) else again q m1

  -- 3. and 4. The near child of the sibling is raised if it alone is red, then the far one moves.
  unfoldable pub raise_near_left : ℕ → RbTreeMap A → Run (RbTreeMap A)
  raise_near_left y m =
      if is_red (m.nodes (m.nodes y).left).color && not (is_red (m.nodes (m.nodes y).right).color)
      then (let m1 = set_color y red m in rotate_right y (set_color (m1.nodes y).left black m1))
      else done m

  unfoldable pub raise_near_right : ℕ → RbTreeMap A → Run (RbTreeMap A)
  raise_near_right y m =
      if is_red (m.nodes (m.nodes y).right).color && not (is_red (m.nodes (m.nodes y).left).color)
      then (let m1 = set_color y red m in rotate_left y (set_color (m1.nodes y).right black m1))
      else done m

  unfoldable pub move_far_left : ℕ → RbTreeMap A → Run (Round A)
  move_far_left x m =
      let p = (m.nodes x).parent in
      let y = (m.nodes p).right in
      if is_red (m.nodes (m.nodes y).right).color
      then (let m1 = set_color y (m.nodes p).color m in
          let m2 = set_color (m1.nodes x).parent black m1 in
          let m3 = set_color (m2.nodes y).right black m2 in
          rotate_left (m3.nodes x).parent m3 >>= λ k. done (stop k))
      else done (again x m)

  unfoldable pub move_far_right : ℕ → RbTreeMap A → Run (Round A)
  move_far_right x m =
      let p = (m.nodes x).parent in
      let y = (m.nodes p).left in
      if is_red (m.nodes (m.nodes y).left).color
      then (let m1 = set_color y (m.nodes p).color m in
          let m2 = set_color (m1.nodes x).parent black m1 in
          let m3 = set_color (m2.nodes y).left black m2 in
          rotate_right (m3.nodes x).parent m3 >>= λ k. done (stop k))
      else done (again x m)

  unfoldable pub fill_left : ℕ → RbTreeMap A → Run (Round A)
  fill_left x m = lower_left x m >>= λ k.
      let y = (k.nodes (k.nodes x).parent).right in
      if both_black y k then done (give_up x y k) else raise_near_left y k >>= move_far_left x

  unfoldable pub fill_right : ℕ → RbTreeMap A → Run (Round A)
  fill_right x m = lower_right x m >>= λ k.
      let y = (k.nodes (k.nodes x).parent).left in
      if both_black y k then done (give_up x y k) else raise_near_right y k >>= move_far_right x

  -- One round, whose assertion is that the node is black.
  unfoldable pub fill : ℕ → RbTreeMap A → Run (Round A)
  fill x m =
      if is_red (m.nodes x).color
      then panicked
      else if (m.nodes (m.nodes x).parent).left == x
      then fill_left x m
      else fill_right x m

  unfoldable pub delete_fixup : ℕ → ℕ → RbTreeMap A → Run (RbTreeMap A)
  delete_fixup zero x m = out_of_fuel
  delete_fixup (suc fuel) x m = elim (x == m.root) [
    | true ↦ done (set_color m.root black m)
    | false ↦ fill x m >>= λ r. elim r [
      | again q k ↦ delete_fixup fuel q k
      | stop k ↦ done (set_color k.root black k)
    ]
  ]

  -- The end of `delete`: the node in the place of the one that was taken out, and its color.
  abbrev pub settle : ℕ → ℕ → Bool → RbTreeMap A → Run (RbTreeMap A)
  settle fuel x was_red m =
      if was_red
      then done m
      else if is_red (m.nodes x).color
      then done (set_color x black m)
      else delete_fixup fuel x m

  -- The successor leaves its place, unless it is the right child.
  unfoldable pub detach_next : ℕ → ℕ → RbTreeMap A → Run (RbTreeMap A)
  detach_next z y m =
      let x = (m.nodes y).right in
      if (m.nodes y).parent == z
      then done (set_parent x y m)
      else transplant y x m >>= λ k.
          let k1 = set_right y (k.nodes z).right k in done (set_parent (k1.nodes y).right y k1)

  unfoldable pub take_place : ℕ → ℕ → RbTreeMap A → Run (RbTreeMap A)
  take_place z y m = transplant z y m >>= λ k.
      let k1 = set_left y (k.nodes z).left k in
      let k2 = set_parent (k1.nodes y).left y k1 in done (set_color y (k2.nodes z).color k2)

  abbrev pub delete_inner : ℕ → ℕ → ℕ → RbTreeMap A → Run (RbTreeMap A)
  delete_inner fuel z y m =
      detach_next z y m
      >>= take_place z y
      >>= settle fuel (m.nodes y).right (is_red (m.nodes y).color)

  unfoldable pub delete : ℕ → ℕ → RbTreeMap A → Run (RbTreeMap A)
  delete fuel z m =
      let left = (m.nodes z).left in
      let right = (m.nodes z).right in
      if z == m.nil
      then panicked
      else if is_nil m left
      then (transplant z right m >>= settle fuel right (is_red (m.nodes z).color))
      else if is_nil m right
      then (transplant z left m >>= settle fuel left (is_red (m.nodes z).color))
      else (tree_minimum fuel right m >>= λ y. delete_inner fuel z y m)

module _ {K V : Type 0} (cmp : K → K → Ordering) where
  unfoldable pub remove_raw : ℕ → K → RbTreeMap (Entry K V) → Run (Option ℕ × RbTreeMap (Entry K V))
  remove_raw fuel key m = find cmp fuel key m >>= λ o. elim o [
    | none ↦ done (none, m)
    | some a ↦ delete fuel a m >>= λ k. done (some a, k)
  ]

  unfoldable pub remove : ℕ → K → RbTreeMap (Entry K V) → Run (Option V × RbTreeMap (Entry K V))
  remove fuel key m = remove_raw fuel key m >>= unbox cmp
