-- ===== src/RbTree.antt =====
-- library/try_alloc/src/collection/rbtree: the map on a red-black tree of nodes with pointers to the
-- parent and to the children, and one NIL node.
--
-- Memory is a function from an address to a node. `NonNull` pointers are numbers; `dangling` is the
-- largest. A failed `assert` is `panicked`; the loops recur on fuel.
pub mod Shape
pub mod Rotate
pub mod Mirror
pub mod Moves
pub mod Fixup
pub mod Step
pub mod Balance
pub mod Loop
pub mod Rounds
pub mod Ops
pub mod Attach
pub mod Replace
pub mod Order
pub mod Find
pub mod Locate
pub mod Insert
pub mod Nil
pub mod Map
pub mod Contract
pub mod Sequence
pub mod Delete
pub mod Transplant
pub mod Unzip
pub mod Removal
mod Tests
use cos_rs.Base.{
  ℕ, zero, suc, ◌-◌, ◌^◌, Bool, true, false, not, ◌&&◌, Option, none, some, ◌==◌, if◌then◌else◌,
  store,
}
use Prim.Native.Nat.{Ordering}

pub data NodeColor : Type 0 where
  black red : NodeColor

pub record Entry (K V : Type 0) : Type 0 where
  pub key : K
  pub value : V

pub record RbNode (A : Type 0) : Type 0 where
  pub parent : ℕ
  pub left : ℕ
  pub right : ℕ
  pub color : NodeColor
  pub value : Option A

pub record RbTreeMap (A : Type 0) : Type 0 where
  pub root : ℕ
  pub nil : ℕ
  pub nodes : ℕ → RbNode A

pub data Run (A : Type 0) : Type 0 where
  done : A → Run A
  panicked : Run A
  out_of_fuel : Run A

infixl 5 ◌>>=◌
abbrev pub ◌>>=◌ : {A B : Type 0} → Run A → (A → Run B) → Run B
done a >>= f = f a
panicked >>= f = panicked
out_of_fuel >>= f = out_of_fuel

abbrev pub dangling : ℕ
dangling = 2 ^ 64 - 1

abbrev pub is_red : NodeColor → Bool
is_red red = true
is_red black = false

abbrev pub is_none : {A : Type 0} → Option A → Bool
is_none none = true
is_none (some a) = false

module _ {A : Type 0} where
  abbrev pub is_nil : RbTreeMap A → ℕ → Bool
  is_nil m a = is_none (m.nodes a).value

  abbrev pub set_node : ℕ → RbNode A → RbTreeMap A → RbTreeMap A
  set_node a n m = record m { nodes = store a n m.nodes }

  abbrev pub set_parent : ℕ → ℕ → RbTreeMap A → RbTreeMap A
  set_parent a p m = set_node a (record (m.nodes a) { parent = p }) m

  abbrev pub set_left : ℕ → ℕ → RbTreeMap A → RbTreeMap A
  set_left a p m = set_node a (record (m.nodes a) { left = p }) m

  abbrev pub set_right : ℕ → ℕ → RbTreeMap A → RbTreeMap A
  set_right a p m = set_node a (record (m.nodes a) { right = p }) m

  abbrev pub set_color : ℕ → NodeColor → RbTreeMap A → RbTreeMap A
  set_color a c m = set_node a (record (m.nodes a) { color = c }) m

  -- `if !node.is_nil() { node.parent = p }`.
  abbrev pub adopt : ℕ → ℕ → RbTreeMap A → RbTreeMap A
  adopt a p m = if is_nil m a then m else set_parent a p m

  -- The child that was `u` becomes `v`, where `p` is the parent; at the root there is none.
  abbrev pub relink : ℕ → ℕ → ℕ → RbTreeMap A → RbTreeMap A
  relink p u v m =
      if is_nil m p
      then record m { root = v }
      else if u == (m.nodes p).left
      then set_left p v m
      else set_right p v m

  -- The same, but the right child is looked at first.
  abbrev pub relink_right : ℕ → ℕ → ℕ → RbTreeMap A → RbTreeMap A
  relink_right p u v m =
      if is_nil m p
      then record m { root = v }
      else if u == (m.nodes p).right
      then set_right p v m
      else set_left p v m

  unfoldable pub turn_left : ℕ → RbTreeMap A → RbTreeMap A
  turn_left x m =
      let y = (m.nodes x).right in
      let m1 = set_right x (m.nodes y).left m in
      let m2 = adopt (m1.nodes y).left x m1 in
      let m3 = set_parent y (m2.nodes x).parent m2 in
      let m4 = relink (m3.nodes x).parent x y m3 in set_parent x y (set_left y x m4)

  unfoldable pub turn_right : ℕ → RbTreeMap A → RbTreeMap A
  turn_right x m =
      let y = (m.nodes x).left in
      let m1 = set_left x (m.nodes y).right m in
      let m2 = adopt (m1.nodes y).right x m1 in
      let m3 = set_parent y (m2.nodes x).parent m2 in
      let m4 = relink_right (m3.nodes x).parent x y m3 in set_parent x y (set_right y x m4)

  unfoldable pub rotate_left : ℕ → RbTreeMap A → Run (RbTreeMap A)
  rotate_left x m =
      if x == m.nil
      then panicked
      else if (m.nodes x).right == m.nil
      then panicked
      else done (turn_left x m)

  unfoldable pub rotate_right : ℕ → RbTreeMap A → Run (RbTreeMap A)
  rotate_right x m =
      if x == m.nil
      then panicked
      else if (m.nodes x).left == m.nil
      then panicked
      else done (turn_right x m)

  -- The parent becomes black and the grandparent red, and the grandparent is turned to the right.
  unfoldable pub raise_right : ℕ → RbTreeMap A → Run (ℕ × RbTreeMap A)
  raise_right z m =
      let m1 = set_color (m.nodes z).parent black m in
      let g = (m1.nodes (m1.nodes z).parent).parent in
      rotate_right g (set_color g red m1) >>= λ k. done (z, k)

  unfoldable pub raise_left : ℕ → RbTreeMap A → Run (ℕ × RbTreeMap A)
  raise_left z m =
      let m1 = set_color (m.nodes z).parent black m in
      let g = (m1.nodes (m1.nodes z).parent).parent in
      rotate_left g (set_color g red m1) >>= λ k. done (z, k)

  -- The parent is the left child of the grandparent: the node to go on with, and the map.
  unfoldable pub fix_left : ℕ → RbTreeMap A → Run (ℕ × RbTreeMap A)
  fix_left z m =
      let p = (m.nodes z).parent in
      let g = (m.nodes p).parent in
      let y = (m.nodes g).right in
      if is_red (m.nodes y).color
      then done (g, set_color g red (set_color y black (set_color p black m)))
      else if z == (m.nodes p).right
      then rotate_left p m >>= raise_right p
      else raise_right z m

  -- The parent is the right child.
  unfoldable pub fix_right : ℕ → RbTreeMap A → Run (ℕ × RbTreeMap A)
  fix_right z m =
      let p = (m.nodes z).parent in
      let g = (m.nodes p).parent in
      let y = (m.nodes g).left in
      if is_red (m.nodes y).color
      then done (g, set_color g red (set_color y black (set_color p black m)))
      else if z == (m.nodes p).left
      then rotate_right p m >>= raise_left p
      else raise_left z m

  unfoldable pub fix_step : ℕ → RbTreeMap A → Run (ℕ × RbTreeMap A)
  fix_step z m =
      let p = (m.nodes z).parent in
      if p == (m.nodes (m.nodes p).parent).left then fix_left z m else fix_right z m

  -- The loop of `insert_fixup`.
  unfoldable pub fix_rounds : ℕ → ℕ → RbTreeMap A → Run (RbTreeMap A)
  fix_rounds zero z m = out_of_fuel
  fix_rounds (suc fuel) z m = elim (is_red (m.nodes (m.nodes z).parent).color) [
    | true ↦ fix_step z m >>= λ r. fix_rounds fuel r.0 r.1
    | false ↦ done (set_color m.root black m)
  ]

  unfoldable pub insert_fixup : ℕ → ℕ → RbTreeMap A → Run (RbTreeMap A)
  insert_fixup fuel z m = if z == m.nil then panicked else fix_rounds fuel z m

  -- The new node gets the color, the children and the parent of the old one.
  unfoldable pub copied : ℕ → ℕ → RbTreeMap A → RbTreeMap A
  copied u v m =
      let m1 = set_color v (m.nodes u).color m in
      let m2 = set_left v (m1.nodes u).left m1 in
      let m3 = adopt (m2.nodes v).left v m2 in
      let m4 = set_right v (m3.nodes u).right m3 in
      let m5 = adopt (m4.nodes v).right v m4 in set_parent v (m5.nodes u).parent m5

  -- The parent gets the new child, and the old node is cleared.
  unfoldable pub exchanged : ℕ → ℕ → RbTreeMap A → RbTreeMap A
  exchanged u v m =
      let m1 = relink (m.nodes v).parent u v m in
      set_right u dangling (set_left u dangling (set_parent u dangling m1))

  unfoldable pub replace : ℕ → ℕ → RbTreeMap A → Run (RbTreeMap A)
  replace u v m =
      if u == m.nil
      then panicked
      else if v == m.nil
      then panicked
      else done (exchanged u v (copied u v m))
