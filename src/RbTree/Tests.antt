-- ===== src/RbTree/Tests.antt =====
-- Runs of library/try_alloc/src/collection/rbtree/map.rs with numbers as keys and values.
use Prim.Native.Nat.{Ordering}
use cos_rs.Base.{
  ℕ, ◌*◌, ◌≡◌, ◌≢◌, refl, Bool, true, false, Option, none, some, List, [], ◌∷◌, ◌++◌, ◌==◌,
  if◌then◌else◌, ltb, store, arith,
}
use cos_rs.RbTree.{NodeColor, black, red, Entry, RbNode, RbTreeMap, Run, done, ◌>>=◌, is_none}
use cos_rs.RbTree.Shape.{Tree, leaf, node, Context, at_root, in_right, Zipped}
use cos_rs.RbTree.Balance.{inorder, RedBlack}
use cos_rs.RbTree.Ops.{detached, nil_node, new, find_from, find, get, insert, try_insert}
use cos_rs.RbTree.Order.{IsOrd, Sorted}
use cos_rs.RbTree.Insert.{Inserted, insert-Inserted}
use cos_rs.RbTree.Map.{Represents, value_of}
use cos_rs.RbTree.Delete.{
  transplant, transplanted, tree_minimum, lower_left, lower_right, give_up, fill_left, fill_right,
  fill, delete_fixup, detach_next, take_place, delete, remove_raw, remove,
}
use cos_rs.RbTree.Removal.{delete-Edge}
use cos_rs.RbTree.Sequence.{insert_all, last_of, insert_all-get}
use cos_rs.RbTree.Contract.{try_insert-get}

unfoldable compare : ℕ → ℕ → Ordering
compare a b = if ltb a b then Ordering.lt else if a == b then Ordering.eq else Ordering.gt

compare-IsOrd : IsOrd compare
unfolding compare
compare-IsOrd = record {
  lt_trans = λ a b c. ground arith;
  gt_lt = λ a b. ground arith;
  lt_gt = λ a b. ground arith;
  eq_refl = λ a. ground arith;
  eq_like = λ a b c. ground arith;
}

abbrev entry : ℕ → Entry ℕ ℕ
entry key = record { key = key; value = key * 10 }

abbrev at : ℕ → ℕ → ℕ → NodeColor → ℕ → RbNode (Entry ℕ ℕ)
at parent left right color key = record {
  parent = parent;
  left = left;
  right = right;
  color = color;
  value = some (entry key);
}

-- A black root with a red right child; and a third node, detached or below the second.
abbrev two : RbNode (Entry ℕ ℕ) → ℕ → RbTreeMap (Entry ℕ ℕ)
two third below = record {
  root = 10;
  nil = 1;
  nodes =
      store 1 (nil_node 1)
        (store 10 (at 1 1 20 black 5) (store 20 (at 10 1 below red 7) (λ q. third)));
}

abbrev loose : RbTreeMap (Entry ℕ ℕ)
loose = two (detached (entry 9)) 1

abbrev tree : Tree (Entry ℕ ℕ)
tree = node 10 black (entry 5) leaf (node 20 red (entry 7) leaf leaf)

loose-Zipped : Zipped loose tree at_root
loose-Zipped = record {
  nil_value = refl;
  nil_color = refl;
  below = (
    omega arith,
    (refl, refl, refl, refl, refl),
    tt,
    (omega arith, (refl, refl, refl, refl, refl), tt, tt),
  );
  above = refl;
  once = λ q. ground arith;
}

loose-Sorted : Sorted compare (entry 5 ∷ entry 7 ∷ [])
unfolding compare
loose-Sorted = ((refl, tt), (tt, tt))

abbrev loose_map : Represents compare loose (entry 5 ∷ entry 7 ∷ [])
loose_map = record {
  tree = tree;
  zipped = loose-Zipped;
  rules = (refl, 1, (0, refl, refl, (refl, refl, refl, refl)));
  entries = refl;
  sorted = loose-Sorted;
  usable = omega arith;
  no_dangling = refl;
}

insert-Inserted_example : Inserted compare loose 30 (entry 9) tree (insert compare 3 30 loose)
unfolding compare
insert-Inserted_example =
    insert-Inserted compare compare-IsOrd 3 loose 30 (entry 9) tree (omega arith) refl refl
      (omega arith) loose-Zipped (refl, 1, (0, refl, refl, (refl, refl, refl, refl)))
      ((refl, tt), (tt, tt))

abbrev blank : ℕ → RbNode (Entry ℕ ℕ)
blank q = nil_node 0

-- Three keys, one of them twice.
abbrev calls : List (ℕ × Entry ℕ ℕ)
calls = (10, entry 5) ∷ (20, entry 7) ∷ (30, record { key = 5; value = 1 }) ∷ (40, entry 9) ∷ []

insert_all-get_example :
    (m : RbTreeMap (Entry ℕ ℕ)) × (k : RbTreeMap (Entry ℕ ℕ)) × (new (some 1) blank ≡ some m)
    × (insert_all compare 5 calls m ≡ done k)
    × ((key : ℕ) → get compare 5 key k ≡ done (value_of (last_of compare key calls none)))
insert_all-get_example =
    insert_all-get compare compare-IsOrd 5 1 blank calls (omega arith) (λ q. ground arith)
      (omega arith)

try_insert-get_example :
    (old : Option ℕ) × (k : RbTreeMap (Entry ℕ ℕ)) × (try_insert compare 4 (some 30) 9 91 loose
      ≡ done (some (old, k)))
    × (get compare 4 9 loose ≡ done old)
    × (get compare 4 9 k ≡ done (some 91))
    × ((other : ℕ)
        → compare other 9 ≢ Ordering.eq
        → get compare 4 other k ≡ get compare 4 other loose)
try_insert-get_example =
    try_insert-get compare compare-IsOrd 4 30 9 91 loose (entry 5 ∷ entry 7 ∷ []) loose_map
      (omega arith) (omega arith) refl (omega arith)

abbrev below_root : Context (Entry ℕ ℕ)
below_root = in_right 10 black (entry 5) leaf at_root

loose-Zipped_below : Zipped loose (node 20 red (entry 7) leaf leaf) below_root
loose-Zipped_below = record {
  nil_value = refl;
  nil_color = refl;
  below = (omega arith, (refl, refl, refl, refl, refl), tt, tt);
  above = (omega arith, (refl, refl, refl, refl, refl), tt, refl);
  once = λ q. ground arith;
}

delete-Edge_example :
    (k : RbTreeMap (Entry ℕ ℕ)) × (s : Tree (Entry ℕ ℕ)) × (before : List (Entry ℕ ℕ))
    × (after : List (Entry ℕ ℕ)) × (delete 3 20 loose ≡ done k)
    × Zipped k s at_root
    × RedBlack s
    × (entry 5 ∷ entry 7 ∷ [] ≡ before ++ (entry 7 ∷ after))
    × (inorder s ≡ before ++ after)
delete-Edge_example =
    delete-Edge 3 20 loose red (entry 7) leaf leaf below_root loose-Zipped_below
      (refl, 1, (0, refl, refl, (refl, refl, refl, refl))) refl

-- A root with two children, all black.
abbrev three : RbTreeMap (Entry ℕ ℕ)
three = record {
  root = 10;
  nil = 1;
  nodes =
      store 1 (nil_node 1)
        (store 10 (at 1 11 12 black 2) (store 11 (at 10 1 1 black 1) (λ q. at 10 1 1 black 3)));
}

-- The root, the colors of its children and whether they are NIL.
abbrev shape : RbTreeMap (Entry ℕ ℕ) → ℕ × NodeColor × Bool × NodeColor × Bool
shape m =
    let left = (m.nodes m.root).left in
    let right = (m.nodes m.root).right in
    (
      m.root,
      (m.nodes left).color,
      is_none (m.nodes left).value,
      (m.nodes right).color,
      is_none (m.nodes right).value,
    )

abbrev seen : Option ℕ × RbTreeMap (Entry ℕ ℕ) → Run (ℕ × NodeColor × Bool × NodeColor × Bool)
seen r = done (shape r.1)

-- With a black leaf removed, the other child of the root is still black.
black_leaf_removed : (remove compare 5 3 three >>= seen) ≡ done (10, black, false, black, true)
unfolding compare remove remove_raw find find_from delete transplant transplanted delete_fixup fill
    fill_left lower_left give_up
black_leaf_removed = refl

abbrev root_and_left_over : Option ℕ × RbTreeMap (Entry ℕ ℕ) → Run (ℕ × ℕ)
root_and_left_over r = done (r.1.root, (r.1.nodes r.1.nil).parent)

-- With all entries removed, the NIL node still has a node as its parent.
parent_left_over :
    (remove compare 5 2 three >>= λ r.
    remove compare 5 1 r.1 >>= λ r. remove compare 5 3 r.1 >>= root_and_left_over)
    ≡ done (1, 12)
unfolding compare remove remove_raw find find_from delete tree_minimum detach_next take_place
    transplant transplanted delete_fixup fill fill_right lower_right give_up
parent_left_over = refl
