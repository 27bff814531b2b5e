-- ===== src/RbTree/Insert.antt =====
-- `insert` of library/try_alloc/src/collection/rbtree/map.rs as a whole.
use Prim.Native.Nat.{Ordering}
use cos_rs.Base.{
  ℕ, zero, suc, ◌+◌, ◌≤◌, ◌<◌, ◌≡◌, ◌≢◌, refl, sym, ap, subst, ◌∙◌, Bool, true, false, not, ◌&&◌,
  Option, none, some, arith,
}
use cos_rs.RbTree.{
  NodeColor, black, red, Entry, RbTreeMap, Run, done, panicked, out_of_fuel, ◌>>=◌, insert_fixup,
  is_none,
}
use cos_rs.RbTree.Shape.{
  Tree, leaf, node, Context, at_root, in_left, in_right, zip, count, count_up, one_at, one_at_self,
  top, parent_of, Zipped, red_top,
}
use cos_rs.RbTree.Moves.{Zipped-zip}
use cos_rs.RbTree.Balance.{
  inorder, Balanced, BalancedUp, red_above, black_above, zip-Balanced, RedBlack, Fits,
}
use cos_rs.RbTree.Loop.{depth}
use cos_rs.RbTree.Rounds.{fix_rounds-Restored}
use cos_rs.RbTree.Ops.{find_from, locate, attach, insert, put}
use cos_rs.RbTree.Attach.{Belongs, attach-Zipped}
use cos_rs.RbTree.Replace.{replace-Zipped}
use cos_rs.RbTree.Order.{IsOrd, Sorted, insert_sorted, lookup}
use cos_rs.RbTree.Find.{size, entry_at, find_from-lookup}
use cos_rs.RbTree.Locate.{plug, outcome, ins, inorder-ins, Stops, locate-Stops}

done_lem : {A : Type 0} (a b : A) → done a ≡ done b → a ≡ b
done_lem {A = A} a b e = ap out e
  where
    out : Run A → A
    out (done x) = x
    out panicked = a
    out out_of_fuel = a

one_at_other : (z a : ℕ) → one_at z a ≡ 0 → one_at a z ≡ 0
one_at_other z a h = ground arith

module _ {A : Type 0} where
  count-zip : (q : ℕ) (t : Tree A) (up : Context A) → count q (zip t up) ≡ count q t + count_up q up
  count-zip q t at_root = omega arith
  count-zip q t (in_left a c e r up) = omega (arith, count-zip q (node a c e t r) up)
  count-zip q t (in_right a c e l up) = omega (arith, count-zip q (node a c e l t) up)

  fits_above :
      (t : Tree A) (up : Context A)
      → (red_top t && not (black_above up)) ≡ false
      → (red_above up && red_top t) ≡ false
  fits_above t at_root h = refl
  fits_above t (in_left a black e r up) h = refl
  fits_above t (in_left a red e r up) h = ground arith
  fits_above t (in_right a black e r up) h = refl
  fits_above t (in_right a red e r up) h = ground arith

  Balanced-node :
      (n a z : ℕ) (c : NodeColor) (e d : A) (l r : Tree A)
      → Balanced n (node a c e l r)
      → Balanced n (node z c d l r)
  Balanced-node n a z black e d l r b = b
  Balanced-node n a z red e d l r b = b

module _ {K V : Type 0} where
  -- A node that is given back has an entry, and is no longer in the tree.
  abbrev pub Gone :
      RbTreeMap (Entry K V) → RbTreeMap (Entry K V) → Option ℕ → Tree (Entry K V) → Type 0
  Gone m k none s = Unit {0}
  Gone m k (some a) s = (count a s ≡ 0) × (a ≢ m.nil) × (is_none (k.nodes a).value ≡ false)

module _ {K V : Type 0} (cmp : K → K → Ordering) where
  -- The search of `insert` ends where that of `find` does.
  find_from-locate :
      (fuel y x : ℕ) (key : K) (m : RbTreeMap (Entry K V))
      → find_from cmp fuel x key m ≡ (locate cmp fuel y x key m >>= λ r. done r.1)
  unfolding find_from locate
  find_from-locate zero y x key m = refl
  find_from-locate (suc fuel) y x key m =
      let left = find_from-locate fuel x (m.nodes x).left key m in
      let right = find_from-locate fuel x (m.nodes x).right key m in ground arith

  red_top-ins :
      (z a : ℕ) (d : Entry K V) (t : Tree (Entry K V))
      → 1 ≤ count a t
      → red_top (ins cmp z d t) ≡ red_top t
  unfolding ins
  red_top-ins z a d leaf inside = absurd (omega arith)
  red_top-ins z a d (node b c e l r) inside = ground arith

  -- What `insert` does to a tree: the map is a red-black tree again, whose entries are those of a
  -- sorted list with the new entry inserted. A node it gives holds the old entry of the key.
  abbrev pub Inserted :
      RbTreeMap (Entry K V)
      → ℕ
      → Entry K V
      → Tree (Entry K V)
      → Run (Option ℕ × RbTreeMap (Entry K V))
      → Type 0
  Inserted m z d t run =
      (old : Option ℕ) × (k : RbTreeMap (Entry K V)) × (s : Tree (Entry K V)) × (run
        ≡ done (old, k))
      × Zipped k s at_root
      × RedBlack s
      × (inorder s ≡ insert_sorted cmp d (inorder t))
      × (entry_at k old ≡ lookup cmp d.key (inorder t))
      × ((q : ℕ) → count q s ≤ count q t + one_at q z)
      × Gone m k old s

  module _ (ord : IsOrd cmp) (fuel : ℕ) (m : RbTreeMap (Entry K V)) (z : ℕ) (d : Entry K V)
      (t : Tree (Entry K V)) (nz : z ≢ m.nil) (value : (m.nodes z).value ≡ some d)
      (new : count z t ≡ 0) (few : size t < fuel) (whole : Zipped m t at_root) (rules : RedBlack t)
      (sorted : Sorted cmp (inorder t)) where
    insert-run :
        (r : ℕ × Option ℕ)
        → locate cmp fuel m.nil (top m.nil t) d.key m ≡ done r
        → insert cmp fuel z m ≡ put cmp fuel z d.key m r
    unfolding insert
    insert-run r h =
        let start : insert cmp fuel z m
            ≡ (locate cmp fuel m.nil m.root d.key m >>= put cmp fuel z d.key m) =
          ground arith in
        start
        ∙ ap (λ x. locate cmp fuel m.nil x d.key m >>= put cmp fuel z d.key m) whole.above
        ∙ ap (λ x. x >>= put cmp fuel z d.key m) h

    -- No node has the key.
    insert_without :
        (around : Context (Entry K V)) (n : ℕ)
        → locate cmp fuel m.nil (top m.nil t) d.key m ≡ done (parent_of m.nil around, none)
        → Zipped m leaf around
        → BalancedUp n around
        → n ≡ 0
        → Belongs cmp d.key around
        → depth around < fuel
        → ((q : ℕ) → count_up q around ≡ count q t)
        → zip (node z red d leaf leaf) around ≡ ins cmp z d t
        → none ≡ lookup cmp d.key (inorder t)
        → Inserted m z d t (insert cmp fuel z m)
    unfolding insert_fixup
    insert_without around n run h above bottom place deep counts plugged looked =
        let m1 = attach cmp (parent_of m.nil around) z d.key m in
        let attached = attach-Zipped cmp m z d around nz value (counts z ∙ new) place h in
        let fixed =
          fix_rounds-Restored fuel around z m1 n d leaf leaf deep attached
            (refl, refl, bottom, bottom) above in
        let here = attached.below.0 in
        let ran = fixed.2 in
        (
          none,
          fixed.0,
          fixed.1,
          insert-run _ run ∙ ground arith,
          fixed.3,
          fixed.4,
          fixed.5.0 ∙ ap inorder plugged ∙ inorder-ins cmp ord z d t sorted,
          looked,
          λ q. omega (arith, fixed.5.1 q, count-zip q (node z red d leaf leaf) around, counts q),
          tt,
        )

    -- A node has it.
    insert_with :
        (a : ℕ) (c : NodeColor) (e : Entry K V) (l r : Tree (Entry K V))
        (around : Context (Entry K V)) (n : ℕ)
        → locate cmp fuel m.nil (top m.nil t) d.key m ≡ done (a, some a)
        → Zipped m (node a c e l r) around
        → Balanced n (node a c e l r)
        → BalancedUp n around
        → Fits (node a c e l r) around
        → ((q : ℕ) → count q (node a c e l r) + count_up q around ≡ count q t)
        → zip (node z c d l r) around ≡ ins cmp z d t
        → some e ≡ lookup cmp d.key (inorder t)
        → Inserted m z d t (insert cmp fuel z m)
    insert_with a c e l r around n run h below above fits counts plugged looked =
        let replaced = replace-Zipped m a z c e d l r around h nz value (counts z ∙ new) in
        let ran = replaced.1 in
        let inside : 1 ≤ count a t = omega (arith, counts a, one_at_self a) in
        let other : one_at a z ≡ 0 = one_at_other z a (omega (arith, new, counts z)) in
        let gone : count a (zip (node z c d l r) around) ≡ 0 =
          omega (arith, count-zip a (node z c d l r) around, h.once a, one_at_self a, other) in
        let balanced =
          zip-Balanced around n (node z c d l r) (fits_above (node a c e l r) around fits)
            (Balanced-node n a z c e d l r below) above in
        let put_back = Zipped-zip around replaced.2 in
        (
          some a,
          replaced.0,
          zip (node z c d l r) around,
          insert-run _ run ∙ ap (λ x. x >>= λ k. done (some a, k)) ran,
          put_back,
          (ap red_top plugged ∙ red_top-ins z a d t inside ∙ rules.0, balanced.0, balanced.1),
          ap inorder plugged ∙ inorder-ins cmp ord z d t sorted,
          replaced.3 ∙ looked,
          λ q. omega (arith, count-zip q (node z c d l r) around, counts q),
          (gone, h.below.0, ap is_none replaced.3),
        )

    -- One of the two is what the search finds.
    insert_found :
        (x : Stops cmp m (locate cmp fuel m.nil (top m.nil t) d.key m) d t at_root)
        (found : Tree (Entry K V))
        → x.found ≡ found
        → Inserted m z d t (insert cmp fuel z m)
    insert_found x leaf is =
        let search = find_from-lookup cmp ord fuel d.key m t at_root few whole sorted in
        let run = x.runs ∙ ap (λ f. done (outcome m f x.around)) is in
        let same = done_lem search.0 none (
          sym search.1
          ∙ find_from-locate fuel m.nil (top m.nil t) d.key m
          ∙ ap (λ r. r >>= λ r. done r.1) run) in
        insert_without x.around x.height run (subst (λ f. Zipped m f x.around) is x.zipped)
          x.balanced_up (subst (Balanced x.height) is x.balanced) x.belongs
          (omega (arith, x.smaller)) (λ q. omega (arith, x.counts q, ap (count q) is))
          (sym (ap (λ f. zip (plug z d f) x.around) is) ∙ x.plugged z)
          (sym (ap (entry_at m) same) ∙ search.2)
    insert_found x (node a c e l r) is =
        let search = find_from-lookup cmp ord fuel d.key m t at_root few whole sorted in
        let run = x.runs ∙ ap (λ f. done (outcome m f x.around)) is in
        let here = subst (λ f. Zipped m f x.around) is x.zipped in
        let same = done_lem search.0 (some a) (
          sym search.1
          ∙ find_from-locate fuel m.nil (top m.nil t) d.key m
          ∙ ap (λ r. r >>= λ r. done r.1) run) in
        insert_with a c e l r x.around x.height run here (subst (Balanced x.height) is x.balanced)
          x.balanced_up (subst (λ f. Fits f x.around) is x.fits)
          (λ q. omega (arith, x.counts q, ap (count q) is))
          (sym (ap (λ f. zip (plug z d f) x.around) is) ∙ x.plugged z)
          (sym here.below.1.4 ∙ sym (ap (entry_at m) same) ∙ search.2)

    -- For a lawful order of the keys, a map whose nodes form a red-black tree sorted by key, a
    -- node with an entry that is neither NIL nor in the tree, and fuel above the number of nodes,
    -- insert ends and leaves a map whose nodes form a red-black tree again, whose entries are
    -- those before with the new one inserted at its place or in place of that of its key; it
    -- gives the node that held the key before, which is no longer in the tree, or none.
    pub insert-Inserted : Inserted m z d t (insert cmp fuel z m)
    insert-Inserted =
        let x =
          locate-Stops cmp fuel m d t at_root few whole
            (rules.1, rules.2, tt, root_fits (red_top t) rules.0) tt in
        insert_found x x.found refl
      where
        root_fits : (b : Bool) → b ≡ false → (b && true) ≡ false
        root_fits true h = h
        root_fits false h = refl
