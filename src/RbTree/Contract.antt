-- ===== src/RbTree/Contract.antt =====
-- Inserting through the public operations of library/try_alloc/src/collection/rbtree/map.rs.
use Prim.Native.Nat.{Ordering}
use cos_rs.Base.{
  ℕ, suc, ◌+◌, ◌≤◌, ◌<◌, ◌≡◌, ◌≢◌, refl, sym, ap, subst, ◌∙◌, Option, none, some, List, length,
  arith,
}
use cos_rs.RbTree.{Entry, RbNode, RbTreeMap, done, ◌>>=◌, dangling, set_node}
use cos_rs.RbTree.Shape.{count, one_at, Holds-frame}
use cos_rs.RbTree.Attach.{old-ne}
use cos_rs.RbTree.Ops.{get, insert, insert_raw, unbox, detached, try_insert}
use cos_rs.RbTree.Order.{IsOrd, Sorted, insert_sorted, lookup, Sorted-insert_sorted}
use cos_rs.RbTree.Find.{entry_at}
use cos_rs.RbTree.Insert.{Gone, insert-Inserted}
use cos_rs.RbTree.Nil.{insert-nil}
use cos_rs.RbTree.Map.{
  Represents, length-inorder, root_usable, value_of, get-lookup, lookup-insert_sorted,
  lookup-insert_sorted_other, length-insert_sorted,
}

one_at_apart : (q z : ℕ) → q ≢ z → one_at q z ≡ 0
one_at_apart q z ne = ground arith

module _ {K V : Type 0} (cmp : K → K → Ordering) where
  -- A node out of the tree may change.
  Represents-set_node :
      (a : ℕ) (n : RbNode (Entry K V)) (m : RbTreeMap (Entry K V)) (l : List (Entry K V))
      (r : Represents cmp m l)
      → count a r.tree ≡ 0
      → a ≢ m.nil
      → (r' : Represents cmp (set_node a n m) l) × (r'.tree ≡ r.tree)
  Represents-set_node a n m l r out ne =
      let same : (q : ℕ) → 0 < count q r.tree → (set_node a n m).nodes q ≡ m.nodes q =
        λ q i. (let far = old-ne (λ v. count v r.tree) q a out i in ground arith) in
      let nil_same : (set_node a n m).nodes m.nil ≡ m.nodes m.nil = ground arith in
      (
        record {
          tree = r.tree;
          zipped = record {
            nil_value = ap (λ x. x.value) nil_same ∙ r.zipped.nil_value;
            nil_color = ap (λ x. x.color) nil_same ∙ r.zipped.nil_color;
            below = Holds-frame m (set_node a n m) m.nil r.tree refl same r.zipped.below;
            above = r.zipped.above;
            once = r.zipped.once;
          };
          rules = r.rules;
          entries = r.entries;
          sorted = r.sorted;
          usable = r.usable;
          no_dangling = r.no_dangling;
        },
        refl,
      )

  insert_raw-run :
      (fuel z : ℕ) (m : RbTreeMap (Entry K V))
      → m.root ≢ dangling
      → m.nil ≢ dangling
      → insert_raw cmp fuel z m ≡ insert cmp fuel z m
  unfolding insert_raw
  insert_raw-run fuel z m a b = ground arith

  module _ (ord : IsOrd cmp) (fuel : ℕ) (z : ℕ) (usable : z ≢ dangling) (l : List (Entry K V))
      (few : length l < fuel) where
    insert_raw-Represents :
        (d : Entry K V) (m : RbTreeMap (Entry K V)) (r : Represents cmp m l)
        → z ≢ m.nil
        → (m.nodes z).value ≡ some d
        → count z r.tree ≡ 0
        → (old : Option ℕ) × (k : RbTreeMap (Entry K V)) × (insert_raw cmp fuel z m ≡ done (old, k))
          × (k.nil ≡ m.nil)
          × (r' : Represents cmp k (insert_sorted cmp d l)) × (entry_at k old ≡ lookup cmp d.key l)
          × ((q : ℕ) → count q r'.tree ≤ count q r.tree + one_at q z)
          × Gone m k old r'.tree
    insert_raw-Represents d m r nz value new =
        let sorted = subst (Sorted cmp) (sym r.entries) r.sorted in
        let x =
          insert-Inserted cmp ord fuel m z d r.tree nz value new
            (omega (arith, length-inorder r.tree, ap length r.entries)) r.zipped r.rules sorted in
        let nil_same = insert-nil cmp fuel z m x.1 x.0 x.3 in
        (
          x.0,
          x.1,
          insert_raw-run fuel z m (root_usable cmp ord r) r.usable ∙ x.3,
          nil_same,
          record {
            tree = x.2;
            zipped = x.4;
            rules = x.5;
            entries = x.6 ∙ ap (insert_sorted cmp d) r.entries;
            sorted = Sorted-insert_sorted cmp ord d l r.sorted;
            usable = λ h. r.usable (sym nil_same ∙ h);
            no_dangling =
                omega (
                  arith,
                  x.8 dangling,
                  r.no_dangling,
                  one_at_apart dangling z (λ h. usable (sym h)),
                );
          },
          x.7 ∙ ap (lookup cmp d.key) r.entries,
          x.8,
          x.9,
        )

  unboxed :
      (m k : RbTreeMap (Entry K V)) (old : Option ℕ) (e : Option (Entry K V)) (l : List (Entry K V))
      (r : Represents cmp k l)
      → k.nil ≡ m.nil
      → entry_at k old ≡ e
      → Gone m k old r.tree
      → (k' : RbTreeMap (Entry K V)) × (unbox cmp (old, k) ≡ done (value_of e, k'))
        × (r' : Represents cmp k' l) × (r'.tree ≡ r.tree)
        × (k'.nil ≡ m.nil)
  unboxed m k none e l r nil_same h gone = (k, ap (λ x. done (value_of x, k)) h, r, refl, nil_same)
  unboxed m k (some a) e l r nil_same h (out, ne, has) =
      let n = record (k.nodes a) { value = none } in
      let kept = Represents-set_node a n k l r out (λ s. ne (s ∙ nil_same)) in
      (set_node a n k, ground arith, kept.0, kept.1, nil_same)

  module _ (ord : IsOrd cmp) (fuel : ℕ) (z : ℕ) (key : K) (value : V) (m : RbTreeMap (Entry K V))
      (l : List (Entry K V)) (r : Represents cmp m l) (usable : z ≢ dangling) (nz : z ≢ m.nil)
      (new : count z r.tree ≡ 0) (few : length l < fuel) where
    abbrev d : Entry K V
    d = record { key = key; value = value }

    abbrev m1 : RbTreeMap (Entry K V)
    m1 = set_node z (detached d) m

    pub try_insert-Represents :
        (k : RbTreeMap (Entry K V)) × (try_insert cmp fuel (some z) key value m
          ≡ done (some (value_of (lookup cmp key l), k)))
        × (r' : Represents cmp k (insert_sorted cmp (record { key = key; value = value }) l))
        × ((q : ℕ) → count q r'.tree ≤ count q r.tree + one_at q z)
        × (k.nil ≡ m.nil)
    unfolding try_insert
    try_insert-Represents =
        let start = Represents-set_node z (detached d) m l r new nz in
        let x =
          insert_raw-Represents ord fuel z usable l few d m1 start.0 nz (ground arith)
            (ap (count z) start.1 ∙ new) in
        let y = unboxed m1 x.1 x.0 (lookup cmp key l) _ x.4 x.3 x.5 x.7 in
        (
          y.0,
          ap (λ run. run >>= λ r. unbox cmp r >>= λ r. done (some r)) x.2
              ∙ ap (λ run. run >>= λ r. done (some r)) y.1,
          y.2,
          λ q. omega (arith, x.6 q, ap (count q) start.1, ap (count q) y.3),
          y.4,
        )

  -- For a lawful order and a map that holds a sorted red-black tree, if the allocator gives a new
  -- address and the fuel is above the number of entries and one more, try_insert succeeds, gives
  -- what get gave for the key before, and afterwards get gives the new value for the key and what
  -- it gave before for every key that is not equal to it.
  pub try_insert-get :
      (ord : IsOrd cmp) (fuel : ℕ) (z : ℕ) (key : K) (value : V) (m : RbTreeMap (Entry K V))
      (l : List (Entry K V)) (r : Represents cmp m l)
      → z ≢ dangling
      → z ≢ m.nil
      → count z r.tree ≡ 0
      → suc (length l) < fuel
      → (old : Option V) × (k : RbTreeMap (Entry K V)) × (try_insert cmp fuel (some z) key value m
          ≡ done (some (old, k)))
        × (get cmp fuel key m ≡ done old)
        × (get cmp fuel key k ≡ done (some value))
        × ((other : K) → cmp other key ≢ Ordering.eq → get cmp fuel other k ≡ get cmp fuel other m)
  try_insert-get ord fuel z key value m l r usable nz new few =
      let e : Entry K V = record { key = key; value = value } in
      let x = try_insert-Represents ord fuel z key value m l r usable nz new (omega arith) in
      let enough : length (insert_sorted cmp e l) < fuel =
        omega (arith, length-insert_sorted cmp e l) in
      let after = λ (k : K). get-lookup cmp ord fuel k x.0 _ enough x.2 in
      let before = λ (k : K). get-lookup cmp ord fuel k m l (omega arith) r in
      (
        value_of (lookup cmp key l),
        x.0,
        x.1,
        before key,
        after key ∙ ap (λ o. done (value_of o)) (lookup-insert_sorted cmp ord e l),
        λ other ne.
            after other
            ∙ ap (λ o. done (value_of o)) (lookup-insert_sorted_other cmp ord e other l ne)
            ∙ sym (before other),
      )
