-- ===== src/RbTree/Map.antt =====
-- The map of library/try_alloc/src/collection/rbtree/map.rs as a sorted list.
use Prim.Native.Nat.{Ordering}
use cos_rs.Base.{
  ℕ, zero, suc, ◌≤◌, ◌<◌, ◌≡◌, ◌≢◌, refl, sym, ap, subst, ◌∙◌, false, Option, none, some, List, [],
  ◌∷◌, length, length-append, arith,
}
use cos_rs.RbTree.{Entry, RbTreeMap, done, ◌>>=◌, dangling, is_none}
use cos_rs.RbTree.Shape.{Tree, leaf, node, at_root, count, one_at-ne, top, Zipped}
use cos_rs.RbTree.Balance.{inorder, RedBlack}
use cos_rs.RbTree.Ops.{with_nil, find_from, find, value_at, get}
use cos_rs.RbTree.Order.{IsOrd, Sorted, insert_sorted, lookup}
use cos_rs.RbTree.Find.{size, entry_at, find_from-lookup}

module _ {A : Type 0} where
  pub length-inorder : (t : Tree A) → length (inorder t) ≡ size t
  length-inorder leaf = refl
  length-inorder (node a c e l r) =
      omega (arith, length-append (inorder l) (e ∷ inorder r), length-inorder l, length-inorder r)

  -- A tree has a usable top, where none of its nodes is the dangling address.
  top-ne_dangling :
      (nil : ℕ) (t : Tree A) → nil ≢ dangling → count dangling t ≡ 0 → top nil t ≢ dangling
  top-ne_dangling nil leaf ne out = ne
  top-ne_dangling nil (node a c e l r) ne out =
      λ h. one_at-ne dangling a (omega (arith, out)) (sym h)

abbrev pub value_of : {K V : Type 0} → Option (Entry K V) → Option V
value_of none = none
value_of (some e) = some e.value

eq_sym :
    {K : Type 0} {cmp : K → K → Ordering} (ord : IsOrd cmp) (a b : K)
    → cmp a b ≡ Ordering.eq
    → cmp b a ≡ Ordering.eq
eq_sym ord a b h = sym (ord.eq_like a b a h) ∙ ord.eq_refl a

module _ {K V : Type 0} (cmp : K → K → Ordering) where
  -- The map holds a red-black tree whose entries from left to right are a sorted list.
  pub record Represents (m : RbTreeMap (Entry K V)) (l : List (Entry K V)) : Type 0 where
    pub tree : Tree (Entry K V)
    pub zipped : Zipped m tree at_root
    pub rules : RedBlack tree
    pub entries : inorder tree ≡ l
    pub sorted : Sorted cmp l
    pub usable : m.nil ≢ dangling
    pub no_dangling : count dangling tree ≡ 0

  -- The entries of a key in a list with an entry inserted.
  pub lookup-insert_sorted :
      (ord : IsOrd cmp) (d : Entry K V) (l : List (Entry K V))
      → lookup cmp d.key (insert_sorted cmp d l) ≡ some d
  unfolding lookup insert_sorted
  lookup-insert_sorted ord d [] = let h = ord.eq_refl d.key in ground arith
  lookup-insert_sorted ord d (e ∷ l) =
      let h = ord.eq_refl d.key in let rest = lookup-insert_sorted ord d l in ground arith

  pub lookup-insert_sorted_other :
      (ord : IsOrd cmp) (d : Entry K V) (k : K) (l : List (Entry K V))
      → cmp k d.key ≢ Ordering.eq
      → lookup cmp k (insert_sorted cmp d l) ≡ lookup cmp k l
  unfolding lookup insert_sorted
  lookup-insert_sorted_other ord d k [] other = ground arith
  lookup-insert_sorted_other ord d k (e ∷ l) other =
      let rest = lookup-insert_sorted_other ord d k l other in
      let apart : cmp d.key e.key ≡ Ordering.eq → cmp k e.key ≢ Ordering.eq = λ same hit.
        other (eq_sym ord d.key k (ord.eq_like d.key e.key k same ∙ eq_sym ord k e.key hit)) in
      ground arith

  pub length-insert_sorted :
      (d : Entry K V) (l : List (Entry K V)) → length (insert_sorted cmp d l) ≤ suc (length l)
  unfolding insert_sorted
  length-insert_sorted d [] = omega arith
  length-insert_sorted d (e ∷ l) = let rest = length-insert_sorted d l in ground arith

  module _ (ord : IsOrd cmp) where
    find-run :
        (fuel : ℕ) (key : K) (m : RbTreeMap (Entry K V))
        → m.root ≢ dangling
        → m.nil ≢ dangling
        → get cmp fuel key m ≡ (find_from cmp fuel m.root key m >>= value_at cmp m)
    unfolding get find
    find-run fuel key m a b = ground arith

    pub root_usable :
        {m : RbTreeMap (Entry K V)} {l : List (Entry K V)} → Represents m l → m.root ≢ dangling
    root_usable {m = m} r =
        λ h. top-ne_dangling m.nil r.tree r.usable r.no_dangling (sym r.zipped.above ∙ h)

    find_from-value :
        (fuel x : ℕ) (key : K) (m : RbTreeMap (Entry K V)) (a : ℕ)
        → find_from cmp fuel x key m ≡ done (some a)
        → is_none (m.nodes a).value ≡ false
    unfolding find_from
    find_from-value zero x key m a h = ground arith
    find_from-value (suc fuel) x key m a h =
        let left = find_from-value fuel (m.nodes x).left key m a in
        let right = find_from-value fuel (m.nodes x).right key m a in ground arith

    value_at-value_of :
        (m : RbTreeMap (Entry K V)) (o : Option ℕ) (l : Option (Entry K V))
        → ((a : ℕ) → o ≡ some a → is_none (m.nodes a).value ≡ false)
        → entry_at m o ≡ l
        → value_at cmp m o ≡ done (value_of l)
    value_at-value_of m none l some_value h = ap (λ x. done (value_of x)) h
    value_at-value_of m (some a) l some_value h = let v = some_value a refl in ground arith

    -- For a lawful order and a map that holds a red-black tree with a sorted list of entries,
    -- with fuel above their number, get ends with the value that the list has for the key, or
    -- with none.
    pub get-lookup :
        (fuel : ℕ) (key : K) (m : RbTreeMap (Entry K V)) (l : List (Entry K V))
        → length l < fuel
        → Represents m l
        → get cmp fuel key m ≡ done (value_of (lookup cmp key l))
    get-lookup fuel key m l few r =
        let found =
          find_from-lookup cmp ord fuel key m r.tree at_root
            (omega (arith, length-inorder r.tree, ap length r.entries)) r.zipped
            (subst (Sorted cmp) (sym r.entries) r.sorted) in
        find-run fuel key m (root_usable r) r.usable
        ∙ ap (λ q. find_from cmp fuel q key m >>= value_at cmp m) r.zipped.above
        ∙ ap (λ x. x >>= value_at cmp m) found.1
        ∙ value_at-value_of m found.0 _
            (λ a e. find_from-value fuel (top m.nil r.tree) key m a (found.1 ∙ ap done e))
            (found.2 ∙ ap (lookup cmp key) r.entries)

  -- A new map is empty.
  pub with_nil-Represents :
      (a : ℕ) (m : RbTreeMap (Entry K V))
      → a ≢ dangling
      → (r : Represents (with_nil a m) []) × ((q : ℕ) → count q r.tree ≡ 0)
  with_nil-Represents a m ne = (
    record {
      tree = leaf;
      zipped = record {
        nil_value = ground arith;
        nil_color = ground arith;
        below = tt;
        above = refl;
        once = λ q. omega arith;
      };
      rules = (refl, 0, refl);
      entries = refl;
      sorted = tt;
      usable = ne;
      no_dangling = refl;
    },
    λ q. refl,
  )
