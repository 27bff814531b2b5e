-- ===== src/RbTree/Find.antt =====
-- The search in the tree of library/try_alloc/src/collection/rbtree/map.rs.
use Prim.Native.Nat.{Ordering}
use cos_rs.Base.{
  ℕ, zero, suc, ◌+◌, ◌<◌, ◌≡◌, ◌⊎◌, inl, inr, refl, sym, ap, ◌∙◌, Option, none, some, List, ◌∷◌,
  ◌++◌, arith,
}
use cos_rs.RbTree.{Entry, RbTreeMap, done}
use cos_rs.RbTree.Shape.{Tree, leaf, node, Context, top, Zipped}
use cos_rs.RbTree.Moves.{down_left, down_right}
use cos_rs.RbTree.Balance.{inorder}
use cos_rs.RbTree.Ops.{find_from}
use cos_rs.RbTree.Order.{
  IsOrd, Sorted, lookup, split, Above-trans, Below-trans, Below-like, lookup-past, lookup-front,
}

abbrev pub size : {A : Type 0} → Tree A → ℕ
size leaf = 0
size (node a c e l r) = suc (size l + size r)

pub Ordering-cases : (o : Ordering) → (o ≡ Ordering.lt) ⊎ (o ≡ Ordering.eq) ⊎ (o ≡ Ordering.gt)
Ordering-cases Ordering.lt = inl refl
Ordering-cases Ordering.eq = inr (inl refl)
Ordering-cases Ordering.gt = inr (inr refl)

abbrev pub entry_at : {K V : Type 0} → RbTreeMap (Entry K V) → Option ℕ → Option (Entry K V)
entry_at m none = none
entry_at m (some a) = (m.nodes a).value

module _ {K V : Type 0} (cmp : K → K → Ordering) (ord : IsOrd cmp) where
  -- A list around an entry is searched on one side of it.
  pub lookup-less :
      (k : K) (e : Entry K V) (l r : List (Entry K V))
      → cmp k e.key ≡ Ordering.lt
      → Sorted cmp (l ++ (e ∷ r))
      → lookup cmp k (l ++ (e ∷ r)) ≡ lookup cmp k l
  lookup-less k e l r h s =
      let parts = split cmp ord l r e s in
      lookup-front cmp k l (e ∷ r) (h, Above-trans cmp ord k e.key r h parts.3)

  pub lookup-more :
      (k : K) (e : Entry K V) (l r : List (Entry K V))
      → cmp k e.key ≡ Ordering.gt
      → Sorted cmp (l ++ (e ∷ r))
      → lookup cmp k (l ++ (e ∷ r)) ≡ lookup cmp k r
  unfolding lookup
  lookup-more k e l r h s =
      let parts = split cmp ord l r e s in
      lookup-past cmp k l (e ∷ r) (Below-trans cmp ord k e.key l h parts.2) ∙ ground arith

  pub lookup-same :
      (k : K) (e : Entry K V) (l r : List (Entry K V))
      → cmp k e.key ≡ Ordering.eq
      → Sorted cmp (l ++ (e ∷ r))
      → lookup cmp k (l ++ (e ∷ r)) ≡ some e
  unfolding lookup
  lookup-same k e l r h s =
      lookup-past cmp k l (e ∷ r) (Below-like cmp ord k e.key l h (split cmp ord l r e s).2)
      ∙ ground arith

  pub find_from-lookup :
      (fuel : ℕ) (key : K) (m : RbTreeMap (Entry K V)) (t : Tree (Entry K V))
      (up : Context (Entry K V))
      → size t < fuel
      → Zipped m t up
      → Sorted cmp (inorder t)
      → (o : Option ℕ) × (find_from cmp fuel (top m.nil t) key m ≡ done o)
        × (entry_at m o ≡ lookup cmp key (inorder t))
  unfolding find_from lookup
  find_from-lookup zero key m t up few z s = absurd (omega arith)
  find_from-lookup (suc fuel) key m leaf up few z s =
      (none, (let h = z.nil_value in ground arith), refl)
  find_from-lookup (suc fuel) key m (node a c e l r) up few z s =
      let parts = split cmp ord (inorder l) (inorder r) e s in
      let value = z.below.1.4 in
      elim (Ordering-cases (cmp key e.key)) [
        | inl less ↦
            let rest = find_from-lookup fuel key m l _ (omega arith) (down_left z) parts.0 in
            let child = z.below.1.1 in
            let here : find_from cmp (suc fuel) a key m
                ≡ find_from cmp fuel (m.nodes a).left key m =
              ground arith in
            (
              rest.0,
              here ∙ ap (λ q. find_from cmp fuel q key m) child ∙ rest.1,
              rest.2 ∙ sym (lookup-less key e (inorder l) (inorder r) less s),
            )
        | inr (inl same) ↦
            (some a, ground arith, value ∙ sym (lookup-same key e (inorder l) (inorder r) same s))
        | inr (inr more) ↦
            let rest = find_from-lookup fuel key m r _ (omega arith) (down_right z) parts.1 in
            let child = z.below.1.2 in
            let here : find_from cmp (suc fuel) a key m
                ≡ find_from cmp fuel (m.nodes a).right key m =
              ground arith in
            (
              rest.0,
              here ∙ ap (λ q. find_from cmp fuel q key m) child ∙ rest.1,
              rest.2 ∙ sym (lookup-more key e (inorder l) (inorder r) more s),
            )
      ]
