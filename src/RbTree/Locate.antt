-- ===== src/RbTree/Locate.antt =====
-- The search of `insert` in library/try_alloc/src/collection/rbtree/map.rs, on the tree.
use Prim.Native.Nat.{Ordering}
use cos_rs.Base.{
  ℕ, zero, suc, ◌+◌, ◌≤◌, ◌<◌, ◌≡◌, inl, inr, refl, sym, ap, ◌∙◌, Option, none, some, ◌∷◌, ◌++◌,
  arith,
}
use cos_rs.RbTree.{red, Entry, RbTreeMap, Run, done}
use cos_rs.RbTree.Shape.{
  Tree, leaf, node, Context, in_left, in_right, zip, count, count_up, top, parent_of, Zipped,
}
use cos_rs.RbTree.Moves.{down_left, down_right}
use cos_rs.RbTree.Balance.{
  inorder, Balanced, BalancedUp, Fits, Inside, Inside-in_left, Inside-in_right,
}
use cos_rs.RbTree.Loop.{depth}
use cos_rs.RbTree.Ops.{locate}
use cos_rs.RbTree.Attach.{Belongs}
use cos_rs.RbTree.Find.{size, Ordering-cases}
use cos_rs.RbTree.Order.{
  IsOrd, Sorted, insert_sorted, split, insert_sorted-less, insert_sorted-past, Below-trans,
  Below-like,
}

module _ {K V : Type 0} where
  -- The new node as a red leaf, or in place of another.
  abbrev pub plug : ℕ → Entry K V → Tree (Entry K V) → Tree (Entry K V)
  plug z d leaf = node z red d leaf leaf
  plug z d (node a c e l r) = node z c d l r

  abbrev pub outcome : RbTreeMap (Entry K V) → Tree (Entry K V) → Context (Entry K V) → ℕ × Option ℕ
  outcome m leaf up = (parent_of m.nil up, none)
  outcome m (node a c e l r) up = (a, some a)

  module _ (cmp : K → K → Ordering) where
    -- The tree with the new node, before the fixup.
    unfoldable pub ins : ℕ → Entry K V → Tree (Entry K V) → Tree (Entry K V)
    ins z d leaf = node z red d leaf leaf
    ins z d (node a c e l r) = elim (cmp d.key e.key) [
      | Ordering.lt ↦ node a c e (ins z d l) r
      | Ordering.eq ↦ node z c d l r
      | Ordering.gt ↦ node a c e l (ins z d r)
    ]

    abbrev pub Hit : K → Tree (Entry K V) → Type 0
    Hit key leaf = Unit {0}
    Hit key (node a c e l r) = cmp key e.key ≡ Ordering.eq

    pub inorder-ins :
        (ord : IsOrd cmp) (z : ℕ) (d : Entry K V) (t : Tree (Entry K V))
        → Sorted cmp (inorder t)
        → inorder (ins z d t) ≡ insert_sorted cmp d (inorder t)
    unfolding ins insert_sorted
    inorder-ins ord z d leaf s = refl
    inorder-ins ord z d (node a c e l r) s =
        let parts = split cmp ord (inorder l) (inorder r) e s in
        elim (Ordering-cases (cmp d.key e.key)) [
          | inl less ↦
              let down : ins z d (node a c e l r) ≡ node a c e (ins z d l) r = ground arith in
              ap inorder down
              ∙ ap (λ x. x ++ (e ∷ inorder r)) (inorder-ins ord z d l parts.0)
              ∙ sym (insert_sorted-less cmp d e (inorder l) (inorder r) less)
          | inr (inl same) ↦
              let here : ins z d (node a c e l r) ≡ node z c d l r = ground arith in
              let put : insert_sorted cmp d (e ∷ inorder r) ≡ d ∷ inorder r = ground arith in
              ap inorder here
              ∙ ap (λ x. inorder l ++ x) (sym put)
              ∙ sym (
                  insert_sorted-past cmp d (inorder l) (e ∷ inorder r)
                    (Below-like cmp ord d.key e.key (inorder l) same parts.2))
          | inr (inr more) ↦
              let down : ins z d (node a c e l r) ≡ node a c e l (ins z d r) = ground arith in
              let put : insert_sorted cmp d (e ∷ inorder r) ≡ e ∷ insert_sorted cmp d (inorder r) =
                ground arith in
              ap inorder down
              ∙ ap (λ x. inorder l ++ (e ∷ x)) (inorder-ins ord z d r parts.1)
              ∙ ap (λ x. inorder l ++ x) (sym put)
              ∙ sym (
                  insert_sorted-past cmp d (inorder l) (e ∷ inorder r)
                    (Below-trans cmp ord d.key e.key (inorder l) more parts.2))
        ]

    -- Where a search stops.
    pub record Stops (m : RbTreeMap (Entry K V)) (run : Run (ℕ × Option ℕ)) (d : Entry K V)
        (t : Tree (Entry K V)) (up : Context (Entry K V)) : Type 0 where
      pub found : Tree (Entry K V)
      pub around : Context (Entry K V)
      pub height : ℕ
      pub runs : run ≡ done (outcome m found around)
      pub zipped : Zipped m found around
      pub balanced : Balanced height found
      pub balanced_up : BalancedUp height around
      pub fits : Fits found around
      pub belongs : Belongs cmp d.key around
      pub hit : Hit d.key found
      pub smaller : depth around + size found ≤ depth up + size t
      pub counts : (q : ℕ) → count q found + count_up q around ≡ count q t + count_up q up
      pub plugged : (z : ℕ) → zip (plug z d found) around ≡ zip (ins z d t) up

    Stops-child :
        (m : RbTreeMap (Entry K V)) (run next : Run (ℕ × Option ℕ)) (d : Entry K V)
        (t s : Tree (Entry K V)) (up over : Context (Entry K V))
        → run ≡ next
        → depth over + size s ≤ depth up + size t
        → ((q : ℕ) → count q s + count_up q over ≡ count q t + count_up q up)
        → ((z : ℕ) → zip (ins z d s) over ≡ zip (ins z d t) up)
        → Stops m next d s over
        → Stops m run d t up
    Stops-child m run next d t s up over e h counts plugged x = record {
      found = x.found;
      around = x.around;
      height = x.height;
      runs = e ∙ x.runs;
      zipped = x.zipped;
      balanced = x.balanced;
      balanced_up = x.balanced_up;
      fits = x.fits;
      belongs = x.belongs;
      hit = x.hit;
      smaller = omega (arith, h, x.smaller);
      counts = λ q. x.counts q ∙ counts q;
      plugged = λ z. x.plugged z ∙ plugged z;
    }

    pub locate-Stops :
        (fuel : ℕ) (m : RbTreeMap (Entry K V)) (d : Entry K V) (t : Tree (Entry K V))
        (up : Context (Entry K V))
        → size t < fuel
        → Zipped m t up
        → Inside t up
        → Belongs cmp d.key up
        → Stops m (locate cmp fuel (parent_of m.nil up) (top m.nil t) d.key m) d t up
    unfolding locate ins
    locate-Stops zero m d t up few z inside place = absurd (omega arith)
    locate-Stops (suc fuel) m d leaf up few z inside place = record {
      found = leaf;
      around = up;
      height = inside.0;
      runs = (let h = z.nil_value in ground arith);
      zipped = z;
      balanced = inside.1;
      balanced_up = inside.2;
      fits = inside.3;
      belongs = place;
      hit = tt;
      smaller = omega arith;
      counts = λ q. refl;
      plugged = λ q. refl;
    }
    locate-Stops (suc fuel) m d (node a c e l r) up few z (h, bt, bu, fits) place =
        let value = z.below.1.4 in
        elim (Ordering-cases (cmp d.key e.key)) [
          | inl less ↦
              let child = z.below.1.1 in
              let below =
                locate-Stops fuel m d l (in_left a c e r up) (omega arith) (down_left z)
                  (Inside-in_left h a c e l r up bt bu fits) less in
              let first : locate cmp (suc fuel) (parent_of m.nil up) a d.key m
                  ≡ locate cmp fuel a (m.nodes a).left d.key m =
                ground arith in
              Stops-child m _ _ d (node a c e l r) l up (in_left a c e r up)
                (first ∙ ap (λ q. locate cmp fuel a q d.key m) child) (omega arith)
                (λ q. omega arith)
                (λ q.
                  (let x : node a c e (ins q d l) r ≡ ins q d (node a c e l r) = ground arith in
                    ap (λ t. zip t up) x))
                below
          | inr (inl same) ↦ record {
            found = node a c e l r;
            around = up;
            height = h;
            runs = ground arith;
            zipped = z;
            balanced = bt;
            balanced_up = bu;
            fits = fits;
            belongs = place;
            hit = same;
            smaller = omega arith;
            counts = λ q. refl;
            plugged = λ q.
                (let x : node q c d l r ≡ ins q d (node a c e l r) = ground arith in
                  ap (λ t. zip t up) x);
          }
          | inr (inr more) ↦
              let child = z.below.1.2 in
              let below =
                locate-Stops fuel m d r (in_right a c e l up) (omega arith) (down_right z)
                  (Inside-in_right h a c e l r up bt bu fits) more in
              let first : locate cmp (suc fuel) (parent_of m.nil up) a d.key m
                  ≡ locate cmp fuel a (m.nodes a).right d.key m =
                ground arith in
              Stops-child m _ _ d (node a c e l r) r up (in_right a c e l up)
                (first ∙ ap (λ q. locate cmp fuel a q d.key m) child) (omega arith)
                (λ q. omega arith)
                (λ q.
                  (let x : node a c e l (ins q d r) ≡ ins q d (node a c e l r) = ground arith in
                    ap (λ t. zip t up) x))
                below
        ]
