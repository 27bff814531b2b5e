-- ===== src/RbTree/Order.antt =====
-- Sorted lists of entries: what the tree of library/try_alloc/src/collection/rbtree/map.rs stands for.
use Prim.Native.Nat.{Ordering}
use cos_rs.Base.{◌≡◌, refl, ◌∙◌, Option, none, some, List, [], ◌∷◌, ◌++◌, arith}
use cos_rs.RbTree.{Entry}

-- What `Ord` promises, as far as it is used.
pub record IsOrd {K : Type 0} (cmp : K → K → Ordering) : Type 0 where
  pub lt_trans : (a b c : K) → cmp a b ≡ Ordering.lt → cmp b c ≡ Ordering.lt → cmp a c ≡ Ordering.lt
  pub gt_lt : (a b : K) → cmp a b ≡ Ordering.gt → cmp b a ≡ Ordering.lt
  pub lt_gt : (a b : K) → cmp a b ≡ Ordering.lt → cmp b a ≡ Ordering.gt
  pub eq_refl : (a : K) → cmp a a ≡ Ordering.eq
  pub eq_like : (a b c : K) → cmp a b ≡ Ordering.eq → cmp a c ≡ cmp b c

module _ {K V : Type 0} (cmp : K → K → Ordering) where
  -- All keys are greater, or all are less.
  abbrev pub Above : K → List (Entry K V) → Type 0
  Above k [] = Unit {0}
  Above k (e ∷ l) = (cmp k e.key ≡ Ordering.lt) × Above k l

  abbrev pub Below : K → List (Entry K V) → Type 0
  Below k [] = Unit {0}
  Below k (e ∷ l) = (cmp k e.key ≡ Ordering.gt) × Below k l

  abbrev pub Sorted : List (Entry K V) → Type 0
  Sorted [] = Unit {0}
  Sorted (e ∷ l) = Above e.key l × Sorted l

  -- The map as a sorted list: an entry replaces one with its key.
  unfoldable pub insert_sorted : Entry K V → List (Entry K V) → List (Entry K V)
  insert_sorted d [] = d ∷ []
  insert_sorted d (e ∷ l) = elim (cmp d.key e.key) [
    | Ordering.lt ↦ d ∷ e ∷ l
    | Ordering.eq ↦ d ∷ l
    | Ordering.gt ↦ e ∷ insert_sorted d l
  ]

  unfoldable pub lookup : K → List (Entry K V) → Option (Entry K V)
  lookup k [] = none
  lookup k (e ∷ l) = elim (cmp k e.key) [
    | Ordering.lt ↦ lookup k l
    | Ordering.eq ↦ some e
    | Ordering.gt ↦ lookup k l
  ]

  module _ (ord : IsOrd cmp) where
    pub Above-trans :
        (a b : K) (l : List (Entry K V)) → cmp a b ≡ Ordering.lt → Above b l → Above a l
    Above-trans a b [] h s = tt
    Above-trans a b (e ∷ l) h s = (ord.lt_trans a b e.key h s.0, Above-trans a b l h s.1)

    pub Above-like :
        (a b : K) (l : List (Entry K V)) → cmp a b ≡ Ordering.eq → Above b l → Above a l
    Above-like a b [] h s = tt
    Above-like a b (e ∷ l) h s = (ord.eq_like a b e.key h ∙ s.0, Above-like a b l h s.1)

    -- A sorted list around an entry.
    pub split :
        (l r : List (Entry K V)) (e : Entry K V)
        → Sorted (l ++ (e ∷ r))
        → Sorted l × Sorted r × Below e.key l × Above e.key r
    split [] r e s = (tt, s.1, tt, s.0)
    split (x ∷ l) r e s =
        let rest = split l r e s.1 in
        let here = before l s.0 in
        ((left x.key l s.0, rest.0), rest.1, (ord.lt_gt x.key e.key here, rest.2), rest.3)
      where
        before : {x : K} (l : List (Entry K V)) → Above x (l ++ (e ∷ r)) → cmp x e.key ≡ Ordering.lt
        before [] h = h.0
        before (y ∷ l) h = before l h.1

        left : (x : K) (l : List (Entry K V)) → Above x (l ++ (e ∷ r)) → Above x l
        left x [] h = tt
        left x (y ∷ l) h = (h.0, left x l h.1)

    pub Below-trans :
        (a b : K) (l : List (Entry K V)) → cmp a b ≡ Ordering.gt → Below b l → Below a l
    Below-trans a b [] h s = tt
    Below-trans a b (e ∷ l) h s = (
      ord.lt_gt e.key a (ord.lt_trans e.key b a (ord.gt_lt b e.key s.0) (ord.gt_lt a b h)),
      Below-trans a b l h s.1,
    )

    pub Below-like :
        (a b : K) (l : List (Entry K V)) → cmp a b ≡ Ordering.eq → Below b l → Below a l
    Below-like a b [] h s = tt
    Below-like a b (e ∷ l) h s = (ord.eq_like a b e.key h ∙ s.0, Below-like a b l h s.1)

    Above-insert_sorted :
        (k : K) (d : Entry K V) (l : List (Entry K V))
        → cmp k d.key ≡ Ordering.lt
        → Above k l
        → Above k (insert_sorted d l)
    unfolding insert_sorted
    Above-insert_sorted k d [] h s = (h, tt)
    Above-insert_sorted k d (e ∷ l) h s =
        let rest = Above-insert_sorted k d l h s.1 in
        let here = s.0 in let more = s.1 in ground arith

    pub Sorted-insert_sorted :
        (d : Entry K V) (l : List (Entry K V)) → Sorted l → Sorted (insert_sorted d l)
    unfolding insert_sorted
    Sorted-insert_sorted d [] s = (tt, tt)
    Sorted-insert_sorted d (e ∷ l) s =
        let rest = Sorted-insert_sorted d l s.1 in
        let less = Above-trans d.key e.key l in
        let like = Above-like d.key e.key l in
        let more = Above-insert_sorted e.key d l in
        let flip = ord.gt_lt d.key e.key in
        let here = s.0 in let tail = s.1 in ground (arith, less, like, more, flip)

  -- Inserting and looking up in a list around an entry.
  pub insert_sorted-less :
      (d e : Entry K V) (l r : List (Entry K V))
      → cmp d.key e.key ≡ Ordering.lt
      → insert_sorted d (l ++ (e ∷ r)) ≡ insert_sorted d l ++ (e ∷ r)
  unfolding insert_sorted
  insert_sorted-less d e [] r h = ground arith
  insert_sorted-less d e (x ∷ l) r h = let rest = insert_sorted-less d e l r h in ground arith

  pub insert_sorted-past :
      (d : Entry K V) (l r : List (Entry K V))
      → Below d.key l
      → insert_sorted d (l ++ r) ≡ l ++ insert_sorted d r
  unfolding insert_sorted
  insert_sorted-past d [] r h = refl
  insert_sorted-past d (x ∷ l) r h =
      let rest = insert_sorted-past d l r h.1 in let here = h.0 in ground arith

  pub lookup-past : (k : K) (l r : List (Entry K V)) → Below k l → lookup k (l ++ r) ≡ lookup k r
  unfolding lookup
  lookup-past k [] r h = refl
  lookup-past k (x ∷ l) r h = let rest = lookup-past k l r h.1 in let here = h.0 in ground arith

  pub lookup-none : (k : K) (r : List (Entry K V)) → Above k r → lookup k r ≡ none
  unfolding lookup
  lookup-none k [] h = refl
  lookup-none k (x ∷ r) h = let rest = lookup-none k r h.1 in let here = h.0 in ground arith

  pub lookup-front : (k : K) (l r : List (Entry K V)) → Above k r → lookup k (l ++ r) ≡ lookup k l
  unfolding lookup
  lookup-front k [] r h = lookup-none k r h
  lookup-front k (x ∷ l) r h = let rest = lookup-front k l r h in ground arith
