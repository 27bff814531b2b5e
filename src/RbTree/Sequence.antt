-- ===== src/RbTree/Sequence.antt =====
-- Any number of calls of `try_insert` of library/try_alloc/src/collection/rbtree/map.rs on a new map.
use Prim.Native.Nat.{Ordering}
use cos_rs.Base.{
  ℕ, ◌+◌, ◌≤◌, ◌<◌, ◌≡◌, ◌≢◌, inl, inr, refl, sym, ap, ◌∙◌, Option, none, some, List, [], ◌∷◌,
  length, arith,
}
use cos_rs.RbTree.{Entry, RbNode, RbTreeMap, Run, done, panicked, ◌>>=◌, dangling}
use cos_rs.RbTree.Shape.{count, one_at, one_at_self, one_at-ne}
use cos_rs.RbTree.Ops.{new, with_nil, const_new, get, try_insert}
use cos_rs.RbTree.Order.{IsOrd, insert_sorted, lookup}
use cos_rs.RbTree.Find.{Ordering-cases}
use cos_rs.RbTree.Map.{
  Represents, with_nil-Represents, value_of, get-lookup, lookup-insert_sorted,
  lookup-insert_sorted_other, length-insert_sorted,
}
use cos_rs.RbTree.Contract.{try_insert-Represents}

-- How often an address is among those of the new nodes.
abbrev pub times : {A : Type 0} → ℕ → List (ℕ × A) → ℕ
times q [] = 0
times q ((z, e) ∷ xs) = one_at q z + times q xs

module _ {K V : Type 0} (cmp : K → K → Ordering) where
  -- The calls one after the other, each with the address of its node.
  abbrev pub insert_all :
      ℕ → List (ℕ × Entry K V) → RbTreeMap (Entry K V) → Run (RbTreeMap (Entry K V))
  insert_all fuel [] m = done m
  insert_all fuel ((z, e) ∷ xs) m = try_insert cmp fuel (some z) e.key e.value m >>= λ o. elim o [
    | none ↦ panicked
    | some r ↦ insert_all fuel xs r.1
  ]

  abbrev sorted_all : List (ℕ × Entry K V) → List (Entry K V) → List (Entry K V)
  sorted_all [] l = l
  sorted_all ((z, e) ∷ xs) l = sorted_all xs (insert_sorted cmp e l)

  -- The last entry of a key.
  unfoldable pub last_of : K → List (ℕ × Entry K V) → Option (Entry K V) → Option (Entry K V)
  last_of key [] o = o
  last_of key ((z, e) ∷ xs) o = elim (cmp key e.key) [
    | Ordering.lt ↦ last_of key xs o
    | Ordering.eq ↦ last_of key xs (some e)
    | Ordering.gt ↦ last_of key xs o
  ]

  module _ (ord : IsOrd cmp) where
    lookup-like :
        (k j : K) (l : List (Entry K V)) → cmp k j ≡ Ordering.eq → lookup cmp k l ≡ lookup cmp j l
    unfolding lookup
    lookup-like k j [] h = refl
    lookup-like k j (e ∷ l) h =
        let like = ord.eq_like k j e.key h in let rest = lookup-like k j l h in ground arith

    lookup-sorted_all :
        (key : K) (xs : List (ℕ × Entry K V)) (l : List (Entry K V))
        → lookup cmp key (sorted_all xs l) ≡ last_of key xs (lookup cmp key l)
    unfolding last_of
    lookup-sorted_all key [] l = refl
    lookup-sorted_all key ((z, e) ∷ xs) l =
        let rest = lookup-sorted_all key xs (insert_sorted cmp e l) in
        elim (Ordering-cases (cmp key e.key)) [
          | inl less ↦
              rest
              ∙ ap (last_of key xs) (lookup-insert_sorted_other cmp ord e key l (λ h. ground arith))
              ∙ ground arith
          | inr (inl same) ↦
              rest
              ∙ ap (last_of key xs) (
                  lookup-like key e.key (insert_sorted cmp e l) same
                  ∙ lookup-insert_sorted cmp ord e l)
              ∙ ground arith
          | inr (inr more) ↦
              rest
              ∙ ap (last_of key xs) (lookup-insert_sorted_other cmp ord e key l (λ h. ground arith))
              ∙ ground arith
        ]

    length-sorted_all :
        (xs : List (ℕ × Entry K V)) (l : List (Entry K V))
        → length (sorted_all xs l) ≤ length xs + length l
    length-sorted_all [] l = omega arith
    length-sorted_all ((z, e) ∷ xs) l =
        omega (arith, length-sorted_all xs (insert_sorted cmp e l), length-insert_sorted cmp e l)

    insert_all-Represents :
        (fuel : ℕ) (xs : List (ℕ × Entry K V)) (m : RbTreeMap (Entry K V)) (l : List (Entry K V))
        (r : Represents cmp m l)
        → ((q : ℕ) → count q r.tree + times q xs ≤ 1)
        → times m.nil xs ≡ 0
        → times dangling xs ≡ 0
        → length xs + length l < fuel
        → (k : RbTreeMap (Entry K V)) × (insert_all fuel xs m ≡ done k)
          × Represents cmp k (sorted_all xs l)
    insert_all-Represents fuel [] m l r once not_nil usable few = (m, refl, r)
    insert_all-Represents fuel ((z, e) ∷ xs) m l r once not_nil usable few =
        let first =
          try_insert-Represents cmp ord fuel z e.key e.value m l r
            (λ h. one_at-ne dangling z (omega (arith, usable)) (sym h))
            (λ h. one_at-ne m.nil z (omega (arith, not_nil)) (sym h))
            (omega (arith, once z, one_at_self z)) (omega arith) in
        let rest =
          insert_all-Represents fuel xs first.0 (insert_sorted cmp e l) first.2
            (λ q. omega (arith, once q, first.3 q))
            (ap (λ q. times q xs) first.4 ∙ omega (arith, not_nil)) (omega (arith, usable))
            (omega (arith, length-insert_sorted cmp e l)) in
        (
          rest.0,
          ap (λ run. run >>= λ o. elim o [ none ↦ panicked | some r ↦ insert_all fuel xs r.1 ])
                first.1
              ∙ rest.1,
          rest.2,
        )

  -- For a lawful order, a new map with an address for its NIL node, and any sequence of
  -- try_insert whose nodes get different addresses, with fuel above the number of calls, every
  -- call succeeds, and afterwards get ends for every key with the value of the last entry of that
  -- key in the sequence, or with none.
  pub insert_all-get :
      (ord : IsOrd cmp) (fuel a : ℕ) (nodes : ℕ → RbNode (Entry K V)) (xs : List (ℕ × Entry K V))
      → a ≢ dangling
      → ((q : ℕ) → one_at q a + one_at q dangling + times q xs ≤ 1)
      → length xs < fuel
      → (m : RbTreeMap (Entry K V)) × (k : RbTreeMap (Entry K V)) × (new (some a) nodes ≡ some m)
        × (insert_all fuel xs m ≡ done k)
        × ((key : K) → get cmp fuel key k ≡ done (value_of (last_of key xs none)))
  unfolding new lookup
  insert_all-get ord fuel a nodes xs ne apart few =
      let m = with_nil a (const_new nodes) in
      let start = with_nil-Represents cmp a (const_new nodes) ne in
      let x =
        insert_all-Represents ord fuel xs m [] start.0 (λ q. omega (arith, apart q, start.1 q))
          (omega (arith, apart a, one_at_self a))
          (omega (arith, apart dangling, one_at_self dangling)) (omega arith) in
      (
        m,
        x.0,
        refl,
        x.1,
        λ key.
            get-lookup cmp ord fuel key x.0 (sorted_all xs [])
              (omega (arith, length-sorted_all ord xs [])) x.2
            ∙ ap (λ o. done (value_of o)) (lookup-sorted_all ord key xs []),
      )
