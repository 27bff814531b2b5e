-- ===== src/RbTree/Removal.antt =====
-- `delete` of library/try_alloc/src/collection/rbtree/map.rs for a node with at most one child that
-- is not a black leaf.
use cos_rs.Base.{
  ℕ, suc, ◌+◌, ◌≤◌, ◌≡◌, ◌≢◌, refl, sym, ap, subst, ◌∙◌, Bool, true, false, ◌&&◌, none, some, List,
  [], ◌∷◌, ◌++◌, append_assoc, append-nil, arith,
}
use cos_rs.RbTree.{NodeColor, black, red, RbTreeMap, Run, done, ◌>>=◌, is_red, set_color}
use cos_rs.RbTree.Shape.{Tree, leaf, node, Context, at_root, zip, Holds, count, red_top, Zipped}
use cos_rs.RbTree.Moves.{Zipped-zip, paint}
use cos_rs.RbTree.Balance.{inorder, Balanced, red_above, zip-Balanced, RedBlack}
use cos_rs.RbTree.Delete.{transplant, settle, delete}
use cos_rs.RbTree.Transplant.{transplant-Zipped}
use cos_rs.RbTree.Unzip.{inorder-zip, root_calm, unzip}

fits_calm : (a b : Bool) → b ≡ false → (a && b) ≡ false
fits_calm true b h = h
fits_calm false b h = refl

module _ {A : Type 0} where
  delete-left_nil :
      (fuel u : ℕ) (m : RbTreeMap A) (c : NodeColor) (right : ℕ)
      → u ≢ m.nil
      → (m.nodes m.nil).value ≡ none
      → (m.nodes u).left ≡ m.nil
      → (m.nodes u).right ≡ right
      → (m.nodes u).color ≡ c
      → delete fuel u m ≡ (transplant u right m >>= settle fuel right (is_red c))
  unfolding delete
  delete-left_nil fuel u m c right ne value hl hr hc = ground arith

  delete-right_nil :
      (fuel u a : ℕ) (m : RbTreeMap A) (c : NodeColor) (g : A)
      → u ≢ m.nil
      → (m.nodes m.nil).value ≡ none
      → (m.nodes a).value ≡ some g
      → (m.nodes u).left ≡ a
      → (m.nodes u).right ≡ m.nil
      → (m.nodes u).color ≡ c
      → delete fuel u m ≡ (transplant u a m >>= settle fuel a (is_red c))
  unfolding delete
  delete-right_nil fuel u a m c g ne value some_value hl hr hc = ground arith

  -- The node gives its place to a tree that is not red, with the same number of black nodes.
  abbrev pub Removed : Run (RbTreeMap A) → ℕ → List A → Context A → Type 0
  Removed run n l up =
      (k : RbTreeMap A) × (t : Tree A) × (run ≡ done k)
      × Zipped k t up
      × Balanced n t
      × (red_top t ≡ false)
      × (inorder t ≡ l)

  -- At most one child, and not a black node without any.
  abbrev pub Edge : NodeColor → Tree A → Tree A → Type 0
  Edge c leaf leaf = c ≡ red
  Edge c leaf (node a d g x y) = Unit {0}
  Edge c (node a d g x y) leaf = Unit {0}
  Edge c (node a d g x y) (node b f h v w) = ⊥

  Removed-leaf :
      (fuel u n : ℕ) (m : RbTreeMap A) (e : A) (up : Context A)
      → Zipped m (node u red e leaf leaf) up
      → Balanced n (node u red e leaf leaf)
      → Removed (delete fuel u m) n [] up
  Removed-leaf fuel u n m e up z b =
      let moved = transplant-Zipped m u red e leaf leaf up z leaf tt (λ q. omega arith) in
      let at = z.below.1 in
      (
        moved.0,
        leaf,
        delete-left_nil fuel u m red m.nil z.below.0 z.nil_value at.1 at.2 at.3
            ∙ ap (λ x. x >>= settle fuel m.nil true) moved.1,
        moved.2,
        b.2,
        refl,
        refl,
      )

  -- A black node over a red one, which becomes black.
  Removed-node :
      (fuel u a n : ℕ) (m : RbTreeMap A) (l r : Tree A) (e g : A) (x y : Tree A) (up : Context A)
      → (z : Zipped m (node u black e l r) up) → Holds m u (node a red g x y)
      → ((q : ℕ) → count q (node a red g x y) ≤ count q l + count q r)
      → delete fuel u m ≡ (transplant u a m >>= settle fuel a false)
      → Balanced n (node a red g x y)
      → Removed (delete fuel u m) (suc n) (inorder (node a red g x y)) up
  Removed-node fuel u a n m l r e g x y up z held inside run b =
      let moved = transplant-Zipped m u black e l r up z (node a red g x y) held inside in
      let k = moved.0 in
      let is_it : (k.nodes a).color ≡ red = moved.2.below.1.3 in
      let painted : settle fuel a false k ≡ done (set_color a black k) = ground arith in
      (
        set_color a black k,
        node a black g x y,
        run ∙ ap (λ x. x >>= settle fuel a false) moved.1 ∙ painted,
        paint black moved.2,
        (n, refl, b.2, b.3),
        refl,
        refl,
      )

  Removed-Edge :
      (fuel u n : ℕ) (m : RbTreeMap A) (c : NodeColor) (e : A) (l r : Tree A) (up : Context A)
      → Zipped m (node u c e l r) up
      → Balanced n (node u c e l r)
      → Edge c l r
      → Removed (delete fuel u m) n (inorder l ++ inorder r) up
  Removed-Edge fuel u n m red e leaf leaf up z b edge = Removed-leaf fuel u n m e up z b
  Removed-Edge fuel u n m black e leaf leaf up z b edge = ground arith
  Removed-Edge fuel u n m red e leaf (node a black g x y) up z (cl, cr, bl, (j, bj, bx, by)) edge =
      absurd (omega (arith, bl, bj))
  Removed-Edge fuel u n m red e leaf (node a red g x y) up z (cl, cr, bl, br) edge = ground arith
  Removed-Edge fuel u n m black e leaf (node a black g x y) up z (i, bi, bl, (j, bj, bx, by)) edge =
      absurd (omega (arith, bl, bj))
  Removed-Edge fuel u n m black e leaf (node a red g x y) up z (i, bi, bl, br) edge =
      let at = z.below.1 in
      subst (λ h. Removed (delete fuel u m) h (inorder (node a red g x y)) up) (sym bi)
        (Removed-node fuel u a i m leaf (node a red g x y) e g x y up z z.below.3 (λ q. omega arith)
          (delete-left_nil fuel u m black a z.below.0 z.nil_value at.1 at.2 at.3) br)
  Removed-Edge fuel u n m red e (node a black g x y) leaf up z (cl, cr, (j, bj, bx, by), br) edge =
      absurd (omega (arith, br, bj))
  Removed-Edge fuel u n m red e (node a red g x y) leaf up z (cl, cr, bl, br) edge = ground arith
  Removed-Edge fuel u n m black e (node a black g x y) leaf up z (i, bi, (j, bj, bx, by), br) edge =
      absurd (omega (arith, br, bj))
  Removed-Edge fuel u n m black e (node a red g x y) leaf up z (i, bi, bl, br) edge =
      let at = z.below.1 in
      subst (λ h. Removed (delete fuel u m) h (inorder (node a red g x y) ++ []) up) (sym bi)
        (subst (λ l. Removed (delete fuel u m) (suc i) l up)
          (sym (append-nil (inorder (node a red g x y))))
          (Removed-node fuel u a i m (node a red g x y) leaf e g x y up z z.below.2
            (λ q. omega arith)
            (delete-right_nil fuel u a m black g z.below.0 z.nil_value z.below.2.1.4 at.1 at.2 at.3)
            bl))
  Removed-Edge fuel u n m c e (node a d g x y) (node q f h v w) up z b edge = absurd edge

  -- If the nodes of a map form a red-black tree, then delete of a node with at most one child
  -- that is not a black node without children ends and leaves a red-black tree whose entries are
  -- those before without that of the node, in the same order.
  pub delete-Edge :
      (fuel u : ℕ) (m : RbTreeMap A) (c : NodeColor) (e : A) (l r : Tree A) (up : Context A)
      → Zipped m (node u c e l r) up
      → RedBlack (zip (node u c e l r) up)
      → Edge c l r
      → (k : RbTreeMap A) × (s : Tree A) × (before : List A) × (after : List A) × (delete fuel u m
          ≡ done k)
        × Zipped k s at_root
        × RedBlack s
        × (inorder (zip (node u c e l r) up) ≡ before ++ (e ∷ after))
        × (inorder s ≡ before ++ after)
  delete-Edge fuel u m c e l r up z rules edge =
      let inside = unzip up rules.1 (node u c e l r) rules.2 rules.0 in
      let gone = Removed-Edge fuel u inside.0 m c e l r up z inside.1 edge in
      let t = gone.1 in
      let place = inorder-zip up in
      let whole =
        zip-Balanced up inside.0 t (fits_calm (red_above up) (red_top t) gone.5) gone.4 inside.2 in
      (
        gone.0,
        zip t up,
        place.0 ++ inorder l,
        inorder r ++ place.1,
        gone.2,
        Zipped-zip up gone.3,
        (root_calm up t (node u c e l r) gone.5 rules.0, whole.0, whole.1),
        place.2 (node u c e l r)
            ∙ ap (λ x. place.0 ++ x) (append_assoc (inorder l) (e ∷ inorder r) place.1)
            ∙ sym (append_assoc place.0 (inorder l) (e ∷ (inorder r ++ place.1))),
        place.2 t
            ∙ ap (λ x. place.0 ++ (x ++ place.1)) gone.6
            ∙ ap (λ x. place.0 ++ x) (append_assoc (inorder l) (inorder r) place.1)
            ∙ sym (append_assoc place.0 (inorder l) (inorder r ++ place.1)),
      )
