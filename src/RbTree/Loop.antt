-- ===== src/RbTree/Loop.antt =====
-- `insert_fixup` of library/try_alloc/src/collection/rbtree/map.rs ends and restores the rules.
use cos_rs.Base.{
  ℕ, suc, ◌≡◌, ◌≢◌, refl, sym, ap, subst, ◌∙◌, true, false, ◌&&◌, List, ◌∷◌, ◌++◌, append_assoc,
  Bool-cases, arith,
}
use cos_rs.RbTree.{
  NodeColor, black, red, RbTreeMap, Run, done, is_red, set_color, fix_step, fix_rounds,
}
use cos_rs.RbTree.Shape.{
  Tree, leaf, node, Context, at_root, in_left, in_right, zip, top, Zipped, red_top,
}
use cos_rs.RbTree.Moves.{up_left, up_right, Zipped-zip, paint}
use cos_rs.RbTree.Step.{outer_left, inner_left, outer_right, inner_right}
use cos_rs.RbTree.Balance.{
  inorder, Same, Same-zip, Balanced, BalancedUp, red_above, zip-Balanced, RedBlack, blacken,
  blacken-RedBlack, Same-blacken,
}

module _ {A : Type 0} where
  abbrev pub depth : Context A → ℕ
  depth at_root = 0
  depth (in_left a c e r up) = suc (depth up)
  depth (in_right a c e l up) = suc (depth up)

  -- A run gives a map that holds a red-black tree of the same entries and nodes.
  abbrev pub Restored : Run (RbTreeMap A) → Tree A → Type 0
  Restored run old =
      (k : RbTreeMap A) × (t : Tree A) × (run ≡ done k)
      × Zipped k t at_root
      × RedBlack t
      × Same t old

  blacken-Zipped :
      (m : RbTreeMap A) (a : ℕ) (c : NodeColor) (e : A) (l r : Tree A)
      → Zipped m (node a c e l r) at_root
      → Zipped (set_color m.root black m) (node a black e l r) at_root
  blacken-Zipped m a c e l r z =
      subst (λ q. Zipped (set_color q black m) (node a black e l r) at_root) (sym z.above)
        (paint black z)

  blacken-Zipped_tree :
      (m : RbTreeMap A) (t : Tree A)
      → top m.nil t ≢ m.nil
      → Zipped m t at_root
      → Zipped (set_color m.root black m) (blacken t) at_root
  blacken-Zipped_tree m leaf some_node z = absurd (some_node refl)
  blacken-Zipped_tree m (node a c e l r) some_node z = blacken-Zipped m a c e l r z

  top-zip :
      (m : RbTreeMap A) (up : Context A) (t : Tree A)
      → top m.nil t ≢ m.nil
      → Zipped m t up
      → top m.nil (zip t up) ≢ m.nil
  top-zip m at_root t ne z = ne
  top-zip m (in_left a c e r up) t ne z = top-zip m up (node a c e t r) z.above.0 (up_left z)
  top-zip m (in_right a c e l up) t ne z = top-zip m up (node a c e l t) z.above.0 (up_right z)

  fix_rounds-calm :
      (fuel z : ℕ) (m : RbTreeMap A)
      → is_red (m.nodes (m.nodes z).parent).color ≡ false
      → fix_rounds (suc fuel) z m ≡ done (set_color m.root black m)
  unfolding fix_rounds
  fix_rounds-calm fuel z m h = ground arith

  pub fix_rounds-step :
      (fuel z q : ℕ) (m k : RbTreeMap A)
      → is_red (m.nodes (m.nodes z).parent).color ≡ true
      → fix_step z m ≡ done (q, k)
      → fix_rounds (suc fuel) z m ≡ fix_rounds fuel q k
  unfolding fix_rounds
  fix_rounds-step fuel z q m k h e = ground arith

  -- The loop ends where the parent is not red.
  pub finish :
      (fuel z : ℕ) (m : RbTreeMap A) (n : ℕ) (t : Tree A) (up : Context A)
      → is_red (m.nodes (m.nodes z).parent).color ≡ false
      → (red_above up && red_top t) ≡ false
      → top m.nil t ≢ m.nil
      → Balanced n t
      → BalancedUp n up
      → Zipped m t up
      → Restored (fix_rounds (suc fuel) z m) (zip t up)
  finish fuel z m n t up calm fits ne b u h =
      let whole = zip-Balanced up n t fits b u in
      (
        set_color m.root black m,
        blacken (zip t up),
        fix_rounds-calm fuel z m calm,
        blacken-Zipped_tree m (zip t up) (top-zip m up t ne h) (Zipped-zip up h),
        blacken-RedBlack whole.0 (zip t up) whole.1,
        Same-blacken (zip t up),
      )

  pub Restored-step :
      (run next : Run (RbTreeMap A)) (l l' : Tree A)
      → run ≡ next
      → Same l' l
      → Restored next l'
      → Restored run l
  Restored-step run next l l' e f r =
      (r.0, r.1, e ∙ r.2, r.3, r.4, (r.5.0 ∙ f.0, λ q. r.5.1 q ∙ f.1 q))

  inner_lem :
      (s a b u : List A) (ep ez eg : A)
      → (s ++ (ep ∷ a)) ++ (ez ∷ (b ++ (eg ∷ u))) ≡ (s ++ (ep ∷ (a ++ (ez ∷ b)))) ++ (eg ∷ u)
  inner_lem s a b u ep ez eg =
      append_assoc s (ep ∷ a) (ez ∷ (b ++ (eg ∷ u)))
      ∙ ap (λ l. s ++ (ep ∷ l)) (sym (append_assoc a (ez ∷ b) (eg ∷ u)))
      ∙ sym (append_assoc s (ep ∷ (a ++ (ez ∷ b))) (eg ∷ u))

  -- What a step that ends the loop leaves: a black node with two trees that fit.
  last_step :
      (fuel z q v : ℕ) (m k : RbTreeMap A) (n : ℕ) (e : A) (l r : Tree A) (up : Context A)
      (old : Tree A)
      → is_red (m.nodes (m.nodes z).parent).color ≡ true
      → fix_step z m ≡ done (q, k)
      → is_red (k.nodes (k.nodes q).parent).color ≡ false
      → Zipped k (node v black e l r) up
      → Balanced n l
      → Balanced n r
      → BalancedUp (suc n) up
      → Same (zip (node v black e l r) up) old
      → Restored (fix_rounds (suc (suc fuel)) z m) old
  last_step fuel z q v m k n e l r up old hot stepped calm h bl br u same =
      Restored-step (fix_rounds (suc (suc fuel)) z m) (fix_rounds (suc fuel) q k) old
        (zip (node v black e l r) up) (fix_rounds-step (suc fuel) z q m k hot stepped) same
        (finish fuel q k (suc n) (node v black e l r) up calm (fits up) h.below.0 (n, refl, bl, br)
          u h)
    where
      fits : (up : Context A) → (red_above up && false) ≡ false
      fits up = let cases = Bool-cases (red_above up) in ground arith

  module _ (fuel z p g : ℕ) (m : RbTreeMap A) (n : ℕ) (ez ep eg : A) (a b s u : Tree A)
      (up : Context A) (calm : red_top u ≡ false) (bz : Balanced n (node z red ez a b))
      (bs : Balanced n s) (calm_s : red_top s ≡ false) (bu : Balanced n u)
      (above : BalancedUp (suc n) up) where
    pub end_outer_left :
        Zipped m (node z red ez a b) (in_left p red ep s (in_left g black eg u up))
        → Restored
            (fix_rounds (suc (suc fuel)) z m)
            (zip (node z red ez a b) (in_left p red ep s (in_left g black eg u up)))
    end_outer_left h =
        let r = outer_left calm h in
        last_step fuel z z p m r.0 n ep (node z red ez a b) (node g red eg s u) up _
          (ap (λ q. is_red (m.nodes q).color) h.below.1.0 ∙ ap is_red h.above.1.3) r.1
          (ap (λ q. is_red (r.0.nodes q).color) r.2.below.2.1.0 ∙ ap is_red r.2.below.1.3) r.2 bz
          (calm_s, calm, bs, bu) above
          (Same-zip up _ _ (
            (sym (append_assoc (inorder (node z red ez a b)) (ep ∷ inorder s) (eg ∷ inorder u))),
            λ q. omega arith,
          ))

    pub end_inner_left :
        Zipped m (node z red ez a b) (in_right p red ep s (in_left g black eg u up))
        → Restored
            (fix_rounds (suc (suc fuel)) z m)
            (zip (node z red ez a b) (in_right p red ep s (in_left g black eg u up)))
    end_inner_left h =
        let r = inner_left calm h in
        last_step fuel z p z m r.0 n ez (node p red ep s a) (node g red eg b u) up _
          (ap (λ q. is_red (m.nodes q).color) h.below.1.0 ∙ ap is_red h.above.1.3) r.1
          (ap (λ q. is_red (r.0.nodes q).color) r.2.below.2.1.0 ∙ ap is_red r.2.below.1.3) r.2
          (calm_s, bz.0, bs, bz.2) (bz.1, calm, bz.3, bu) above
          (Same-zip up _ _ (
            (inner_lem (inorder s) (inorder a) (inorder b) (inorder u) ep ez eg),
            λ q. omega arith,
          ))

    pub end_outer_right :
        Zipped m (node z red ez a b) (in_right p red ep s (in_right g black eg u up))
        → Restored
            (fix_rounds (suc (suc fuel)) z m)
            (zip (node z red ez a b) (in_right p red ep s (in_right g black eg u up)))
    end_outer_right h =
        let r = outer_right calm h in
        last_step fuel z z p m r.0 n ep (node g red eg u s) (node z red ez a b) up _
          (ap (λ q. is_red (m.nodes q).color) h.below.1.0 ∙ ap is_red h.above.1.3) r.1
          (ap (λ q. is_red (r.0.nodes q).color) r.2.below.3.1.0 ∙ ap is_red r.2.below.1.3) r.2
          (calm, calm_s, bu, bs) bz above
          (Same-zip up _ _ (
            (append_assoc (inorder u) (eg ∷ inorder s) (ep ∷ inorder (node z red ez a b))),
            λ q. omega arith,
          ))

    pub end_inner_right :
        Zipped m (node z red ez a b) (in_left p red ep s (in_right g black eg u up))
        → Restored
            (fix_rounds (suc (suc fuel)) z m)
            (zip (node z red ez a b) (in_left p red ep s (in_right g black eg u up)))
    end_inner_right h =
        let r = inner_right calm h in
        last_step fuel z p z m r.0 n ez (node g red eg u a) (node p red ep b s) up _
          (ap (λ q. is_red (m.nodes q).color) h.below.1.0 ∙ ap is_red h.above.1.3) r.1
          (ap (λ q. is_red (r.0.nodes q).color) r.2.below.3.1.0 ∙ ap is_red r.2.below.1.3) r.2
          (calm, bz.0, bu, bz.2) (bz.1, calm_s, bz.3, bs) above
          (Same-zip up _ _ (
            (append_assoc (inorder u) (eg ∷ inorder a) (ez ∷ (inorder b ++ (ep ∷ inorder s)))
                ∙ ap (λ l. inorder u ++ (eg ∷ l))
                    (sym (append_assoc (inorder a) (ez ∷ inorder b) (ep ∷ inorder s)))),
            λ q. omega arith,
          ))
