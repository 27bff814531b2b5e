-- ===== src/RbTree/Mirror.antt =====
-- The mirror image of a map: each right rotation is the left rotation of the mirror image.
use cos_rs.Base.{
  ℕ, ◌≡◌, refl, sym, ap, ap₂, subst, ◌∙◌, fun_ext, Bool, true, false, ◌==◌, if◌then◌else◌, arith,
}
use cos_rs.RbTree.{
  NodeColor, RbNode, RbTreeMap, done, is_nil, set_node, set_parent, set_left, set_right, adopt,
  relink, relink_right, turn_left, turn_right, rotate_right,
}
use cos_rs.RbTree.Shape.{
  Tree, leaf, node, Context, at_root, in_left, in_right, count, count_up, top, parent_of, Holds,
  HoldsUp, Zipped,
}
use cos_rs.RbTree.Rotate.{turn_left-Zipped}

module _ {A : Type 0} where
  abbrev pub flip_node : RbNode A → RbNode A
  flip_node n = record n { left = n.right; right = n.left }

  unfoldable pub flip_map : RbTreeMap A → RbTreeMap A
  flip_map m = record m { nodes = λ q. flip_node (m.nodes q) }

  abbrev pub flip : Tree A → Tree A
  flip leaf = leaf
  flip (node a c e l r) = node a c e (flip r) (flip l)

  abbrev pub flip_up : Context A → Context A
  flip_up at_root = at_root
  flip_up (in_left a c e r up) = in_right a c e (flip r) (flip_up up)
  flip_up (in_right a c e l up) = in_left a c e (flip l) (flip_up up)

  top-flip : (nil : ℕ) (t : Tree A) → top nil (flip t) ≡ top nil t
  top-flip nil leaf = refl
  top-flip nil (node a c e l r) = refl

  parent_of-flip : (nil : ℕ) (up : Context A) → parent_of nil (flip_up up) ≡ parent_of nil up
  parent_of-flip nil at_root = refl
  parent_of-flip nil (in_left a c e r up) = refl
  parent_of-flip nil (in_right a c e r up) = refl

  count-flip : (q : ℕ) (t : Tree A) → count q (flip t) ≡ count q t
  count-flip q leaf = refl
  count-flip q (node a c e l r) = omega (arith, count-flip q l, count-flip q r)

  count-flip_up : (q : ℕ) (up : Context A) → count_up q (flip_up up) ≡ count_up q up
  count-flip_up q at_root = refl
  count-flip_up q (in_left a c e r up) = omega (arith, count-flip q r, count-flip_up q up)
  count-flip_up q (in_right a c e l up) = omega (arith, count-flip q l, count-flip_up q up)

  Holds-flip :
      (m : RbTreeMap A) (parent : ℕ) (t : Tree A)
      → Holds m parent t
      → Holds (flip_map m) parent (flip t)
  unfolding flip_map
  Holds-flip m parent leaf h = tt
  Holds-flip m parent (node a c e l r) (ne, (hp, hl, hr, hc, hv), below_l, below_r) = (
    ne,
    (hp, hr ∙ sym (top-flip m.nil r), hl ∙ sym (top-flip m.nil l), hc, hv),
    Holds-flip m a r below_r,
    Holds-flip m a l below_l,
  )

  HoldsUp-flip :
      (m : RbTreeMap A) (child : ℕ) (up : Context A)
      → HoldsUp m child up
      → HoldsUp (flip_map m) child (flip_up up)
  unfolding flip_map
  HoldsUp-flip m child at_root h = h
  HoldsUp-flip m child (in_left a c e r up) (ne, (hp, hl, hr, hc, hv), beside, above) = (
    ne,
    (hp ∙ sym (parent_of-flip m.nil up), hr ∙ sym (top-flip m.nil r), hl, hc, hv),
    Holds-flip m a r beside,
    HoldsUp-flip m a up above,
  )
  HoldsUp-flip m child (in_right a c e l up) (ne, (hp, hl, hr, hc, hv), beside, above) = (
    ne,
    (hp ∙ sym (parent_of-flip m.nil up), hr, hl ∙ sym (top-flip m.nil l), hc, hv),
    Holds-flip m a l beside,
    HoldsUp-flip m a up above,
  )

  pub Zipped-flip :
      (m : RbTreeMap A) (t : Tree A) (up : Context A)
      → Zipped m t up
      → Zipped (flip_map m) (flip t) (flip_up up)
  unfolding flip_map
  Zipped-flip m t up z = record {
    nil_value = z.nil_value;
    nil_color = z.nil_color;
    below = rw (parent_of-flip m.nil up) (Holds-flip m (parent_of m.nil up) t z.below);
    above = rw (top-flip m.nil t) (HoldsUp-flip m (top m.nil t) up z.above);
    once = λ q. omega (arith, z.once q, count-flip q t, count-flip_up q up);
  }

  flip-flip : (t : Tree A) → flip (flip t) ≡ t
  flip-flip leaf = refl
  flip-flip (node a c e l r) = rw (flip-flip l, flip-flip r) refl

  flip_up-flip_up : (up : Context A) → flip_up (flip_up up) ≡ up
  flip_up-flip_up at_root = refl
  flip_up-flip_up (in_left a c e r up) = rw (flip-flip r, flip_up-flip_up up) refl
  flip_up-flip_up (in_right a c e l up) = rw (flip-flip l, flip_up-flip_up up) refl

  flip_map-flip_map : (m : RbTreeMap A) → flip_map (flip_map m) ≡ m
  unfolding flip_map
  flip_map-flip_map m = refl

  flip_if :
      (b : Bool) (m k : RbTreeMap A)
      → flip_map (if b then m else k) ≡ (if b then flip_map m else flip_map k)
  flip_if true m k = refl
  flip_if false m k = refl

  set_node-flip :
      (a : ℕ) (n : RbNode A) (m : RbTreeMap A)
      → set_node a (flip_node n) (flip_map m) ≡ flip_map (set_node a n m)
  unfolding flip_map
  set_node-flip a n m = ap (λ f. record m { nodes = f }) (fun_ext λ q. ground arith)

  adopt-flip : (a p : ℕ) (m : RbTreeMap A) → adopt a p (flip_map m) ≡ flip_map (adopt a p m)
  unfolding flip_map
  adopt-flip a p m =
      ap (λ k. if is_nil m a then flip_map m else k)
        (set_node-flip a (record (m.nodes a) { parent = p }) m)
      ∙ sym (flip_if (is_nil m a) m (set_parent a p m))

  relink-flip :
      (p u v : ℕ) (m : RbTreeMap A) → relink p u v (flip_map m) ≡ flip_map (relink_right p u v m)
  unfolding flip_map
  relink-flip p u v m =
      let root = record m { root = v } in
      let same = u == (m.nodes p).right in
      ap₂ (λ k l. if is_nil m p then flip_map root else if same then k else l)
        (set_node-flip p (record (m.nodes p) { right = v }) m)
        (set_node-flip p (record (m.nodes p) { left = v }) m)
      ∙ ap (λ k. if is_nil m p then flip_map root else k)
          (sym (flip_if same (set_right p v m) (set_left p v m)))
      ∙ sym (flip_if (is_nil m p) root (if same then set_right p v m else set_left p v m))

  turn_left-flip_map :
      (x : ℕ) (m : RbTreeMap A) → turn_left x (flip_map m) ≡ flip_map (turn_right x m)
  unfolding flip_map turn_left turn_right
  turn_left-flip_map x m =
      let y = (m.nodes x).left in
      let m1 = set_left x (m.nodes y).right m in
      let m2 = adopt (m1.nodes y).right x m1 in
      let m3 = set_parent y (m2.nodes x).parent m2 in
      let m4 = relink_right (m3.nodes x).parent x y m3 in
      let m5 = set_right y x m4 in
      let f3 = λ (k : RbTreeMap A). set_parent y (k.nodes x).parent k in
      let f4 = λ (k : RbTreeMap A). relink (k.nodes x).parent x y k in
      let f5 = λ (k : RbTreeMap A). set_parent x y (set_left y x k) in
      ap (λ k. f5 (f4 (f3 (adopt (k.nodes y).left x k))))
        (set_node-flip x (record (m.nodes x) { left = (m.nodes y).right }) m)
      ∙ ap (λ k. f5 (f4 (f3 k))) (adopt-flip (m1.nodes y).right x m1)
      ∙ ap (λ k. f5 (f4 k))
          (set_node-flip y (record (m2.nodes y) { parent = (m2.nodes x).parent }) m2)
      ∙ ap f5 (relink-flip (m3.nodes x).parent x y m3)
      ∙ ap (set_parent x y) (set_node-flip y (record (m4.nodes y) { right = x }) m4)
      ∙ set_node-flip x (record (m5.nodes x) { parent = y }) m5

  pub rotate_right-Zipped :
      (m : RbTreeMap A) (x y : ℕ) (cx cy : NodeColor) (ex ey : A) (a b c : Tree A) (up : Context A)
      → Zipped m (node x cx ex (node y cy ey a b) c) up
      → (k : RbTreeMap A) × (rotate_right x m ≡ done k)
        × Zipped k (node y cy ey a (node x cx ex b c)) up
  unfolding rotate_right
  rotate_right-Zipped m x y cx cy ex ey a b c up z =
      let flipped =
        turn_left-Zipped (flip_map m) x y cx cy ex ey (flip c) (flip b) (flip a) (flip_up up)
          (Zipped-flip m _ up z) in
      let back = Zipped-flip _ _ (flip_up up) (
        subst (λ k. Zipped k (flip (node y cy ey a (node x cx ex b c))) (flip_up up))
          (turn_left-flip_map x m) flipped) in
      (
        turn_right x m,
        (let child = z.below.1.1 in let nx = z.below.0 in let ny = z.below.2.0 in ground arith),
        subst (λ u. Zipped (turn_right x m) (node y cy ey a (node x cx ex b c)) u)
            (flip_up-flip_up up)
            (subst (λ t. Zipped (turn_right x m) t (flip_up (flip_up up)))
              (flip-flip (node y cy ey a (node x cx ex b c)))
              (subst
                (λ k.
                  Zipped k (flip (flip (node y cy ey a (node x cx ex b c)))) (flip_up (flip_up up)))
                (flip_map-flip_map (turn_right x m)) back)),
      )
