-- ===== src/RbTree/Step.antt =====
-- One round of `insert_fixup` of library/try_alloc/src/collection/rbtree/map.rs, on the tree.
use cos_rs.Base.{ℕ, ◌≡◌, ◌≢◌, sym, ap, ◌∙◌, false, arith}
use cos_rs.RbTree.{
  NodeColor, black, red, RbTreeMap, done, ◌>>=◌, is_red, set_color, rotate_left, rotate_right,
  raise_right, raise_left, fix_left, fix_right, fix_step,
}
use cos_rs.RbTree.Shape.{
  Tree, leaf, node, Context, in_left, in_right, top, Holds, Zipped, red_top, one_at_self, one_at-ne,
  top-ne,
}
use cos_rs.RbTree.Rotate.{rotate_left-Zipped}
use cos_rs.RbTree.Mirror.{rotate_right-Zipped}
use cos_rs.RbTree.Moves.{up_left, up_right, down_left, down_right, paint}
use cos_rs.RbTree.Fixup.{raise_right-Zipped, raise_left-Zipped}

module _ {A : Type 0} where
  red_top_lem :
      (m : RbTreeMap A) (parent : ℕ) (t : Tree A)
      → (m.nodes m.nil).color ≡ black
      → Holds m parent t
      → is_red (m.nodes (top m.nil t)).color ≡ red_top t
  red_top_lem m parent leaf h below = ap is_red h
  red_top_lem m parent (node a c e l r) h below = ap is_red below.1.3

-- A red uncle.
module _ {A : Type 0} {m : RbTreeMap A} (z : ℕ) {p g y : ℕ} {cp cg : NodeColor} {ep eg ey : A}
    {pl pr yl yr : Tree A} {up : Context A} where
  pub recolor_left :
      (m.nodes z).parent ≡ p
      → Zipped m (node p cp ep pl pr) (in_left g cg eg (node y red ey yl yr) up)
      → (k : RbTreeMap A) × (fix_step z m ≡ done (g, k))
        × Zipped k (node g red eg (node p black ep pl pr) (node y black ey yl yr)) up
  unfolding fix_step fix_left
  recolor_left at h =
      let grand = h.below.1.0 in
      let left = h.above.1.1 in
      let right = h.above.1.2 in
      let uncle = h.above.2.1.3 in
      (
        set_color g red (set_color y black (set_color p black m)),
        ground arith,
        paint red (up_right (paint black (down_right (up_left (paint black h))))),
      )

  pub recolor_right :
      (m.nodes z).parent ≡ p
      → Zipped m (node p cp ep pl pr) (in_right g cg eg (node y red ey yl yr) up)
      → (k : RbTreeMap A) × (fix_step z m ≡ done (g, k))
        × Zipped k (node g red eg (node y black ey yl yr) (node p black ep pl pr)) up
  unfolding fix_step fix_right
  recolor_right at h =
      let grand = h.below.1.0 in
      let left = h.above.1.1 in
      let uncle = h.above.2.1.3 in
      let other : p ≢ y = one_at-ne p y (omega (arith, h.once p, one_at_self p)) in
      (
        set_color g red (set_color y black (set_color p black m)),
        ground arith,
        paint red (up_left (paint black (down_left (up_right (paint black h))))),
      )

-- A black uncle.
module _ {A : Type 0} {m : RbTreeMap A} {z p g : ℕ} {cz cp cg : NodeColor} {ez ep eg : A}
    {a b s u : Tree A} {up : Context A} (calm : red_top u ≡ false) where
  pub outer_left :
      Zipped m (node z cz ez a b) (in_left p cp ep s (in_left g cg eg u up))
      → (k : RbTreeMap A) × (fix_step z m ≡ done (z, k))
        × Zipped k (node p black ep (node z cz ez a b) (node g red eg s u)) up
  unfolding fix_step fix_left
  outer_left h =
      let raised = raise_right-Zipped h in
      let parent = h.below.1.0 in
      let grand = h.above.1.0 in
      let left = h.above.3.1.1 in
      let right = h.above.3.1.2 in
      let uncle = red_top_lem m g u h.nil_color h.above.3.2 ∙ calm in
      let second = h.above.1.2 in
      let ne : z ≢ top m.nil s =
        λ e. top-ne m.nil z s h.below.0 (omega (arith, h.once z, one_at_self z)) (sym e) in
      let same : fix_step z m ≡ raise_right z m = ground arith in
      (raised.0, same ∙ raised.1, raised.2)

  pub inner_left :
      Zipped m (node z cz ez a b) (in_right p cp ep s (in_left g cg eg u up))
      → (k : RbTreeMap A) × (fix_step z m ≡ done (p, k))
        × Zipped k (node z black ez (node p cp ep s a) (node g red eg b u)) up
  unfolding fix_step fix_left
  inner_left h =
      let turned = rotate_left-Zipped m p z cp cz ep ez s a b (in_left g cg eg u up) (up_right h) in
      let raised = raise_right-Zipped (down_left turned.2) in
      let parent = h.below.1.0 in
      let grand = h.above.1.0 in
      let left = h.above.3.1.1 in
      let right = h.above.3.1.2 in
      let uncle = red_top_lem m g u h.nil_color h.above.3.2 ∙ calm in
      let second = h.above.1.2 in
      let same : fix_step z m ≡ (rotate_left p m >>= raise_right p) = ground arith in
      (raised.0, same ∙ ap (λ r. r >>= raise_right p) turned.1 ∙ raised.1, raised.2)

  pub outer_right :
      Zipped m (node z cz ez a b) (in_right p cp ep s (in_right g cg eg u up))
      → (k : RbTreeMap A) × (fix_step z m ≡ done (z, k))
        × Zipped k (node p black ep (node g red eg u s) (node z cz ez a b)) up
  unfolding fix_step fix_right
  outer_right h =
      let raised = raise_left-Zipped h in
      let parent = h.below.1.0 in
      let grand = h.above.1.0 in
      let left = h.above.3.1.1 in
      let uncle = red_top_lem m g u h.nil_color h.above.3.2 ∙ calm in
      let second = h.above.1.1 in
      let ne : z ≢ top m.nil s =
        λ e. top-ne m.nil z s h.below.0 (omega (arith, h.once z, one_at_self z)) (sym e) in
      let other : p ≢ top m.nil u =
        λ e. top-ne m.nil p u h.above.0 (omega (arith, h.once p, one_at_self p)) (sym e) in
      let same : fix_step z m ≡ raise_left z m = ground arith in
      (raised.0, same ∙ raised.1, raised.2)

  pub inner_right :
      Zipped m (node z cz ez a b) (in_left p cp ep s (in_right g cg eg u up))
      → (k : RbTreeMap A) × (fix_step z m ≡ done (p, k))
        × Zipped k (node z black ez (node g red eg u a) (node p cp ep b s)) up
  unfolding fix_step fix_right
  inner_right h =
      let turned =
        rotate_right-Zipped m p z cp cz ep ez a b s (in_right g cg eg u up) (up_left h) in
      let raised = raise_left-Zipped (down_right turned.2) in
      let parent = h.below.1.0 in
      let grand = h.above.1.0 in
      let left = h.above.3.1.1 in
      let uncle = red_top_lem m g u h.nil_color h.above.3.2 ∙ calm in
      let second = h.above.1.1 in
      let other : p ≢ top m.nil u =
        λ e. top-ne m.nil p u h.above.0 (omega (arith, h.once p, one_at_self p)) (sym e) in
      let same : fix_step z m ≡ (rotate_right p m >>= raise_left p) = ground arith in
      (raised.0, same ∙ ap (λ r. r >>= raise_left p) turned.1 ∙ raised.1, raised.2)
