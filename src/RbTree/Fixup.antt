-- ===== src/RbTree/Fixup.antt =====
-- `insert_fixup` of library/try_alloc/src/collection/rbtree/map.rs and a function on trees.
use cos_rs.Base.{ℕ, ◌≡◌, ap, ◌∙◌}
use cos_rs.RbTree.{
  NodeColor, black, red, RbTreeMap, done, ◌>>=◌, set_color, rotate_left, rotate_right, raise_right,
  raise_left,
}
use cos_rs.RbTree.Shape.{Tree, node, Context, in_left, in_right, Zipped}
use cos_rs.RbTree.Rotate.{rotate_left-Zipped}
use cos_rs.RbTree.Mirror.{rotate_right-Zipped}
use cos_rs.RbTree.Moves.{up_left, up_right, down_left, down_right, paint}

module _ {A : Type 0} {m : RbTreeMap A} {z p g : ℕ} {cz cp cg : NodeColor} {ez ep eg : A}
    {a b s u : Tree A} {up : Context A} where
  pub raise_right-Zipped :
      Zipped m (node z cz ez a b) (in_left p cp ep s (in_left g cg eg u up))
      → (k : RbTreeMap A) × (raise_right z m ≡ done (z, k))
        × Zipped k (node p black ep (node z cz ez a b) (node g red eg s u)) up
  unfolding raise_right
  raise_right-Zipped h =
      let m1 = set_color p black m in
      let hp = paint black (up_left h) in
      let turned =
        rotate_right-Zipped (set_color g red m1) g p red black eg ep (node z cz ez a b) s u up
          (paint red (up_left hp)) in
      let parents = ap (λ q. (m1.nodes q).parent) (down_left hp).below.1.0 ∙ hp.below.1.0 in
      (
        turned.0,
        ap
              (λ q.
                let m2 = set_color q black m in
                let v = (m2.nodes (m2.nodes z).parent).parent in
                rotate_right v (set_color v red m2) >>= λ k. done (z, k))
              h.below.1.0
            ∙ ap (λ v. rotate_right v (set_color v red m1) >>= λ k. done (z, k)) parents
            ∙ ap (λ r. r >>= λ k. done (z, k)) turned.1,
        turned.2,
      )

  pub raise_left-Zipped :
      Zipped m (node z cz ez a b) (in_right p cp ep s (in_right g cg eg u up))
      → (k : RbTreeMap A) × (raise_left z m ≡ done (z, k))
        × Zipped k (node p black ep (node g red eg u s) (node z cz ez a b)) up
  unfolding raise_left
  raise_left-Zipped h =
      let m1 = set_color p black m in
      let hp = paint black (up_right h) in
      let turned =
        rotate_left-Zipped (set_color g red m1) g p red black eg ep u s (node z cz ez a b) up
          (paint red (up_right hp)) in
      let parents = ap (λ q. (m1.nodes q).parent) (down_right hp).below.1.0 ∙ hp.below.1.0 in
      (
        turned.0,
        ap
              (λ q.
                let m2 = set_color q black m in
                let v = (m2.nodes (m2.nodes z).parent).parent in
                rotate_left v (set_color v red m2) >>= λ k. done (z, k))
              h.below.1.0
            ∙ ap (λ v. rotate_left v (set_color v red m1) >>= λ k. done (z, k)) parents
            ∙ ap (λ r. r >>= λ k. done (z, k)) turned.1,
        turned.2,
      )
