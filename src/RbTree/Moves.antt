-- ===== src/RbTree/Moves.antt =====
-- Moving in the tree of library/try_alloc/src/collection/rbtree/map.rs, and changing a color.
use cos_rs.Base.{ℕ, ◌≡◌, ◌≢◌, refl, sym, ap, ◌∙◌, arith}
use cos_rs.RbTree.{NodeColor, RbNode, RbTreeMap, set_node, set_color}
use cos_rs.RbTree.Shape.{
  Tree, node, Context, at_root, in_left, in_right, zip, one_at, Zipped, one_at-ne, Holds-frame,
  HoldsUp-frame,
}

store-other :
    {A : Type 0} (m : RbTreeMap A) (a q : ℕ) (n : RbNode A)
    → q ≢ a
    → (set_node a n m).nodes q ≡ m.nodes q
store-other m a q n ne = ground arith

module _ {A : Type 0} {m : RbTreeMap A} where
  -- The place that a map is seen from can move.
  pub up_left :
      {a : ℕ} {c : NodeColor} {e : A} {t r : Tree A} {up : Context A}
      → Zipped m t (in_left a c e r up)
      → Zipped m (node a c e t r) up
  up_left z = record {
    nil_value = z.nil_value;
    nil_color = z.nil_color;
    below = (z.above.0, z.above.1, z.below, z.above.2);
    above = z.above.3;
    once = λ q. omega (arith, z.once q);
  }

  pub up_right :
      {a : ℕ} {c : NodeColor} {e : A} {t l : Tree A} {up : Context A}
      → Zipped m t (in_right a c e l up)
      → Zipped m (node a c e l t) up
  up_right z = record {
    nil_value = z.nil_value;
    nil_color = z.nil_color;
    below = (z.above.0, z.above.1, z.above.2, z.below);
    above = z.above.3;
    once = λ q. omega (arith, z.once q);
  }

  pub down_left :
      {a : ℕ} {c : NodeColor} {e : A} {l r : Tree A} {up : Context A}
      → Zipped m (node a c e l r) up
      → Zipped m l (in_left a c e r up)
  down_left z = record {
    nil_value = z.nil_value;
    nil_color = z.nil_color;
    below = z.below.2;
    above = (z.below.0, z.below.1, z.below.3, z.above);
    once = λ q. omega (arith, z.once q);
  }

  pub down_right :
      {a : ℕ} {c : NodeColor} {e : A} {l r : Tree A} {up : Context A}
      → Zipped m (node a c e l r) up
      → Zipped m r (in_right a c e l up)
  down_right z = record {
    nil_value = z.nil_value;
    nil_color = z.nil_color;
    below = z.below.3;
    above = (z.below.0, z.below.1, z.below.2, z.above);
    once = λ q. omega (arith, z.once q);
  }

  pub Zipped-zip : (up : Context A) {t : Tree A} → Zipped m t up → Zipped m (zip t up) at_root
  Zipped-zip at_root z = z
  Zipped-zip (in_left a c e r up) z = Zipped-zip up (up_left z)
  Zipped-zip (in_right a c e l up) z = Zipped-zip up (up_right z)

  pub paint :
      {a : ℕ} {c : NodeColor} {e : A} {l r : Tree A} {up : Context A} (c' : NodeColor)
      → Zipped m (node a c e l r) up
      → Zipped (set_color a c' m) (node a c' e l r) up
  paint {a} {c} {e} {l} {r} {up} c' z =
      let k = set_color a c' m in
      let other : (q : ℕ) → one_at q a ≡ 0 → k.nodes q ≡ m.nodes q =
        λ q h. store-other m a q _ (one_at-ne q a h) in
      let nil_same : k.nodes m.nil ≡ m.nodes m.nil =
        store-other m a m.nil _ (λ f. z.below.0 (sym f)) in
      record {
        nil_value = ap (λ n. n.value) nil_same ∙ z.nil_value;
        nil_color = ap (λ n. n.color) nil_same ∙ z.nil_color;
        below = (
          z.below.0,
          (let at = z.below.1 in ground arith),
          Holds-frame m k a l refl (λ q h. other q (omega (arith, z.once q))) z.below.2,
          Holds-frame m k a r refl (λ q h. other q (omega (arith, z.once q))) z.below.3,
        );
        above = HoldsUp-frame m k a up refl refl (λ q h. other q (omega (arith, z.once q))) z.above;
        once = z.once;
      }
