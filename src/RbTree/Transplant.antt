-- ===== src/RbTree/Transplant.antt =====
-- `transplant` of library/try_alloc/src/collection/rbtree/map.rs, on the tree.
use cos_rs.Base.{ℕ, ◌+◌, ◌≤◌, ◌<◌, ◌≡◌, ◌≢◌, ◌⊎◌, inl, inr, refl, sym, ap, subst, ◌∙◌, none, arith}
use cos_rs.RbTree.{NodeColor, RbTreeMap, done}
use cos_rs.RbTree.Shape.{
  Tree, leaf, node, Context, at_root, in_left, in_right, count, count_up, one_at, top, parent_of,
  At, Holds, HoldsUp, Zipped, one_at_self, one_at-ne, top-ne, parent_of-ne, away_top, away_parent,
  nil_out, nil_out_up, Holds-frame, HoldsUp-in_left, HoldsUp-in_right,
}
use cos_rs.RbTree.Delete.{transplant, transplanted}

-- What the nodes are afterwards.
module _ {A : Type 0} (m : RbTreeMap A) (u v p : ℕ) (parent : (m.nodes u).parent ≡ p) (pu : p ≢ u)
    (vu : v ≢ u) (vp : (v ≢ p) ⊎ ((m.nodes v).value ≡ none)) where
  transplanted-nil : (transplanted u v m).nil ≡ m.nil
  unfolding transplanted
  transplanted-nil = ground arith

  transplanted-other :
      (q : ℕ)
      → q ≢ u
      → (q ≢ v) ⊎ ((m.nodes v).value ≡ none)
      → (q ≢ p) ⊎ ((m.nodes p).value ≡ none)
      → (transplanted u v m).nodes q ≡ m.nodes q
  unfolding transplanted
  transplanted-other q qu qv qp = ground arith

  transplanted-child :
      (x y : ℕ) (color : NodeColor) (f : A)
      → v ≢ p
      → At m v u x y color f
      → At (transplanted u v m) v p x y color f
  unfolding transplanted
  transplanted-child x y color f ne h = ground arith

  transplanted-root : (m.nodes p).value ≡ none → (transplanted u v m).root ≡ v
  unfolding transplanted
  transplanted-root h = ground arith

  transplanted-above_left :
      (g x : ℕ) (color : NodeColor) (f : A)
      → At m p g u x color f
      → At (transplanted u v m) p g v x color f × ((transplanted u v m).root ≡ m.root)
  unfolding transplanted
  transplanted-above_left g x color f h = ground arith

  transplanted-above_right :
      (g x : ℕ) (color : NodeColor) (f : A)
      → x ≢ u
      → At m p g x u color f
      → At (transplanted u v m) p g x v color f × ((transplanted u v m).root ≡ m.root)
  unfolding transplanted
  transplanted-above_right g x color f xu h = ground arith

module _ {A : Type 0} (m : RbTreeMap A) (u : ℕ) (c : NodeColor) (e : A) (l r : Tree A)
    (up : Context A) (z : Zipped m (node u c e l r) up) (t : Tree A) (b : Holds m u t)
    (inside : (q : ℕ) → count q t ≤ count q l + count q r) where
  apart : (q : ℕ) → one_at q u + count q t + count_up q up ≤ 1
  apart q = omega (arith, z.once q, inside q)

  abbrev p : ℕ
  p = parent_of m.nil up

  abbrev v : ℕ
  v = top m.nil t

  vu : v ≢ u
  vu = top-ne m.nil u t z.below.0 (omega (arith, apart u, one_at_self u))

  pu : p ≢ u
  pu = parent_of-ne m.nil u up z.below.0 (omega (arith, apart u, one_at_self u))

  vp : (s : Tree A) → t ≡ s → (top m.nil s ≢ p) ⊎ ((m.nodes (top m.nil s)).value ≡ none)
  vp leaf f = inr z.nil_value
  vp (node a color g x y) f =
      let here : Holds m u (node a color g x y) = subst (Holds m u) f b in
      inl (λ s.
        parent_of-ne m.nil a up here.0 (omega (arith, apart a, ap (count a) f, one_at_self a))
          (sym s))

  abbrev k : RbTreeMap A
  k = transplanted u v m

  k_nil : k.nil ≡ m.nil
  k_nil = transplanted-nil m u v p z.below.1.0 pu vu (vp t refl)

  k_other :
      (q : ℕ) → q ≢ u → (q ≢ v) ⊎ (t ≡ leaf) → (q ≢ p) ⊎ (up ≡ at_root) → k.nodes q ≡ m.nodes q
  k_other q qu qv qp =
      transplanted-other m u v p z.below.1.0 pu vu (vp t refl) q qu
        (elim qv [ inl f ↦ inl f | inr f ↦ inr (rw f z.nil_value) ])
        (elim qp [ inl f ↦ inl f | inr f ↦ inr (rw f z.nil_value) ])

  below : (s : Tree A) → t ≡ s → Holds k p s
  below leaf f = tt
  below (node a color g x y) f =
      let here : Holds m u (node a color g x y) = subst (Holds m u) f b in
      let counts : (q : ℕ) → count q t ≡ one_at q a + count q x + count q y = λ q. ap (count q) f in
      let is_top : v ≡ a = ap (top m.nil) f in
      let ne : v ≢ p = λ s.
        parent_of-ne m.nil a up here.0 (omega (arith, apart a, counts a, one_at_self a))
          (sym s ∙ is_top) in
      let moved =
        transplanted-child m u v p z.below.1.0 pu vu (vp t refl) (top m.nil x) (top m.nil y) color g
          ne (subst (λ w. At m w u (top m.nil x) (top m.nil y) color g) (sym is_top) here.1) in
      let far : (q : ℕ) → 0 < count q x + count q y → k.nodes q ≡ m.nodes q = λ q i.
        k_other q (one_at-ne q u (omega (arith, apart q, counts q, i)))
          (inl (λ s. one_at-ne q a (omega (arith, apart q, counts q, i)) (s ∙ is_top)))
          (away_parent m.nil q up (omega (arith, apart q, counts q, i))) in
      (
        λ s. here.0 (s ∙ k_nil),
        rw k_nil (subst (λ w. At k w p (top m.nil x) (top m.nil y) color g) is_top moved),
        Holds-frame m k a x k_nil (λ q i. far q (omega (arith, i))) here.2,
        Holds-frame m k a y k_nil (λ q i. far q (omega (arith, i))) here.3,
      )

  -- The context behind the parent stays.
  behind : (a q : ℕ) → p ≡ a → 0 < count_up q up → one_at q a ≡ 0 → k.nodes q ≡ m.nodes q
  behind a q is_parent in_up not_a =
      k_other q (one_at-ne q u (omega (arith, apart q, in_up)))
        (away_top m.nil q t (omega (arith, apart q, in_up)))
        (inl (λ s. one_at-ne q a not_a (s ∙ is_parent)))

  above : (s : Context A) → up ≡ s → HoldsUp k v s
  above at_root f = transplanted-root m u v p z.below.1.0 pu vu (vp t refl) (rw f z.nil_value)
  above (in_left a color g s rest) f =
      let here : HoldsUp m u (in_left a color g s rest) = subst (HoldsUp m u) f z.above in
      let counts : (q : ℕ) → count_up q up ≡ one_at q a + count q s + count_up q rest =
        λ q. ap (count_up q) f in
      let is_parent : p ≡ a = ap (parent_of m.nil) f in
      let moved =
        transplanted-above_left m u v p z.below.1.0 pu vu (vp t refl) (parent_of m.nil rest)
          (top m.nil s) color g
          (subst (λ w. At m w (parent_of m.nil rest) u (top m.nil s) color g) (sym is_parent)
            here.1) in
      let far : (q : ℕ) → 0 < count q s + count_up q rest → k.nodes q ≡ m.nodes q = λ q i.
        behind a q is_parent (omega (arith, counts q, i)) (omega (arith, counts q, i, apart q)) in
      HoldsUp-in_left m k v a color g s rest k_nil moved.1 far
        (subst (λ w. At k w (parent_of m.nil rest) v (top m.nil s) color g) is_parent moved.0)
        (here.0, here.2, here.3)
  above (in_right a color g s rest) f =
      let here : HoldsUp m u (in_right a color g s rest) = subst (HoldsUp m u) f z.above in
      let counts : (q : ℕ) → count_up q up ≡ one_at q a + count q s + count_up q rest =
        λ q. ap (count_up q) f in
      let is_parent : p ≡ a = ap (parent_of m.nil) f in
      let beside : top m.nil s ≢ u =
        top-ne m.nil u s z.below.0 (omega (arith, apart u, counts u, one_at_self u)) in
      let moved =
        transplanted-above_right m u v p z.below.1.0 pu vu (vp t refl) (parent_of m.nil rest)
          (top m.nil s) color g beside
          (subst (λ w. At m w (parent_of m.nil rest) (top m.nil s) u color g) (sym is_parent)
            here.1) in
      let far : (q : ℕ) → 0 < count q s + count_up q rest → k.nodes q ≡ m.nodes q = λ q i.
        behind a q is_parent (omega (arith, counts q, i)) (omega (arith, counts q, i, apart q)) in
      HoldsUp-in_right m k v a color g s rest k_nil moved.1 far
        (subst (λ w. At k w (parent_of m.nil rest) (top m.nil s) v color g) is_parent moved.0)
        (here.0, here.2, here.3)

  nil_stays : k.nodes k.nil ≡ m.nodes m.nil
  nil_stays =
      ap k.nodes k_nil
      ∙ k_other m.nil (λ s. z.below.0 (sym s)) (away_top m.nil m.nil t (nil_out m u t b))
          (away_parent m.nil m.nil up (nil_out_up m u up z.above))

  -- A child's tree takes the place of the node.
  pub transplant-Zipped :
      (k : RbTreeMap A) × (transplant u (top m.nil t) m ≡ done k) × Zipped k t up × (k.nil ≡ m.nil)
  unfolding transplant
  transplant-Zipped = (
    k,
    (let a = z.below.0 in let uv : u ≢ v = λ s. vu (sym s) in ground arith),
    record {
      nil_value = ap (λ n. n.value) nil_stays ∙ z.nil_value;
      nil_color = ap (λ n. n.color) nil_stays ∙ z.nil_color;
      below = subst (λ n. Holds k (parent_of n up) t) (sym k_nil) (below t refl);
      above = subst (λ n. HoldsUp k (top n t) up) (sym k_nil) (above up refl);
      once = λ q. omega (arith, apart q);
    },
    k_nil,
  )
