-- ===== src/RbTree/Replace.antt =====
-- `replace` of library/try_alloc/src/collection/rbtree/map.rs: a new node takes the place of another.
mod Writes
use cos_rs.Base.{
  ℕ, ◌+◌, ◌≤◌, ◌<◌, ◌≡◌, ◌≢◌, ◌⊎◌, inl, inr, refl, sym, ap, subst, ◌∙◌, none, some, arith,
}
use cos_rs.RbTree.{NodeColor, RbTreeMap, done, replace, copied, exchanged}
use cos_rs.RbTree.Shape.{
  Tree, leaf, node, Context, at_root, in_left, in_right, count, count_up, one_at, top, parent_of,
  At, Holds, HoldsUp, Zipped, one_at_self, one_at-ne, top-ne, parent_of-ne, away_top, away_parent,
  nil_out, nil_out_up, Holds-frame, HoldsUp-in_left, HoldsUp-in_right,
}
use cos_rs.RbTree.Attach.{old-ne, add_new}
use cos_rs.RbTree.Replace.Writes.{
  copied-same, copied-new, copied-other, copied-left, copied-right, exchanged-nil, exchanged-other,
  exchanged-old, exchanged-root, exchanged-above_left, exchanged-above_right,
}

module _ {A : Type 0} (m : RbTreeMap A) (u v : ℕ) (c : NodeColor) (e d : A) (l r : Tree A)
    (up : Context A) (z : Zipped m (node u c e l r) up) (nv : v ≢ m.nil)
    (value : (m.nodes v).value ≡ some d) (new : count v (node u c e l r) + count_up v up ≡ 0) where
  apart : (q : ℕ) → one_at q u + count q l + count q r + count_up q up ≤ 1
  apart q = omega (arith, z.once q)

  abbrev p : ℕ
  p = parent_of m.nil up

  abbrev nu : u ≢ m.nil
  nu = z.below.0

  uv : u ≢ v
  uv f = one_at-ne v u (omega (arith, new)) (sym f)

  lv : top m.nil l ≢ v
  lv = top-ne m.nil v l nv (omega (arith, new))

  rv : top m.nil r ≢ v
  rv = top-ne m.nil v r nv (omega (arith, new))

  pv : p ≢ v
  pv = parent_of-ne m.nil v up nv (omega (arith, new))

  lu : top m.nil l ≢ u
  lu = top-ne m.nil u l nu (omega (arith, apart u, one_at_self u))

  ru : top m.nil r ≢ u
  ru = top-ne m.nil u r nu (omega (arith, apart u, one_at_self u))

  pu : p ≢ u
  pu = parent_of-ne m.nil u up nu (omega (arith, apart u, one_at_self u))

  abbrev h : RbTreeMap A
  h = copied u v m

  same : (h.nil ≡ m.nil) × (h.root ≡ m.root)
  same = copied-same m u v p (top m.nil l) (top m.nil r) c e d z.below.1 value lv rv uv lu ru

  h_new : At h v p (top m.nil l) (top m.nil r) c d
  h_new = copied-new m u v p (top m.nil l) (top m.nil r) c e d z.below.1 value lv rv uv lu ru

  h_other :
      (q : ℕ)
      → q ≢ v
      → (q ≢ top m.nil l) ⊎ (l ≡ leaf)
      → (q ≢ top m.nil r) ⊎ (r ≡ leaf)
      → h.nodes q ≡ m.nodes q
  h_other q qv ql qr =
      copied-other m u v p (top m.nil l) (top m.nil r) c e d z.below.1 value lv rv uv lu ru q qv
        (elim ql [ inl f ↦ inl f | inr f ↦ inr (rw f z.nil_value) ])
        (elim qr [ inl f ↦ inl f | inr f ↦ inr (rw f z.nil_value) ])

  abbrev k : RbTreeMap A
  k = exchanged u v h

  k_nil : k.nil ≡ m.nil
  k_nil = exchanged-nil h u v p (top m.nil l) (top m.nil r) c d h_new pv uv pu ∙ same.0

  h_nil : h.nodes m.nil ≡ m.nodes m.nil
  h_nil =
      h_other m.nil (λ f. nv (sym f)) (away_top m.nil m.nil l (nil_out m u l z.below.2))
        (away_top m.nil m.nil r (nil_out m u r z.below.3))

  k_other : (q : ℕ) → q ≢ u → (q ≢ p) ⊎ (up ≡ at_root) → k.nodes q ≡ h.nodes q
  k_other q qu qp =
      exchanged-other h u v p (top m.nil l) (top m.nil r) c d h_new pv uv pu q qu
        (elim qp [ inl f ↦ inl f | inr f ↦ inr (rw f (ap (λ n. n.value) h_nil ∙ z.nil_value)) ])

  -- An address of the tree is not the new one.
  old : (q : ℕ) → 0 < one_at q u + count q l + count q r + count_up q up → q ≢ v
  old q there =
      old-ne (λ w. one_at w u + count w l + count w r + count_up w up) q v (omega (arith, new))
        there

  -- The rest of a child's tree stays.
  below_child :
      (parent : ℕ) (t : Tree A) (a : ℕ)
      → ((q : ℕ) → count q t + one_at q a ≤ count q l + count q r)
      → ((q : ℕ) → 0 < count q t → (q ≢ top m.nil l) ⊎ (l ≡ leaf))
      → ((q : ℕ) → 0 < count q t → (q ≢ top m.nil r) ⊎ (r ≡ leaf))
      → Holds m parent t
      → Holds k parent t
  below_child parent t a inside not_l not_r = Holds-frame m k parent t k_nil (λ q in_t.
      k_other q (one_at-ne q u (omega (arith, apart q, inside q, in_t)))
        (away_parent m.nil q up (omega (arith, apart q, inside q, in_t)))
      ∙ h_other q (old q (omega (arith, inside q, in_t))) (not_l q in_t) (not_r q in_t))

  left_child : (t : Tree A) → l ≡ t → Holds k v t
  left_child leaf f = tt
  left_child (node a color g x y) f =
      let b : Holds m u (node a color g x y) = subst (Holds m u) f z.below.2 in
      let counts : (q : ℕ) → count q l ≡ one_at q a + count q x + count q y = λ q. ap (count q) f in
      let is_top : top m.nil l ≡ a = ap (top m.nil) f in
      let in_r : top m.nil r ≢ a =
        top-ne m.nil a r b.0 (omega (arith, apart a, counts a, one_at_self a)) in
      let au : a ≢ u = λ s. lu (is_top ∙ s) in
      let moved : At h a v (top m.nil x) (top m.nil y) color g =
        subst (λ w. At h w v (top m.nil x) (top m.nil y) color g) is_top
          (copied-left m u v p (top m.nil l) (top m.nil r) c e d z.below.1 value lv rv uv lu ru
            (top m.nil x) (top m.nil y) color g (λ s. in_r (sym s ∙ is_top))
            (subst (λ w. At m w u (top m.nil x) (top m.nil y) color g) (sym is_top) b.1)) in
      let stays : k.nodes a ≡ h.nodes a =
        k_other a au (away_parent m.nil a up (omega (arith, apart a, counts a, one_at_self a))) in
      let rest : (t : Tree A)
          → ((q : ℕ) → count q t + one_at q a ≤ count q l)
          → Holds m a t
          → Holds k a t =
        λ t inside.
          below_child a t a (λ q. omega (arith, inside q))
            (λ q i. inl (λ s. one_at-ne q a (omega (arith, inside q, i, apart q)) (s ∙ is_top)))
            (λ q i. away_top m.nil q r (omega (arith, inside q, i, apart q))) in
      (
        λ s. b.0 (s ∙ k_nil),
        rw (stays, k_nil) moved,
        rest x (λ q. omega (arith, counts q)) b.2,
        rest y (λ q. omega (arith, counts q)) b.3,
      )

  right_child : (t : Tree A) → r ≡ t → Holds k v t
  right_child leaf f = tt
  right_child (node a color g x y) f =
      let b : Holds m u (node a color g x y) = subst (Holds m u) f z.below.3 in
      let counts : (q : ℕ) → count q r ≡ one_at q a + count q x + count q y = λ q. ap (count q) f in
      let is_top : top m.nil r ≡ a = ap (top m.nil) f in
      let in_l : top m.nil l ≢ a =
        top-ne m.nil a l b.0 (omega (arith, apart a, counts a, one_at_self a)) in
      let au : a ≢ u = λ s. ru (is_top ∙ s) in
      let moved : At h a v (top m.nil x) (top m.nil y) color g =
        subst (λ w. At h w v (top m.nil x) (top m.nil y) color g) is_top
          (copied-right m u v p (top m.nil l) (top m.nil r) c e d z.below.1 value lv rv uv lu ru
            (top m.nil x) (top m.nil y) color g (λ s. in_l (sym s ∙ is_top))
            (subst (λ w. At m w u (top m.nil x) (top m.nil y) color g) (sym is_top) b.1)) in
      let stays : k.nodes a ≡ h.nodes a =
        k_other a au (away_parent m.nil a up (omega (arith, apart a, counts a, one_at_self a))) in
      let rest : (t : Tree A)
          → ((q : ℕ) → count q t + one_at q a ≤ count q r)
          → Holds m a t
          → Holds k a t =
        λ t inside.
          below_child a t a (λ q. omega (arith, inside q))
            (λ q i. away_top m.nil q l (omega (arith, inside q, i, apart q)))
            (λ q i. inl (λ s. one_at-ne q a (omega (arith, inside q, i, apart q)) (s ∙ is_top))) in
      (
        λ s. b.0 (s ∙ k_nil),
        rw (stays, k_nil) moved,
        rest x (λ q. omega (arith, counts q)) b.2,
        rest y (λ q. omega (arith, counts q)) b.3,
      )

  -- The part of the context behind its first node stays, and so does a tree beside it.
  module _ (a : ℕ) (is_parent : p ≡ a) where
    behind : (q : ℕ) → 0 < count_up q up → one_at q a ≡ 0 → k.nodes q ≡ m.nodes q
    behind q in_up not_a =
        k_other q (one_at-ne q u (omega (arith, apart q, in_up)))
          (inl (λ s. one_at-ne q a not_a (s ∙ is_parent)))
        ∙ h_other q (old q (omega (arith, in_up)))
            (away_top m.nil q l (omega (arith, apart q, in_up)))
            (away_top m.nil q r (omega (arith, apart q, in_up)))

    parent_stays : 0 < count_up a up → h.nodes p ≡ m.nodes p
    parent_stays in_up = rw is_parent (
        h_other a (old a (omega (arith, in_up)))
          (away_top m.nil a l (omega (arith, apart a, in_up)))
          (away_top m.nil a r (omega (arith, apart a, in_up))))

  above : (t : Context A) → up ≡ t → HoldsUp k v t
  above at_root f =
      exchanged-root h u v p (top m.nil l) (top m.nil r) c d h_new pv uv pu
        (rw f (ap (λ n. n.value) h_nil ∙ z.nil_value))
  above (in_left a color g t rest) f =
      let b : HoldsUp m u (in_left a color g t rest) = subst (HoldsUp m u) f z.above in
      let counts : (q : ℕ) → count_up q up ≡ one_at q a + count q t + count_up q rest =
        λ q. ap (count_up q) f in
      let is_parent : p ≡ a = ap (parent_of m.nil) f in
      let stays = parent_stays a is_parent (omega (arith, counts a, one_at_self a)) in
      let moved =
        exchanged-above_left h u v p (top m.nil l) (top m.nil r) c d h_new pv uv pu
          (parent_of m.nil rest) (top m.nil t) color g
          (rw stays (
            subst (λ w. At m w (parent_of m.nil rest) u (top m.nil t) color g) (sym is_parent)
              b.1)) in
      let far : (q : ℕ) → 0 < count q t + count_up q rest → k.nodes q ≡ m.nodes q = λ q i.
        behind a is_parent q (omega (arith, counts q, i)) (omega (arith, counts q, i, apart q)) in
      HoldsUp-in_left m k v a color g t rest k_nil (moved.1 ∙ same.1) far
        (subst (λ w. At k w (parent_of m.nil rest) v (top m.nil t) color g) is_parent moved.0)
        (b.0, b.2, b.3)
  above (in_right a color g t rest) f =
      let b : HoldsUp m u (in_right a color g t rest) = subst (HoldsUp m u) f z.above in
      let counts : (q : ℕ) → count_up q up ≡ one_at q a + count q t + count_up q rest =
        λ q. ap (count_up q) f in
      let is_parent : p ≡ a = ap (parent_of m.nil) f in
      let stays = parent_stays a is_parent (omega (arith, counts a, one_at_self a)) in
      let beside : top m.nil t ≢ u =
        top-ne m.nil u t nu (omega (arith, apart u, counts u, one_at_self u)) in
      let moved =
        exchanged-above_right h u v p (top m.nil l) (top m.nil r) c d h_new pv uv pu
          (parent_of m.nil rest) (top m.nil t) color g beside
          (rw stays (
            subst (λ w. At m w (parent_of m.nil rest) (top m.nil t) u color g) (sym is_parent)
              b.1)) in
      let far : (q : ℕ) → 0 < count q t + count_up q rest → k.nodes q ≡ m.nodes q = λ q i.
        behind a is_parent q (omega (arith, counts q, i)) (omega (arith, counts q, i, apart q)) in
      HoldsUp-in_right m k v a color g t rest k_nil (moved.1 ∙ same.1) far
        (subst (λ w. At k w (parent_of m.nil rest) (top m.nil t) v color g) is_parent moved.0)
        (b.0, b.2, b.3)

  k_nil_node : k.nodes k.nil ≡ m.nodes m.nil
  k_nil_node =
      ap k.nodes k_nil
      ∙ k_other m.nil (λ s. nu (sym s)) (away_parent m.nil m.nil up (nil_out_up m u up z.above))
      ∙ h_nil

  pub replace-Zipped :
      (k : RbTreeMap A) × (replace u v m ≡ done k)
      × Zipped k (node v c d l r) up
      × ((k.nodes u).value ≡ some e)
  unfolding replace
  replace-Zipped = (
    k,
    (let a = nu in let b = nv in ground arith),
    record {
      nil_value = ap (λ n. n.value) k_nil_node ∙ z.nil_value;
      nil_color = ap (λ n. n.color) k_nil_node ∙ z.nil_color;
      below = rw k_nil (
        nv,
        rw (k_other v (λ s. uv (sym s)) (away_parent m.nil v up (omega (arith, new)))) h_new,
        left_child l refl,
        right_child r refl,
      );
      above = above up refl;
      once = λ q. omega (
        arith,
        add_new (λ w. count w l + count w r + count_up w up) q v (omega (arith, new))
            (omega (arith, apart q)),
      );
    },
    exchanged-old h u v p (top m.nil l) (top m.nil r) c d h_new pv uv pu
        ∙ ap (λ n. n.value)
            (h_other u uv (away_top m.nil u l (omega (arith, apart u, one_at_self u)))
              (away_top m.nil u r (omega (arith, apart u, one_at_self u))))
        ∙ z.below.1.4,
  )
