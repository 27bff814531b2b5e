-- ===== src/RbTree/Rotate.antt =====
-- Rotations of library/try_alloc/src/collection/rbtree/map.rs.
mod Writes
use cos_rs.Base.{ℕ, ◌+◌, ◌≤◌, ◌<◌, ◌≡◌, ◌≢◌, ◌⊎◌, inl, inr, refl, sym, ap, subst, ◌∙◌, none, arith}
use cos_rs.RbTree.{NodeColor, RbTreeMap, turn_left, rotate_left, done}
use cos_rs.RbTree.Shape.{
  Tree, leaf, node, Context, at_root, in_left, in_right, count, count_up, one_at, top, parent_of,
  At, Holds, HoldsUp, Zipped, nil_out, nil_out_up, away_top, away_parent, one_at_self, one_at-ne,
  top-ne, parent_of-ne, Holds-frame, HoldsUp-frame,
}
use cos_rs.RbTree.Rotate.Writes.{
  turn_left-nil, turn_left-x, turn_left-y, turn_left-other, turn_left-middle, turn_left-root,
  turn_left-above_left, turn_left-above_right,
}

module _ {A : Type 0} (m : RbTreeMap A) (x y : ℕ) (cx cy : NodeColor) (ex ey : A) (a b c : Tree A)
    (up : Context A) (z : Zipped m (node x cx ex a (node y cy ey b c)) up) where
  -- Each address of the tree is in one place.
  apart : (q : ℕ) → one_at q x + count q a + one_at q y + count q b + count q c + count_up q up ≤ 1
  apart q = omega (arith, z.once q)

  abbrev nx : x ≢ m.nil
  nx = z.below.0

  abbrev ny : y ≢ m.nil
  ny = z.below.3.0

  xy : x ≢ y
  xy = one_at-ne x y (omega (arith, apart x, one_at_self x))

  by : top m.nil b ≢ y
  by = top-ne m.nil y b ny (omega (arith, apart y, one_at_self y))

  bx : top m.nil b ≢ x
  bx = top-ne m.nil x b nx (omega (arith, apart x, one_at_self x))

  px : parent_of m.nil up ≢ x
  px = parent_of-ne m.nil x up nx (omega (arith, apart x, one_at_self x))

  py : parent_of m.nil up ≢ y
  py = parent_of-ne m.nil y up ny (omega (arith, apart y, one_at_self y))

  abbrev hx : At m x (parent_of m.nil up) (top m.nil a) y cx ex
  hx = z.below.1

  abbrev hy : At m y x (top m.nil b) (top m.nil c) cy ey
  hy = z.below.3.1

  abbrev k : RbTreeMap A
  k = turn_left x m

  -- A node that is not of the two, not the top of the middle tree and not the parent stays.
  stays :
      (q : ℕ)
      → q ≢ x
      → q ≢ y
      → (q ≢ top m.nil b) ⊎ (b ≡ leaf)
      → (q ≢ parent_of m.nil up) ⊎ (up ≡ at_root)
      → k.nodes q ≡ m.nodes q
  stays q qx qy qb qp =
      turn_left-other m x y (parent_of m.nil up) (top m.nil a) (top m.nil b) (top m.nil c) cx cy ex
        ey hx hy xy by bx px py q qx qy (elim qb [ inl h ↦ inl h | inr h ↦ inr (rw h z.nil_value) ])
        (elim qp [ inl h ↦ inl h | inr h ↦ inr (rw h z.nil_value) ])

  same_nil : k.nil ≡ m.nil
  same_nil =
      turn_left-nil m x y (parent_of m.nil up) (top m.nil a) (top m.nil b) (top m.nil c) cx cy ex ey
        hx hy xy by bx px py

  -- What is beside the two nodes, the middle tree and the context stays.
  side :
      (parent : ℕ) (t : Tree A)
      → ((q : ℕ) → count q t + one_at q x + one_at q y + count q b + count_up q up ≤ 1)
      → Holds m parent t
      → Holds k parent t
  side parent t out h =
      Holds-frame m k parent t same_nil
        (λ q in_t.
          stays q (one_at-ne q x (omega (arith, out q, in_t)))
            (one_at-ne q y (omega (arith, out q, in_t)))
            (away_top m.nil q b (omega (arith, out q, in_t)))
            (away_parent m.nil q up (omega (arith, out q, in_t))))
        h

  middle : (t : Tree A) → b ≡ t → Holds k x t
  middle leaf e = tt
  middle (node q color entry l r) e =
      let h : Holds m y (node q color entry l r) = subst (Holds m y) e z.below.3.2 in
      let counts : (v : ℕ) → count v b ≡ one_at v q + count v l + count v r = λ v. ap (count v) e in
      let is_top : top m.nil b ≡ q = ap (top m.nil) e in
      let bp : top m.nil b ≢ parent_of m.nil up = λ f.
        parent_of-ne m.nil q up h.0 (omega (arith, apart q, counts q, one_at_self q))
          (sym f ∙ is_top) in
      let below : (parent : ℕ) (t : Tree A)
          → ((v : ℕ) → count v t + one_at v q ≤ count v b)
          → Holds m parent t
          → Holds k parent t =
        λ parent t inside. Holds-frame m k parent t same_nil (λ v in_t.
          stays v (one_at-ne v x (omega (arith, apart v, inside v, in_t)))
            (one_at-ne v y (omega (arith, apart v, inside v, in_t)))
            (inl (λ f. one_at-ne v q (omega (arith, apart v, inside v, in_t)) (f ∙ is_top)))
            (away_parent m.nil v up (omega (arith, apart v, inside v, in_t)))) in
      (
        λ f. h.0 (f ∙ same_nil),
        rw same_nil (
            subst (λ v. At k v x (top m.nil l) (top m.nil r) color entry) is_top
              (turn_left-middle m x y (parent_of m.nil up) (top m.nil a) (top m.nil b) (top m.nil c)
                cx cy ex ey hx hy xy by bx px py (top m.nil l) (top m.nil r) color entry bp
                (subst (λ v. At m v y (top m.nil l) (top m.nil r) color entry) (sym is_top) h.1))),
        below q l (λ v. omega (arith, counts v)) h.2,
        below q r (λ v. omega (arith, counts v)) h.3,
      )

  -- A part of the context behind its first node stays.
  module _ (q : ℕ) (is_parent : parent_of m.nil up ≡ q) where
    beyond : (v : ℕ) → count v b + one_at v x + one_at v y + one_at v q < 1 → k.nodes v ≡ m.nodes v
    beyond v out =
        stays v (one_at-ne v x (omega (arith, out))) (one_at-ne v y (omega (arith, out)))
          (away_top m.nil v b (omega (arith, out)))
          (inl (λ f. one_at-ne v q (omega (arith, out)) (f ∙ is_parent)))

    module _ (t : Tree A) (u : Context A)
        (inside : (v : ℕ) → one_at v q + count v t + count_up v u ≡ count_up v up) where
      sibling : Holds m q t → Holds k q t
      sibling =
          Holds-frame m k q t same_nil (λ v in_t. beyond v (omega (arith, apart v, inside v, in_t)))

      rest : k.root ≡ m.root → HoldsUp m q u → HoldsUp k q u
      rest er =
          HoldsUp-frame m k q u same_nil er
            (λ v in_u. beyond v (omega (arith, apart v, inside v, in_u)))

      not_top : q ≢ m.nil → top m.nil b ≢ parent_of m.nil up
      not_top nq f =
          top-ne m.nil q b nq (omega (arith, apart q, inside q, one_at_self q)) (f ∙ is_parent)

      not_x : Holds m q t → top m.nil t ≢ x
      not_x h = top-ne m.nil x t nx (omega (arith, apart x, inside x, one_at_self x))

  above : (t : Context A) → up ≡ t → HoldsUp k y t
  above at_root e =
      turn_left-root m x y (parent_of m.nil up) (top m.nil a) (top m.nil b) (top m.nil c) cx cy ex
        ey hx hy xy by bx px py (rw e z.nil_value)
  above (in_left q color entry r u) e =
      let h : HoldsUp m x (in_left q color entry r u) = subst (HoldsUp m x) e z.above in
      let inside : (v : ℕ) → one_at v q + count v r + count_up v u ≡ count_up v up =
        λ v. sym (ap (count_up v) e) in
      let is_parent : parent_of m.nil up ≡ q = ap (parent_of m.nil) e in
      let moved =
        turn_left-above_left m x y (parent_of m.nil up) (top m.nil a) (top m.nil b) (top m.nil c) cx
          cy ex ey hx hy xy by bx px py (parent_of m.nil u) (top m.nil r) color entry
          (not_top q is_parent r u inside h.0)
          (subst (λ v. At m v (parent_of m.nil u) x (top m.nil r) color entry) (sym is_parent)
            h.1) in
      (
        λ f. h.0 (f ∙ same_nil),
        rw same_nil
            (subst (λ v. At k v (parent_of m.nil u) y (top m.nil r) color entry) is_parent moved.0),
        sibling q is_parent r u inside h.2,
        rest q is_parent r u inside moved.1 h.3,
      )
  above (in_right q color entry l u) e =
      let h : HoldsUp m x (in_right q color entry l u) = subst (HoldsUp m x) e z.above in
      let inside : (v : ℕ) → one_at v q + count v l + count_up v u ≡ count_up v up =
        λ v. sym (ap (count_up v) e) in
      let is_parent : parent_of m.nil up ≡ q = ap (parent_of m.nil) e in
      let moved =
        turn_left-above_right m x y (parent_of m.nil up) (top m.nil a) (top m.nil b) (top m.nil c)
          cx cy ex ey hx hy xy by bx px py (parent_of m.nil u) (top m.nil l) color entry
          (not_top q is_parent l u inside h.0) (not_x q is_parent l u inside h.2)
          (subst (λ v. At m v (parent_of m.nil u) (top m.nil l) x color entry) (sym is_parent)
            h.1) in
      (
        λ f. h.0 (f ∙ same_nil),
        rw same_nil
            (subst (λ v. At k v (parent_of m.nil u) (top m.nil l) y color entry) is_parent moved.0),
        sibling q is_parent l u inside h.2,
        rest q is_parent l u inside moved.1 h.3,
      )

  nil_stays : k.nodes k.nil ≡ m.nodes m.nil
  nil_stays =
      ap k.nodes same_nil
      ∙ stays m.nil (λ e. nx (sym e)) (λ e. ny (sym e))
          (away_top m.nil m.nil b (nil_out m y b z.below.3.2))
          (away_parent m.nil m.nil up (nil_out_up m x up z.above))

  pub turn_left-Zipped : Zipped k (node y cy ey (node x cx ex a b) c) up
  turn_left-Zipped = record {
    nil_value = ap (λ n. n.value) nil_stays ∙ z.nil_value;
    nil_color = ap (λ n. n.color) nil_stays ∙ z.nil_color;
    below = rw same_nil (
      ny,
      turn_left-y m x y (parent_of m.nil up) (top m.nil a) (top m.nil b) (top m.nil c) cx cy ex ey
          hx hy xy by bx px py,
      (
        nx,
        turn_left-x m x y (parent_of m.nil up) (top m.nil a) (top m.nil b) (top m.nil c) cx cy ex ey
            hx hy xy by bx px py,
        side x a (λ q. omega (arith, apart q)) z.below.2,
        middle b refl,
      ),
      side y c (λ q. omega (arith, apart q)) z.below.3.3,
    );
    above = above up refl;
    once = λ q. omega (arith, apart q);
  }

  pub rotate_left-Zipped :
      (k : RbTreeMap A) × (rotate_left x m ≡ done k)
      × Zipped k (node y cy ey (node x cx ex a b) c) up
  unfolding rotate_left
  rotate_left-Zipped =
      (k, (let child = hx.2 in let hnx = nx in let hny = ny in ground arith), turn_left-Zipped)
