-- ===== src/RbTree/Attach.antt =====
-- A new leaf in the tree of library/try_alloc/src/collection/rbtree/map.rs.
use Prim.Native.Nat.{Ordering}
use cos_rs.Base.{
  ℕ, ◌+◌, ◌≤◌, ◌<◌, ◌≡◌, ◌≢◌, sym, ap, ◌∙◌, none, some, Bool-cases, inl, inr, ◌==◌, arith,
}
use cos_rs.RbTree.{NodeColor, red, Entry, RbTreeMap}
use cos_rs.RbTree.Shape.{
  leaf, node, Context, at_root, in_left, in_right, count, count_up, one_at, top, parent_of, At,
  Zipped, one_at_self, one_at-ne, HoldsUp-in_left, HoldsUp-in_right,
}
use cos_rs.RbTree.Ops.{attach}

-- Where an address is new, each old one is another.
pub old-ne : (f : ℕ → ℕ) (q z : ℕ) → f z ≡ 0 → 0 < f q → q ≢ z
old-ne f q z new old e = absurd (omega (arith, ap f e))

pub add_new : (f : ℕ → ℕ) (q z : ℕ) → f z ≡ 0 → f q ≤ 1 → one_at q z + f q ≤ 1
add_new f q z new once = elim (Bool-cases (q == z)) [
  | inl e ↦
      let same : q ≡ z = ground arith in
      omega (arith, ap f same, ap (λ v. one_at v z) same, one_at_self z)
  | inr e ↦ let none_at : one_at q z ≡ 0 = ground arith in omega arith
]

module _ {K V : Type 0} (cmp : K → K → Ordering) where
  -- The key belongs at the place that a context leaves.
  abbrev pub Belongs : K → Context (Entry K V) → Type 0
  Belongs key at_root = Unit {0}
  Belongs key (in_left a c e r up) = cmp key e.key ≡ Ordering.lt
  Belongs key (in_right a c e l up) = cmp key e.key ≡ Ordering.gt

  module _ (m : RbTreeMap (Entry K V)) (z : ℕ) (e : Entry K V) (nz : z ≢ m.nil)
      (value : (m.nodes z).value ≡ some e) (y : ℕ) where
    abbrev k : RbTreeMap (Entry K V)
    k = attach cmp y z e.key m

    attach-nil : (attach cmp y z e.key m).nil ≡ m.nil
    unfolding attach
    attach-nil = ground arith

    attach-other : (q : ℕ) → q ≢ z → q ≢ y → (attach cmp y z e.key m).nodes q ≡ m.nodes q
    unfolding attach
    attach-other q qz qy = ground arith

    attach-new : y ≢ z → At (attach cmp y z e.key m) z y m.nil m.nil red e
    unfolding attach
    attach-new yz = ground arith

    attach-root : y ≢ z → (m.nodes y).value ≡ none → (attach cmp y z e.key m).root ≡ z
    unfolding attach
    attach-root yz h = ground arith

    attach-untouched :
        (q : ℕ)
        → q ≢ z
        → y ≢ z
        → (m.nodes y).value ≡ none
        → (attach cmp y z e.key m).nodes q ≡ m.nodes q
    unfolding attach
    attach-untouched q qz yz h = ground arith

    attach-left :
        (p child sibling : ℕ) (c : NodeColor) (d : Entry K V)
        → y ≢ z
        → cmp e.key d.key ≡ Ordering.lt
        → At m y p child sibling c d
        → At (attach cmp y z e.key m) y p z sibling c d × ((attach cmp y z e.key m).root ≡ m.root)
    unfolding attach
    attach-left p child sibling c d yz less h = ground arith

    attach-right :
        (p child sibling : ℕ) (c : NodeColor) (d : Entry K V)
        → y ≢ z
        → cmp e.key d.key ≡ Ordering.gt
        → At m y p sibling child c d
        → At (attach cmp y z e.key m) y p sibling z c d × ((attach cmp y z e.key m).root ≡ m.root)
    unfolding attach
    attach-right p child sibling c d yz more h = ground arith

  pub attach-Zipped :
      (m : RbTreeMap (Entry K V)) (z : ℕ) (e : Entry K V) (up : Context (Entry K V))
      → z ≢ m.nil
      → (m.nodes z).value ≡ some e
      → count_up z up ≡ 0
      → Belongs e.key up
      → Zipped m leaf up
      → Zipped (attach cmp (parent_of m.nil up) z e.key m) (node z red e leaf leaf) up
  attach-Zipped m z e at_root nz value new place h =
      let k = attach cmp m.nil z e.key m in
      let en = attach-nil m z e nz value m.nil in
      let stays : k.nodes k.nil ≡ m.nodes m.nil =
        ap k.nodes en
        ∙ attach-untouched m z e nz value m.nil m.nil (λ f. nz (sym f)) (λ f. nz (sym f))
            h.nil_value in
      record {
        nil_value = ap (λ n. n.value) stays ∙ h.nil_value;
        nil_color = ap (λ n. n.color) stays ∙ h.nil_color;
        below = rw en (nz, attach-new m z e nz value m.nil (λ f. nz (sym f)), tt, tt);
        above = attach-root m z e nz value m.nil (λ f. nz (sym f)) h.nil_value;
        once = λ q. ground arith;
      }
  attach-Zipped m z e (in_left a c d r up) nz value new place h =
      let k = attach cmp a z e.key m in
      let en = attach-nil m z e nz value a in
      let az : a ≢ z = λ f. one_at-ne z a (omega (arith, new)) (sym f) in
      let moved =
        attach-left m z e nz value a (parent_of m.nil up) m.nil (top m.nil r) c d az place
          h.above.1 in
      let other : (q : ℕ) → 0 < count q r + count_up q up → k.nodes q ≡ m.nodes q = λ q in_rest.
        attach-other m z e nz value a q
          (old-ne (λ v. one_at v a + count v r + count_up v up) q z new (omega (arith, in_rest)))
          (one_at-ne q a (omega (arith, in_rest, h.once q))) in
      let stays : k.nodes k.nil ≡ m.nodes m.nil =
        ap k.nodes en
        ∙ attach-other m z e nz value a m.nil (λ f. nz (sym f)) (λ f. h.above.0 (sym f)) in
      record {
        nil_value = ap (λ n. n.value) stays ∙ h.nil_value;
        nil_color = ap (λ n. n.color) stays ∙ h.nil_color;
        below = rw en (nz, attach-new m z e nz value a az, tt, tt);
        above =
            HoldsUp-in_left m k z a c d r up en moved.1 other moved.0
              (h.above.0, h.above.2, h.above.3);
        once = λ q. omega (
          arith,
          add_new (λ v. one_at v a + count v r + count_up v up) q z new (omega (arith, h.once q)),
        );
      }
  attach-Zipped m z e (in_right a c d r up) nz value new place h =
      let k = attach cmp a z e.key m in
      let en = attach-nil m z e nz value a in
      let az : a ≢ z = λ f. one_at-ne z a (omega (arith, new)) (sym f) in
      let moved =
        attach-right m z e nz value a (parent_of m.nil up) m.nil (top m.nil r) c d az place
          h.above.1 in
      let other : (q : ℕ) → 0 < count q r + count_up q up → k.nodes q ≡ m.nodes q = λ q in_rest.
        attach-other m z e nz value a q
          (old-ne (λ v. one_at v a + count v r + count_up v up) q z new (omega (arith, in_rest)))
          (one_at-ne q a (omega (arith, in_rest, h.once q))) in
      let stays : k.nodes k.nil ≡ m.nodes m.nil =
        ap k.nodes en
        ∙ attach-other m z e nz value a m.nil (λ f. nz (sym f)) (λ f. h.above.0 (sym f)) in
      record {
        nil_value = ap (λ n. n.value) stays ∙ h.nil_value;
        nil_color = ap (λ n. n.color) stays ∙ h.nil_color;
        below = rw en (nz, attach-new m z e nz value a az, tt, tt);
        above =
            HoldsUp-in_right m k z a c d r up en moved.1 other moved.0
              (h.above.0, h.above.2, h.above.3);
        once = λ q. omega (
          arith,
          add_new (λ v. one_at v a + count v r + count_up v up) q z new (omega (arith, h.once q)),
        );
      }
