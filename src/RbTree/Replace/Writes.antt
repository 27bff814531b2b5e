-- ===== src/RbTree/Replace/Writes.antt =====
-- What `replace` of library/try_alloc/src/collection/rbtree/map.rs writes.
use cos_rs.Base.{ℕ, ◌≡◌, ◌≢◌, ◌⊎◌, none, some, arith}
use cos_rs.RbTree.{NodeColor, RbTreeMap, copied, exchanged}
use cos_rs.RbTree.Shape.{At}

-- What the new node and the children are after the copy.
module _ {A : Type 0} (m : RbTreeMap A) (u v p l r : ℕ) (c : NodeColor) (e d : A)
    (at : At m u p l r c e) (value : (m.nodes v).value ≡ some d) (lv : l ≢ v) (rv : r ≢ v)
    (uv : u ≢ v) (lu : l ≢ u) (ru : r ≢ u) where
  pub copied-same : ((copied u v m).nil ≡ m.nil) × ((copied u v m).root ≡ m.root)
  unfolding copied
  copied-same = ground arith

  pub copied-new : At (copied u v m) v p l r c d
  unfolding copied
  copied-new = ground arith

  pub copied-other :
      (q : ℕ)
      → q ≢ v
      → (q ≢ l) ⊎ ((m.nodes l).value ≡ none)
      → (q ≢ r) ⊎ ((m.nodes r).value ≡ none)
      → (copied u v m).nodes q ≡ m.nodes q
  unfolding copied
  copied-other q qv ql qr = ground arith

  pub copied-left :
      (x y : ℕ) (color : NodeColor) (f : A)
      → l ≢ r
      → At m l u x y color f
      → At (copied u v m) l v x y color f
  unfolding copied
  copied-left x y color f lr h = ground arith

  pub copied-right :
      (x y : ℕ) (color : NodeColor) (f : A)
      → r ≢ l
      → At m r u x y color f
      → At (copied u v m) r v x y color f
  unfolding copied
  copied-right x y color f rl h = ground arith

module _ {A : Type 0} (m : RbTreeMap A) (u v p l r : ℕ) (c : NodeColor) (d : A)
    (at : At m v p l r c d) (pv : p ≢ v) (uv : u ≢ v) (pu : p ≢ u) where
  pub exchanged-nil : (exchanged u v m).nil ≡ m.nil
  unfolding exchanged
  exchanged-nil = ground arith

  pub exchanged-other :
      (q : ℕ) → q ≢ u → (q ≢ p) ⊎ ((m.nodes p).value ≡ none) → (exchanged u v m).nodes q ≡ m.nodes q
  unfolding exchanged
  exchanged-other q qu qp = ground arith

  pub exchanged-old : ((exchanged u v m).nodes u).value ≡ (m.nodes u).value
  unfolding exchanged
  exchanged-old = ground arith

  pub exchanged-root : (m.nodes p).value ≡ none → (exchanged u v m).root ≡ v
  unfolding exchanged
  exchanged-root h = ground arith

  pub exchanged-above_left :
      (g x : ℕ) (color : NodeColor) (f : A)
      → At m p g u x color f
      → At (exchanged u v m) p g v x color f × ((exchanged u v m).root ≡ m.root)
  unfolding exchanged
  exchanged-above_left g x color f h = ground arith

  pub exchanged-above_right :
      (g x : ℕ) (color : NodeColor) (f : A)
      → x ≢ u
      → At m p g x u color f
      → At (exchanged u v m) p g x v color f × ((exchanged u v m).root ≡ m.root)
  unfolding exchanged
  exchanged-above_right g x color f xu h = ground arith
