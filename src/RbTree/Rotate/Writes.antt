-- ===== src/RbTree/Rotate/Writes.antt =====
-- What the left rotation of library/try_alloc/src/collection/rbtree/map.rs writes.
use cos_rs.Base.{ℕ, ◌≡◌, ◌≢◌, ◌⊎◌, none, arith}
use cos_rs.RbTree.{NodeColor, RbTreeMap, turn_left}
use cos_rs.RbTree.Shape.{At}

-- What a left rotation writes.
module _ {A : Type 0} (m : RbTreeMap A) (x y p a b c : ℕ) (cx cy : NodeColor) (ex ey : A)
    (hx : At m x p a y cx ex) (hy : At m y x b c cy ey) (xy : x ≢ y) (by : b ≢ y) (bx : b ≢ x)
    (px : p ≢ x) (py : p ≢ y) where
  pub turn_left-nil : (turn_left x m).nil ≡ m.nil
  unfolding turn_left
  turn_left-nil = ground arith

  pub turn_left-x : At (turn_left x m) x y a b cx ex
  unfolding turn_left
  turn_left-x = ground arith

  pub turn_left-y : At (turn_left x m) y p x c cy ey
  unfolding turn_left
  turn_left-y = ground arith

  pub turn_left-other :
      (q : ℕ)
      → q ≢ x
      → q ≢ y
      → (q ≢ b) ⊎ ((m.nodes b).value ≡ none)
      → (q ≢ p) ⊎ ((m.nodes p).value ≡ none)
      → (turn_left x m).nodes q ≡ m.nodes q
  unfolding turn_left
  turn_left-other q qx qy qb qp = ground arith

  pub turn_left-middle :
      (l r : ℕ) (color : NodeColor) (e : A)
      → b ≢ p
      → At m b y l r color e
      → At (turn_left x m) b x l r color e
  unfolding turn_left
  turn_left-middle l r color e bp h = ground arith

  pub turn_left-root : (m.nodes p).value ≡ none → (turn_left x m).root ≡ y
  unfolding turn_left
  turn_left-root none_there = ground arith

  pub turn_left-above_left :
      (up r : ℕ) (color : NodeColor) (e : A)
      → b ≢ p
      → At m p up x r color e
      → At (turn_left x m) p up y r color e × ((turn_left x m).root ≡ m.root)
  unfolding turn_left
  turn_left-above_left up r color e bp h = ground arith

  pub turn_left-above_right :
      (up l : ℕ) (color : NodeColor) (e : A)
      → b ≢ p
      → l ≢ x
      → At m p up l x color e
      → At (turn_left x m) p up l y color e × ((turn_left x m).root ≡ m.root)
  unfolding turn_left
  turn_left-above_right up l color e bp lx h = ground arith
