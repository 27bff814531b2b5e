-- ===== src/RbTree/Balance.antt =====
-- The rules of a red-black tree, as library/try_alloc/src/collection/rbtree/map.rs lists them.
use cos_rs.Base.{
  ℕ, suc, ◌≡◌, refl, ap, subst, Bool, true, false, not, ◌&&◌, List, [], ◌∷◌, ◌++◌, arith,
}
use cos_rs.RbTree.{NodeColor, black, red, is_red}
use cos_rs.RbTree.Shape.{Tree, leaf, node, Context, at_root, in_left, in_right, zip, count, red_top}

and-false : (b : Bool) → (b && false) ≡ false
and-false true = refl
and-false false = refl

-- A black node allows any child, a red node has a black one above it.
step_black_false : (b : Bool) → (b && false) ≡ false
step_black_false true = refl
step_black_false false = refl

over_red : (b : Bool) → (true && not b) ≡ false → b ≡ true
over_red true h = refl
over_red false h = ground arith

module _ {A : Type 0} where
  -- The entries from left to right.
  abbrev pub inorder : Tree A → List A
  inorder leaf = []
  inorder (node a c e l r) = inorder l ++ (e ∷ inorder r)

  -- Two trees with the same entries in the same order, at the same addresses.
  abbrev pub Same : Tree A → Tree A → Type 0
  Same t s = (inorder t ≡ inorder s) × ((q : ℕ) → count q t ≡ count q s)

  pub Same-zip : (up : Context A) (t s : Tree A) → Same t s → Same (zip t up) (zip s up)
  Same-zip at_root t s h = h
  Same-zip (in_left a c e r up) t s (h, counts) =
      Same-zip up (node a c e t r) (node a c e s r)
        (ap (λ l. l ++ (e ∷ inorder r)) h, λ q. omega (arith, counts q))
  Same-zip (in_right a c e l up) t s (h, counts) =
      Same-zip up (node a c e l t) (node a c e l s)
        (ap (λ r. inorder l ++ (e ∷ r)) h, λ q. omega (arith, counts q))

  -- No red node has a red child, and on each way down are as many black nodes.
  abbrev pub Balanced : ℕ → Tree A → Type 0
  Balanced n leaf = n ≡ 0
  Balanced n (node a black e l r) = (k : ℕ) × (n ≡ suc k) × Balanced k l × Balanced k r
  Balanced n (node a red e l r) =
      (red_top l ≡ false) × (red_top r ≡ false) × Balanced n l × Balanced n r

  abbrev pub red_above : Context A → Bool
  red_above at_root = false
  red_above (in_left a c e r up) = is_red c
  red_above (in_right a c e l up) = is_red c

  abbrev pub black_above : Context A → Bool
  black_above at_root = false
  black_above (in_left a c e r up) = not (is_red c)
  black_above (in_right a c e l up) = not (is_red c)

  -- The same rules for what is around a subtree with a number of black nodes on each way down.
  abbrev pub BalancedUp : ℕ → Context A → Type 0
  BalancedUp n at_root = Unit {0}
  BalancedUp n (in_left a black e r up) = Balanced n r × BalancedUp (suc n) up
  BalancedUp n (in_left a red e r up) =
      (red_top r ≡ false) × Balanced n r × (black_above up ≡ true) × BalancedUp n up
  BalancedUp n (in_right a black e l up) = Balanced n l × BalancedUp (suc n) up
  BalancedUp n (in_right a red e l up) =
      (red_top l ≡ false) × Balanced n l × (black_above up ≡ true) × BalancedUp n up

  not_red : (up : Context A) → black_above up ≡ true → (b : Bool) → (red_above up && b) ≡ false
  not_red at_root h b = refl
  not_red (in_left a black e r up) h b = refl
  not_red (in_left a red e r up) h b = ground arith
  not_red (in_right a black e r up) h b = refl
  not_red (in_right a red e r up) h b = ground arith

  pub zip-Balanced :
      (up : Context A) (n : ℕ) (t : Tree A)
      → (red_above up && red_top t) ≡ false
      → Balanced n t
      → BalancedUp n up
      → (h : ℕ) × Balanced h (zip t up)
  zip-Balanced at_root n t fits b u = (n, b)
  zip-Balanced (in_left a black e r up) n t fits b (beside, u) =
      zip-Balanced up (suc n) (node a black e t r) (and-false (red_above up)) (n, refl, b, beside) u
  zip-Balanced (in_left a red e r up) n t fits b (calm, beside, over, u) =
      zip-Balanced up n (node a red e t r) (not_red up over true) (fits, calm, b, beside) u
  zip-Balanced (in_right a black e l up) n t fits b (beside, u) =
      zip-Balanced up (suc n) (node a black e l t) (and-false (red_above up)) (n, refl, beside, b) u
  zip-Balanced (in_right a red e l up) n t fits b (calm, beside, over, u) =
      zip-Balanced up n (node a red e l t) (not_red up over true) (calm, fits, beside, b) u

  abbrev pub RedBlack : Tree A → Type 0
  RedBlack t = (red_top t ≡ false) × (h : ℕ) × Balanced h t

  abbrev pub blacken : Tree A → Tree A
  blacken leaf = leaf
  blacken (node a c e l r) = node a black e l r

  pub blacken-RedBlack : (h : ℕ) (t : Tree A) → Balanced h t → RedBlack (blacken t)
  blacken-RedBlack h leaf b = (refl, h, b)
  blacken-RedBlack h (node a black e l r) b = (refl, h, b)
  blacken-RedBlack h (node a red e l r) (calm_l, calm_r, bl, br) = (refl, suc h, (h, refl, bl, br))

  pub Same-blacken : (t : Tree A) → Same (blacken t) t
  Same-blacken leaf = (refl, λ q. refl)
  Same-blacken (node a c e l r) = (refl, λ q. refl)

  -- A red tree has a black node above it.
  abbrev pub Fits : Tree A → Context A → Type 0
  Fits t up = (red_top t && not (black_above up)) ≡ false

  -- What the rules say around each child.
  abbrev pub Inside : Tree A → Context A → Type 0
  Inside t up = (k : ℕ) × Balanced k t × BalancedUp k up × Fits t up

  pub Inside-in_left :
      (n a : ℕ) (c : NodeColor) (e : A) (l r : Tree A) (up : Context A)
      → Balanced n (node a c e l r)
      → BalancedUp n up
      → Fits (node a c e l r) up
      → Inside l (in_left a c e r up)
  Inside-in_left n a black e l r up (k, same, bl, br) bu fits =
      (k, bl, (br, subst (λ h. BalancedUp h up) same bu), step_black_false (red_top l))
  Inside-in_left n a red e l r up (calm_l, calm_r, bl, br) bu fits =
      (n, bl, (calm_r, br, over_red (black_above up) fits, bu), ground arith)

  pub Inside-in_right :
      (n a : ℕ) (c : NodeColor) (e : A) (l r : Tree A) (up : Context A)
      → Balanced n (node a c e l r)
      → BalancedUp n up
      → Fits (node a c e l r) up
      → Inside r (in_right a c e l up)
  Inside-in_right n a black e l r up (k, same, bl, br) bu fits =
      (k, br, (bl, subst (λ h. BalancedUp h up) same bu), step_black_false (red_top r))
  Inside-in_right n a red e l r up (calm_l, calm_r, bl, br) bu fits =
      (n, br, (calm_l, bl, over_red (black_above up) fits, bu), ground arith)
