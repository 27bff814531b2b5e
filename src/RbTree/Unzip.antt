-- ===== src/RbTree/Unzip.antt =====
-- A subtree of the tree of library/try_alloc/src/collection/rbtree/map.rs and the whole.
use cos_rs.Base.{
  ℕ, ◌≡◌, refl, sym, ap, ◌∙◌, Bool, true, false, ◌&&◌, List, [], ◌∷◌, ◌++◌, append_assoc,
  append-nil,
}
use cos_rs.RbTree.{NodeColor}
use cos_rs.RbTree.Shape.{Tree, node, Context, at_root, in_left, in_right, zip, red_top}
use cos_rs.RbTree.Balance.{inorder, Balanced, Inside, Inside-in_left, Inside-in_right}

calm_root : (b : Bool) → b ≡ false → (b && true) ≡ false
calm_root true h = h
calm_root false h = refl

module _ {A : Type 0} where
  -- The place of a subtree in the list of the entries.
  pub inorder-zip :
      (up : Context A)
      → (b : List A) × (a : List A) × ((t : Tree A) → inorder (zip t up) ≡ b ++ (inorder t ++ a))
  inorder-zip at_root = ([], [], λ t. sym (append-nil (inorder t)))
  inorder-zip (in_left q c e r up) =
      let rest = inorder-zip up in
      (
        rest.0,
        (e ∷ inorder r) ++ rest.1,
        λ t.
            rest.2 (node q c e t r)
            ∙ ap (λ x. rest.0 ++ x) (append_assoc (inorder t) (e ∷ inorder r) rest.1),
      )
  inorder-zip (in_right q c e l up) =
      let rest = inorder-zip up in
      (
        rest.0 ++ (inorder l ++ (e ∷ [])),
        rest.1,
        λ t.
            rest.2 (node q c e l t)
            ∙ ap (λ x. rest.0 ++ x)
                (append_assoc (inorder l) (e ∷ inorder t) rest.1
                  ∙ sym (append_assoc (inorder l) (e ∷ []) (inorder t ++ rest.1)))
            ∙ sym (append_assoc rest.0 (inorder l ++ (e ∷ [])) (inorder t ++ rest.1)),
      )

  -- The color of the root does not depend on what is below it.
  same_root :
      (up : Context A) (q : ℕ) (c : NodeColor) (e : A) (l r x y : Tree A)
      → red_top (zip (node q c e x y) up) ≡ false
      → red_top (zip (node q c e l r) up) ≡ false
  same_root at_root q c e l r x y h = h
  same_root (in_left a d f s up) q c e l r x y h =
      same_root up a d f (node q c e l r) s (node q c e x y) s h
  same_root (in_right a d f s up) q c e l r x y h =
      same_root up a d f s (node q c e l r) s (node q c e x y) h

  pub root_calm :
      (up : Context A) (t s : Tree A)
      → red_top t ≡ false
      → red_top (zip s up) ≡ false
      → red_top (zip t up) ≡ false
  root_calm at_root t s calm h = calm
  root_calm (in_left q c e r up) t s calm h = same_root up q c e t r s r h
  root_calm (in_right q c e l up) t s calm h = same_root up q c e l t l s h

  -- A tree in its place obeys the rules, if the whole does.
  pub unzip :
      (up : Context A) (h : ℕ) (t : Tree A)
      → Balanced h (zip t up)
      → red_top (zip t up) ≡ false
      → Inside t up
  unzip at_root h t b calm = (h, b, tt, calm_root (red_top t) calm)
  unzip (in_left a c e r up) h t b calm =
      let (n, bt, bu, fits) = unzip up h (node a c e t r) b calm in
      Inside-in_left n a c e t r up bt bu fits
  unzip (in_right a c e l up) h t b calm =
      let (n, bt, bu, fits) = unzip up h (node a c e l t) b calm in
      Inside-in_right n a c e l t up bt bu fits
