-- ===== src/RbTree/Shape.antt =====
-- The tree that the nodes of library/try_alloc/src/collection/rbtree/map.rs make, seen from one of
-- its subtrees.
use cos_rs.Base.{
  ℕ, ◌+◌, ◌≤◌, ◌<◌, ◌≡◌, ◌≢◌, ◌⊎◌, inl, inr, refl, sym, ◌∙◌, Bool, false, none, some, ◌==◌,
  if◌then◌else◌, arith,
}
use cos_rs.RbTree.{NodeColor, black, is_red, RbTreeMap}

-- A tree with the address, the color and the entry of each node.
pub data Tree (A : Type 0) : Type 0 where
  leaf : Tree A
  node : ℕ → NodeColor → A → Tree A → Tree A → Tree A

-- The way from a subtree up to the root: the parent is the left or the right child's, and has a
-- second child.
pub data Context (A : Type 0) : Type 0 where
  at_root : Context A
  in_left : ℕ → NodeColor → A → Tree A → Context A → Context A
  in_right : ℕ → NodeColor → A → Tree A → Context A → Context A

abbrev pub red_top : {A : Type 0} → Tree A → Bool
red_top leaf = false
red_top (node a c e l r) = is_red c

abbrev pub one_at : ℕ → ℕ → ℕ
one_at q a = if q == a then 1 else 0

pub one_at_self : (q : ℕ) → one_at q q ≡ 1
one_at_self q = ground arith

pub one_at-ne : (q a : ℕ) → one_at q a ≡ 0 → q ≢ a
one_at-ne q a h = ground arith

module _ {A : Type 0} where
  abbrev pub zip : Tree A → Context A → Tree A
  zip t at_root = t
  zip t (in_left a c e r up) = zip (node a c e t r) up
  zip t (in_right a c e l up) = zip (node a c e l t) up

  -- How often an address occurs.
  abbrev pub count : ℕ → Tree A → ℕ
  count q leaf = 0
  count q (node a c e l r) = one_at q a + count q l + count q r

  abbrev pub count_up : ℕ → Context A → ℕ
  count_up q at_root = 0
  count_up q (in_left a c e r up) = one_at q a + count q r + count_up q up
  count_up q (in_right a c e l up) = one_at q a + count q l + count_up q up

  abbrev pub top : ℕ → Tree A → ℕ
  top nil leaf = nil
  top nil (node a c e l r) = a

  abbrev pub parent_of : ℕ → Context A → ℕ
  parent_of nil at_root = nil
  parent_of nil (in_left a c e r up) = a
  parent_of nil (in_right a c e l up) = a

  abbrev pub At : RbTreeMap A → ℕ → ℕ → ℕ → ℕ → NodeColor → A → Type 0
  At m a parent left right color e =
      ((m.nodes a).parent ≡ parent)
      × ((m.nodes a).left ≡ left)
      × ((m.nodes a).right ≡ right)
      × ((m.nodes a).color ≡ color)
      × ((m.nodes a).value ≡ some e)

  abbrev pub Holds : RbTreeMap A → ℕ → Tree A → Type 0
  Holds m parent leaf = Unit {0}
  Holds m parent (node a c e l r) =
      (a ≢ m.nil) × At m a parent (top m.nil l) (top m.nil r) c e × Holds m a l × Holds m a r

  abbrev pub HoldsUp : RbTreeMap A → ℕ → Context A → Type 0
  HoldsUp m child at_root = m.root ≡ child
  HoldsUp m child (in_left a c e r up) =
      (a ≢ m.nil)
      × At m a (parent_of m.nil up) child (top m.nil r) c e
      × Holds m a r
      × HoldsUp m a up
  HoldsUp m child (in_right a c e l up) =
      (a ≢ m.nil)
      × At m a (parent_of m.nil up) (top m.nil l) child c e
      × Holds m a l
      × HoldsUp m a up

  -- The map is the subtree in its context; no address occurs twice.
  pub record Zipped (m : RbTreeMap A) (t : Tree A) (up : Context A) : Type 0 where
    pub nil_value : (m.nodes m.nil).value ≡ none
    pub nil_color : (m.nodes m.nil).color ≡ black
    pub below : Holds m (parent_of m.nil up) t
    pub above : HoldsUp m (top m.nil t) up
    pub once : (q : ℕ) → count q t + count_up q up ≤ 1

  pub nil_out : (m : RbTreeMap A) (parent : ℕ) (t : Tree A) → Holds m parent t → count m.nil t ≡ 0
  nil_out m parent leaf h = refl
  nil_out m parent (node a c e l r) h =
      let ne = h.0 in let hl = nil_out m a l h.2 in let hr = nil_out m a r h.3 in ground arith

  pub nil_out_up :
      (m : RbTreeMap A) (child : ℕ) (up : Context A) → HoldsUp m child up → count_up m.nil up ≡ 0
  nil_out_up m child at_root h = refl
  nil_out_up m child (in_left a c e r up) h =
      let ne = h.0 in let hr = nil_out m a r h.2 in let hu = nil_out_up m a up h.3 in ground arith
  nil_out_up m child (in_right a c e l up) h =
      let ne = h.0 in let hl = nil_out m a l h.2 in let hu = nil_out_up m a up h.3 in ground arith

  pub top-ne : (nil q : ℕ) (t : Tree A) → q ≢ nil → count q t ≡ 0 → top nil t ≢ q
  top-ne nil q leaf ne out = λ e. ne (sym e)
  top-ne nil q (node a c e l r) ne out = ground arith

  pub parent_of-ne :
      (nil q : ℕ) (up : Context A) → q ≢ nil → count_up q up ≡ 0 → parent_of nil up ≢ q
  parent_of-ne nil q at_root ne out = λ e. ne (sym e)
  parent_of-ne nil q (in_left a c e r up) ne out = ground arith
  parent_of-ne nil q (in_right a c e r up) ne out = ground arith

  -- Another map holds a tree whose nodes it shares.
  pub Holds-frame :
      (m k : RbTreeMap A) (parent : ℕ) (t : Tree A)
      → k.nil ≡ m.nil
      → ((q : ℕ) → 0 < count q t → k.nodes q ≡ m.nodes q)
      → Holds m parent t
      → Holds k parent t
  Holds-frame m k parent leaf en same h = tt
  Holds-frame m k parent (node a c e l r) en same (ne, at, hl, hr) =
      let here : k.nodes a ≡ m.nodes a = same a (ground arith) in
      (
        λ e. ne (e ∙ en),
        rw (here, en) at,
        Holds-frame m k a l en (λ q h. same q (omega arith)) hl,
        Holds-frame m k a r en (λ q h. same q (omega arith)) hr,
      )

  pub HoldsUp-frame :
      (m k : RbTreeMap A) (child : ℕ) (up : Context A)
      → k.nil ≡ m.nil
      → k.root ≡ m.root
      → ((q : ℕ) → 0 < count_up q up → k.nodes q ≡ m.nodes q)
      → HoldsUp m child up
      → HoldsUp k child up
  HoldsUp-frame m k child at_root en er same h = er ∙ h
  HoldsUp-frame m k child (in_left a c e r up) en er same (ne, at, hr, hu) =
      let here : k.nodes a ≡ m.nodes a = same a (ground arith) in
      (
        λ e. ne (e ∙ en),
        rw (here, en) at,
        Holds-frame m k a r en (λ q h. same q (omega arith)) hr,
        HoldsUp-frame m k a up en er (λ q h. same q (omega arith)) hu,
      )
  HoldsUp-frame m k child (in_right a c e r up) en er same (ne, at, hr, hu) =
      let here : k.nodes a ≡ m.nodes a = same a (ground arith) in
      (
        λ e. ne (e ∙ en),
        rw (here, en) at,
        Holds-frame m k a r en (λ q h. same q (omega arith)) hr,
        HoldsUp-frame m k a up en er (λ q h. same q (omega arith)) hu,
      )

  -- A node above a changed child, where what is beside and above it stays.
  pub HoldsUp-in_left :
      (m k : RbTreeMap A) (v a : ℕ) (c : NodeColor) (e : A) (r : Tree A) (up : Context A)
      → k.nil ≡ m.nil
      → k.root ≡ m.root
      → ((q : ℕ) → 0 < count q r + count_up q up → k.nodes q ≡ m.nodes q)
      → At k a (parent_of m.nil up) v (top m.nil r) c e
      → (a ≢ m.nil) × Holds m a r × HoldsUp m a up
      → HoldsUp k v (in_left a c e r up)
  HoldsUp-in_left m k v a c e r up en er far at (ne, hr, hu) = (
    λ f. ne (f ∙ en),
    rw en at,
    Holds-frame m k a r en (λ q i. far q (omega (arith, i))) hr,
    HoldsUp-frame m k a up en er (λ q i. far q (omega (arith, i))) hu,
  )

  pub HoldsUp-in_right :
      (m k : RbTreeMap A) (v a : ℕ) (c : NodeColor) (e : A) (r : Tree A) (up : Context A)
      → k.nil ≡ m.nil
      → k.root ≡ m.root
      → ((q : ℕ) → 0 < count q r + count_up q up → k.nodes q ≡ m.nodes q)
      → At k a (parent_of m.nil up) (top m.nil r) v c e
      → (a ≢ m.nil) × Holds m a r × HoldsUp m a up
      → HoldsUp k v (in_right a c e r up)
  HoldsUp-in_right m k v a c e r up en er far at (ne, hr, hu) = (
    λ f. ne (f ∙ en),
    rw en at,
    Holds-frame m k a r en (λ q i. far q (omega (arith, i))) hr,
    HoldsUp-frame m k a up en er (λ q i. far q (omega (arith, i))) hu,
  )

  pub away_top : (nil q : ℕ) (t : Tree A) → count q t ≡ 0 → (q ≢ top nil t) ⊎ (t ≡ leaf)
  away_top nil q leaf out = inr refl
  away_top nil q (node a c e l r) out = inl (ground arith)

  pub away_parent :
      (nil q : ℕ) (up : Context A) → count_up q up ≡ 0 → (q ≢ parent_of nil up) ⊎ (up ≡ at_root)
  away_parent nil q at_root out = inr refl
  away_parent nil q (in_left a c e r up) out = inl (ground arith)
  away_parent nil q (in_right a c e r up) out = inl (ground arith)
