-- ===== src/RbTree/Rounds.antt =====
-- `insert_fixup` of library/try_alloc/src/collection/rbtree/map.rs restores the rules, for a new red
-- node anywhere in a tree.
use cos_rs.Base.{◌≡◌, false, ℕ, zero, suc, ◌<◌, refl, ap, ◌∙◌, arith}
use cos_rs.RbTree.{black, red, RbTreeMap, is_red, fix_rounds}
use cos_rs.RbTree.Shape.{
  Tree, leaf, node, Context, at_root, in_left, in_right, zip, Zipped, red_top,
}
use cos_rs.RbTree.Moves.{up_left, up_right}
use cos_rs.RbTree.Step.{recolor_left, recolor_right}
use cos_rs.RbTree.Balance.{Same-zip, Balanced, BalancedUp}
use cos_rs.RbTree.Loop.{
  depth, Restored, finish, Restored-step, fix_rounds-step, end_outer_left, end_inner_left,
  end_outer_right, end_inner_right,
}

module _ {A : Type 0} where
  -- What the loop does for a red node in a context.
  abbrev Fixes : ℕ → Context A → Type 0
  Fixes fuel up =
      (z : ℕ) (m : RbTreeMap A) (n : ℕ) (ez : A) (a b : Tree A)
      → depth up < fuel
      → Zipped m (node z red ez a b) up
      → Balanced n (node z red ez a b)
      → BalancedUp n up
      → Restored (fix_rounds fuel z m) (zip (node z red ez a b) up)

  -- A round below a red parent: a red uncle moves the red node up, another ends the loop.
  module _ (fuel z p g : ℕ) (m : RbTreeMap A) (n : ℕ) (ez ep eg : A) (a b s : Tree A)
      (up : Context A) (again : Fixes (suc fuel) up) (few : depth up < suc fuel)
      (bz : Balanced n (node z red ez a b)) (bs : Balanced n s) (calm_s : red_top s ≡ false)
      (above : BalancedUp (suc n) up) where
    round_outer_left :
        (u : Tree A)
        → Balanced n u
        → Zipped m (node z red ez a b) (in_left p red ep s (in_left g black eg u up))
        → Restored
            (fix_rounds (suc (suc fuel)) z m)
            (zip (node z red ez a b) (in_left p red ep s (in_left g black eg u up)))
    round_outer_left leaf bu h =
        end_outer_left fuel z p g m n ez ep eg a b s leaf up refl bz bs calm_s bu above h
    round_outer_left (node y black ey yl yr) bu h =
        end_outer_left fuel z p g m n ez ep eg a b s (node y black ey yl yr) up refl bz bs calm_s bu
          above h
    round_outer_left (node y red ey yl yr) (cyl, cyr, byl, byr) h =
        let r = recolor_left z h.below.1.0 (up_left h) in
        Restored-step _ (fix_rounds (suc fuel) g r.0) _ _
          (fix_rounds-step (suc fuel) z g m r.0
            (ap (λ q. is_red (m.nodes q).color) h.below.1.0 ∙ ap is_red h.above.1.3) r.1)
          (Same-zip up _ _ (refl, λ q. omega arith))
          (again g r.0 (suc n) eg _ _ few r.2 (refl, refl, (n, refl, bz, bs), (n, refl, byl, byr))
            above)

    round_inner_right :
        (u : Tree A)
        → Balanced n u
        → Zipped m (node z red ez a b) (in_left p red ep s (in_right g black eg u up))
        → Restored
            (fix_rounds (suc (suc fuel)) z m)
            (zip (node z red ez a b) (in_left p red ep s (in_right g black eg u up)))
    round_inner_right leaf bu h =
        end_inner_right fuel z p g m n ez ep eg a b s leaf up refl bz bs calm_s bu above h
    round_inner_right (node y black ey yl yr) bu h =
        end_inner_right fuel z p g m n ez ep eg a b s (node y black ey yl yr) up refl bz bs calm_s
          bu above h
    round_inner_right (node y red ey yl yr) (cyl, cyr, byl, byr) h =
        let r = recolor_right z h.below.1.0 (up_left h) in
        Restored-step _ (fix_rounds (suc fuel) g r.0) _ _
          (fix_rounds-step (suc fuel) z g m r.0
            (ap (λ q. is_red (m.nodes q).color) h.below.1.0 ∙ ap is_red h.above.1.3) r.1)
          (Same-zip up _ _ (refl, λ q. omega arith))
          (again g r.0 (suc n) eg _ _ few r.2 (refl, refl, (n, refl, byl, byr), (n, refl, bz, bs))
            above)

    round_inner_left :
        (u : Tree A)
        → Balanced n u
        → Zipped m (node z red ez a b) (in_right p red ep s (in_left g black eg u up))
        → Restored
            (fix_rounds (suc (suc fuel)) z m)
            (zip (node z red ez a b) (in_right p red ep s (in_left g black eg u up)))
    round_inner_left leaf bu h =
        end_inner_left fuel z p g m n ez ep eg a b s leaf up refl bz bs calm_s bu above h
    round_inner_left (node y black ey yl yr) bu h =
        end_inner_left fuel z p g m n ez ep eg a b s (node y black ey yl yr) up refl bz bs calm_s bu
          above h
    round_inner_left (node y red ey yl yr) (cyl, cyr, byl, byr) h =
        let r = recolor_left z h.below.1.0 (up_right h) in
        Restored-step _ (fix_rounds (suc fuel) g r.0) _ _
          (fix_rounds-step (suc fuel) z g m r.0
            (ap (λ q. is_red (m.nodes q).color) h.below.1.0 ∙ ap is_red h.above.1.3) r.1)
          (Same-zip up _ _ (refl, λ q. omega arith))
          (again g r.0 (suc n) eg _ _ few r.2 (refl, refl, (n, refl, bs, bz), (n, refl, byl, byr))
            above)

    round_outer_right :
        (u : Tree A)
        → Balanced n u
        → Zipped m (node z red ez a b) (in_right p red ep s (in_right g black eg u up))
        → Restored
            (fix_rounds (suc (suc fuel)) z m)
            (zip (node z red ez a b) (in_right p red ep s (in_right g black eg u up)))
    round_outer_right leaf bu h =
        end_outer_right fuel z p g m n ez ep eg a b s leaf up refl bz bs calm_s bu above h
    round_outer_right (node y black ey yl yr) bu h =
        end_outer_right fuel z p g m n ez ep eg a b s (node y black ey yl yr) up refl bz bs calm_s
          bu above h
    round_outer_right (node y red ey yl yr) (cyl, cyr, byl, byr) h =
        let r = recolor_right z h.below.1.0 (up_right h) in
        Restored-step _ (fix_rounds (suc fuel) g r.0) _ _
          (fix_rounds-step (suc fuel) z g m r.0
            (ap (λ q. is_red (m.nodes q).color) h.below.1.0 ∙ ap is_red h.above.1.3) r.1)
          (Same-zip up _ _ (refl, λ q. omega arith))
          (again g r.0 (suc n) eg _ _ few r.2 (refl, refl, (n, refl, byl, byr), (n, refl, bs, bz))
            above)

  pub fix_rounds-Restored : (fuel : ℕ) (up : Context A) → Fixes fuel up
  fix_rounds-Restored zero up z m n ez a b few h bz bu = absurd (omega arith)
  fix_rounds-Restored (suc fuel) at_root z m n ez a b few h bz bu =
      finish fuel z m n (node z red ez a b) at_root
        (ap (λ q. is_red (m.nodes q).color) h.below.1.0 ∙ ap is_red h.nil_color) refl h.below.0 bz
        bu h
  fix_rounds-Restored (suc fuel) (in_left p black ep s up) z m n ez a b few h bz bu =
      finish fuel z m n (node z red ez a b) (in_left p black ep s up)
        (ap (λ q. is_red (m.nodes q).color) h.below.1.0 ∙ ap is_red h.above.1.3) refl h.below.0 bz
        bu h
  fix_rounds-Restored (suc zero) (in_left p red ep s up) z m n ez a b few h bz bu =
      absurd (omega arith)
  fix_rounds-Restored (suc (suc fuel)) (in_left p red ep s at_root) z m n ez a b few h bz
        (cs, bs, over, u) =
      ground arith
  fix_rounds-Restored (suc (suc fuel)) (in_left p red ep s (in_left g red eg u up)) z m n ez a b few
        h bz (cs, bs, over, rest) =
      ground arith
  fix_rounds-Restored (suc (suc fuel)) (in_left p red ep s (in_left g black eg u up)) z m n ez a b
        few h bz (cs, bs, over, (bu, rest)) =
      round_outer_left fuel z p g m n ez ep eg a b s up (fix_rounds-Restored (suc fuel) up)
        (omega arith) bz bs cs rest u bu h
  fix_rounds-Restored (suc (suc fuel)) (in_left p red ep s (in_right g red eg u up)) z m n ez a b
        few h bz (cs, bs, over, rest) =
      ground arith
  fix_rounds-Restored (suc (suc fuel)) (in_left p red ep s (in_right g black eg u up)) z m n ez a b
        few h bz (cs, bs, over, (bu, rest)) =
      round_inner_right fuel z p g m n ez ep eg a b s up (fix_rounds-Restored (suc fuel) up)
        (omega arith) bz bs cs rest u bu h
  fix_rounds-Restored (suc fuel) (in_right p black ep s up) z m n ez a b few h bz bu =
      finish fuel z m n (node z red ez a b) (in_right p black ep s up)
        (ap (λ q. is_red (m.nodes q).color) h.below.1.0 ∙ ap is_red h.above.1.3) refl h.below.0 bz
        bu h
  fix_rounds-Restored (suc zero) (in_right p red ep s up) z m n ez a b few h bz bu =
      absurd (omega arith)
  fix_rounds-Restored (suc (suc fuel)) (in_right p red ep s at_root) z m n ez a b few h bz
        (cs, bs, over, u) =
      ground arith
  fix_rounds-Restored (suc (suc fuel)) (in_right p red ep s (in_left g red eg u up)) z m n ez a b
        few h bz (cs, bs, over, rest) =
      ground arith
  fix_rounds-Restored (suc (suc fuel)) (in_right p red ep s (in_left g black eg u up)) z m n ez a b
        few h bz (cs, bs, over, (bu, rest)) =
      round_inner_left fuel z p g m n ez ep eg a b s up (fix_rounds-Restored (suc fuel) up)
        (omega arith) bz bs cs rest u bu h
  fix_rounds-Restored (suc (suc fuel)) (in_right p red ep s (in_right g red eg u up)) z m n ez a b
        few h bz (cs, bs, over, rest) =
      ground arith
  fix_rounds-Restored (suc (suc fuel)) (in_right p red ep s (in_right g black eg u up)) z m n ez a b
        few h bz (cs, bs, over, (bu, rest)) =
      round_outer_right fuel z p g m n ez ep eg a b s up (fix_rounds-Restored (suc fuel) up)
        (omega arith) bz bs cs rest u bu h
