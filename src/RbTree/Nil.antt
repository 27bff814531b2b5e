-- ===== src/RbTree/Nil.antt =====
-- The NIL node of library/try_alloc/src/collection/rbtree/map.rs stays where it is.
use Prim.Native.Nat.{Ordering}
use cos_rs.Base.{ℕ, zero, suc, ◌≡◌, subst, Option, none, some, arith}
use cos_rs.RbTree.{
  Entry, RbTreeMap, Run, done, panicked, out_of_fuel, ◌>>=◌, turn_left, turn_right, rotate_left,
  rotate_right, raise_left, raise_right, fix_left, fix_right, fix_step, fix_rounds, insert_fixup,
  copied, exchanged, replace,
}
use cos_rs.RbTree.Ops.{locate, attach, put, insert}

module _ {A : Type 0} where
  abbrev pub KeepsNil : ℕ → Run (RbTreeMap A) → Type 0
  KeepsNil n (done k) = k.nil ≡ n
  KeepsNil n panicked = Unit {0}
  KeepsNil n out_of_fuel = Unit {0}

  abbrev KeepsNilAt : ℕ → Run (ℕ × RbTreeMap A) → Type 0
  KeepsNilAt n (done r) = r.1.nil ≡ n
  KeepsNilAt n panicked = Unit {0}
  KeepsNilAt n out_of_fuel = Unit {0}

  rotate_left-KeepsNil : (x : ℕ) (m : RbTreeMap A) → KeepsNil m.nil (rotate_left x m)
  unfolding rotate_left turn_left
  rotate_left-KeepsNil x m = ground arith

  rotate_right-KeepsNil : (x : ℕ) (m : RbTreeMap A) → KeepsNil m.nil (rotate_right x m)
  unfolding rotate_right turn_right
  rotate_right-KeepsNil x m = ground arith

  and_then :
      (n z : ℕ) (run : Run (RbTreeMap A)) → KeepsNil n run → KeepsNilAt n (run >>= λ k. done (z, k))
  and_then n z (done k) h = h
  and_then n z panicked h = h
  and_then n z out_of_fuel h = h

  after :
      (n : ℕ) (run : Run (RbTreeMap A)) (f : RbTreeMap A → Run (ℕ × RbTreeMap A))
      → KeepsNil n run
      → ((k : RbTreeMap A) → KeepsNilAt k.nil (f k))
      → KeepsNilAt n (run >>= f)
  after n (done k) f h g = subst (λ q. KeepsNilAt q (f k)) h (g k)
  after n panicked f h g = h
  after n out_of_fuel f h g = h

  raise_right-KeepsNil : (z : ℕ) (m : RbTreeMap A) → KeepsNilAt m.nil (raise_right z m)
  unfolding raise_right
  raise_right-KeepsNil z m = and_then m.nil z _ (rotate_right-KeepsNil _ _)

  raise_left-KeepsNil : (z : ℕ) (m : RbTreeMap A) → KeepsNilAt m.nil (raise_left z m)
  unfolding raise_left
  raise_left-KeepsNil z m = and_then m.nil z _ (rotate_left-KeepsNil _ _)

  fix_left-KeepsNil : (z : ℕ) (m : RbTreeMap A) → KeepsNilAt m.nil (fix_left z m)
  unfolding fix_left
  fix_left-KeepsNil z m =
      let p = (m.nodes z).parent in
      let inner =
        after m.nil (rotate_left p m) (raise_right p) (rotate_left-KeepsNil p m)
          (raise_right-KeepsNil p) in
      let outer = raise_right-KeepsNil z m in ground arith

  fix_right-KeepsNil : (z : ℕ) (m : RbTreeMap A) → KeepsNilAt m.nil (fix_right z m)
  unfolding fix_right
  fix_right-KeepsNil z m =
      let p = (m.nodes z).parent in
      let inner =
        after m.nil (rotate_right p m) (raise_left p) (rotate_right-KeepsNil p m)
          (raise_left-KeepsNil p) in
      let outer = raise_left-KeepsNil z m in ground arith

  fix_step-KeepsNil : (z : ℕ) (m : RbTreeMap A) → KeepsNilAt m.nil (fix_step z m)
  unfolding fix_step
  fix_step-KeepsNil z m =
      let a = fix_left-KeepsNil z m in let b = fix_right-KeepsNil z m in ground arith

  then_rounds :
      (n fuel : ℕ) (run : Run (ℕ × RbTreeMap A))
      → KeepsNilAt n run
      → ((z : ℕ) (m : RbTreeMap A) → KeepsNil m.nil (fix_rounds fuel z m))
      → KeepsNil n (run >>= λ r. fix_rounds fuel r.0 r.1)
  then_rounds n fuel (done r) h g = subst (λ q. KeepsNil q (fix_rounds fuel r.0 r.1)) h (g r.0 r.1)
  then_rounds n fuel panicked h g = h
  then_rounds n fuel out_of_fuel h g = h

  fix_rounds-KeepsNil : (fuel z : ℕ) (m : RbTreeMap A) → KeepsNil m.nil (fix_rounds fuel z m)
  unfolding fix_rounds
  fix_rounds-KeepsNil zero z m = tt
  fix_rounds-KeepsNil (suc fuel) z m =
      let rest =
        then_rounds m.nil fuel (fix_step z m) (fix_step-KeepsNil z m) (fix_rounds-KeepsNil fuel) in
      ground arith

  exchanged_nil : (u v : ℕ) (k : RbTreeMap A) → (exchanged u v k).nil ≡ k.nil
  unfolding exchanged
  exchanged_nil u v k = ground arith

  copied_nil : (u v : ℕ) (m : RbTreeMap A) → (copied u v m).nil ≡ m.nil
  unfolding copied
  copied_nil u v m = ground arith

  replace-KeepsNil : (u v : ℕ) (m : RbTreeMap A) → KeepsNil m.nil (replace u v m)
  unfolding replace
  replace-KeepsNil u v m =
      let a = exchanged_nil u v (copied u v m) in let b = copied_nil u v m in ground arith

module _ {K V : Type 0} (cmp : K → K → Ordering) where
  abbrev KeepsNilIn : ℕ → Run (Option ℕ × RbTreeMap (Entry K V)) → Type 0
  KeepsNilIn n (done r) = r.1.nil ≡ n
  KeepsNilIn n panicked = Unit {0}
  KeepsNilIn n out_of_fuel = Unit {0}

  with_old :
      (n : ℕ) (o : Option ℕ) (run : Run (RbTreeMap (Entry K V)))
      → KeepsNil n run
      → KeepsNilIn n (run >>= λ k. done (o, k))
  with_old n o (done k) h = h
  with_old n o panicked h = h
  with_old n o out_of_fuel h = h

  attach_nil : (y z : ℕ) (key : K) (m : RbTreeMap (Entry K V)) → (attach cmp y z key m).nil ≡ m.nil
  unfolding attach
  attach_nil y z key m = ground arith

  fixup_nil : (fuel z : ℕ) (m : RbTreeMap (Entry K V)) → KeepsNil m.nil (insert_fixup fuel z m)
  unfolding insert_fixup
  fixup_nil fuel z m = let h = fix_rounds-KeepsNil fuel z m in ground arith

  put_nil :
      (fuel z : ℕ) (key : K) (m : RbTreeMap (Entry K V)) (r : ℕ × Option ℕ)
      → KeepsNilIn m.nil (put cmp fuel z key m r)
  put_nil fuel z key m (y, none) = with_old m.nil none _ (
      subst (λ q. KeepsNil q (insert_fixup fuel z (attach cmp y z key m))) (attach_nil y z key m)
        (fixup_nil fuel z (attach cmp y z key m)))
  put_nil fuel z key m (y, some x) = with_old m.nil (some x) _ (replace-KeepsNil x z m)

  located :
      (fuel z : ℕ) (key : K) (m : RbTreeMap (Entry K V)) (run : Run (ℕ × Option ℕ))
      → KeepsNilIn m.nil (run >>= put cmp fuel z key m)
  located fuel z key m (done r) = put_nil fuel z key m r
  located fuel z key m panicked = tt
  located fuel z key m out_of_fuel = tt

  on_value :
      (fuel z : ℕ) (m : RbTreeMap (Entry K V)) (o : Option (Entry K V))
      → KeepsNilIn m.nil (elim o [
        | none ↦ panicked
        | some e ↦ locate cmp fuel m.nil m.root e.key m >>= put cmp fuel z e.key m
      ])
  on_value fuel z m none = tt
  on_value fuel z m (some e) = located fuel z e.key m (locate cmp fuel m.nil m.root e.key m)

  insert-KeepsNilIn :
      (fuel z : ℕ) (m : RbTreeMap (Entry K V)) → KeepsNilIn m.nil (insert cmp fuel z m)
  unfolding insert
  insert-KeepsNilIn fuel z m = on_value fuel z m (m.nodes z).value

  pub insert-nil :
      (fuel z : ℕ) (m k : RbTreeMap (Entry K V)) (old : Option ℕ)
      → insert cmp fuel z m ≡ done (old, k)
      → k.nil ≡ m.nil
  insert-nil fuel z m k old h = subst (KeepsNilIn m.nil) h (insert-KeepsNilIn fuel z m)
