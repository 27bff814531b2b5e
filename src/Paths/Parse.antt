-- ===== src/Paths/Parse.antt =====
-- `from_bytes` of library/filesystem/src/path/mod.rs against the printed form of a path.
use cos_rs.Base.{
  ℕ, ◌≡◌, ◌≢◌, refl, sym, ap, ap₂, ◌∙◌, Bool, true, false, Option, none, some, List, [], ◌∷◌, ◌++◌,
  All, ◌==◌, Bool-cases, Option-cases, inl, inr, arith, append-nil,
}
use cos_rs.Paths.{PathBuf, parsed, delimiter, split, is_empty, collect, to_result, from_bytes, join}

-- A segment: some bytes other than the delimiter that are a string.
abbrev pub IsSegment : (List ℕ → Bool) → List ℕ → Type 0
IsSegment is_utf8 s = (is_empty s ≡ false) × (is_utf8 s ≡ true) × All (λ b. b ≢ delimiter) s

-- Each segment with a delimiter before it.
abbrev pub print : List (List ℕ) → List ℕ
print [] = []
print (s ∷ segments) = delimiter ∷ (s ++ print segments)

split-append :
    (s bytes : List ℕ)
    → All (λ b. b ≢ delimiter) s
    → split (s ++ bytes) ≡ (s ++ (split bytes).0, (split bytes).1)
unfolding split
split-append [] bytes h = refl
split-append (b ∷ s) bytes h = ground (arith, split-append s bytes h.1)

split-print :
    (is_utf8 : List ℕ → Bool) (segments : List (List ℕ))
    → All (IsSegment is_utf8) segments
    → split (print segments) ≡ ([], segments)
unfolding split
split-print is_utf8 [] h = refl
split-print is_utf8 (s ∷ segments) h =
    let e : split (s ++ print segments) ≡ (s, segments) =
      split-append s (print segments) h.0.2
      ∙ ap (λ (r : List ℕ × List (List ℕ)). (s ++ r.0, r.1)) (split-print is_utf8 segments h.1)
      ∙ ap (λ (x : List ℕ). (x, segments)) (append-nil s) in
    ap (λ (r : List ℕ × List (List ℕ)). ([], r.0 ∷ r.1)) e

collect_all :
    (is_utf8 : List ℕ → Bool) (segments : List (List ℕ))
    → All (IsSegment is_utf8) segments
    → collect is_utf8 segments ≡ some segments
unfolding collect
collect_all is_utf8 [] h = refl
collect_all is_utf8 (s ∷ segments) h = rw (h.0.0, h.0.1, collect_all is_utf8 segments h.1) refl

-- Parsing the printed form of a list of segments, each some bytes without a delimiter that are a
-- string, gives the path of these segments.
pub from_bytes-print :
    (is_utf8 : List ℕ → Bool) (segments : List (List ℕ))
    → All (IsSegment is_utf8) segments
    → from_bytes is_utf8 (print segments) ≡ parsed (record { segments = segments })
unfolding from_bytes
from_bytes-print is_utf8 [] h = refl
from_bytes-print is_utf8 (s ∷ segments) h =
    rw (split-print is_utf8 (s ∷ segments) h)
      (unfold collect in ap to_result (collect_all is_utf8 (s ∷ segments) h))

abbrev pieces : List ℕ → List (List ℕ)
pieces bytes = (split bytes).0 ∷ (split bytes).1

abbrev cons_head : ℕ → List (List ℕ) → List (List ℕ)
cons_head b [] = []
cons_head b (s ∷ segments) = (b ∷ s) ∷ segments

pieces-append : (x y : List ℕ) → pieces (x ++ (delimiter ∷ y)) ≡ pieces x ++ pieces y
unfolding split
pieces-append [] y = refl
pieces-append (b ∷ x) y = elim (Bool-cases (b == delimiter)) [
  | inl e ↦ rw e (ap (◌∷◌ []) (pieces-append x y))
  | inr e ↦ rw e (ap (cons_head b) (pieces-append x y))
]

-- The two results of `collect`, one behind the other.
abbrev both : Option (List (List ℕ)) → Option (List (List ℕ)) → Option (List (List ℕ))
both none q = none
both (some x) none = none
both (some x) (some y) = some (x ++ y)

abbrev push : List ℕ → Option (List (List ℕ)) → Option (List (List ℕ))
push s o = elim o [ none ↦ none | some segments ↦ some (s ∷ segments) ]

push-both : (s : List ℕ) (x y : Option (List (List ℕ))) → push s (both x y) ≡ both (push s x) y
push-both s none y = refl
push-both s (some x) none = refl
push-both s (some x) (some y) = refl

collect-append :
    (is_utf8 : List ℕ → Bool) (x y : List (List ℕ))
    → collect is_utf8 (x ++ y) ≡ both (collect is_utf8 x) (collect is_utf8 y)
unfolding collect
collect-append is_utf8 [] y = elim (Option-cases (collect is_utf8 y)) [
  | inl e ↦ rw e refl
  | inr (s, e) ↦ rw e refl
]
collect-append is_utf8 (s ∷ x) y =
    let ih = collect-append is_utf8 x y in
    elim (Bool-cases (is_empty s)) [
      | inl e ↦ rw e ih
      | inr e ↦ elim (Bool-cases (is_utf8 s)) [
        | inr u ↦ rw (e, u) refl
        | inl u ↦ rw (e, u, ih) (push-both s (collect is_utf8 x) (collect is_utf8 y))
      ]
    ]

from_bytes-pieces :
    (is_utf8 : List ℕ → Bool) (bytes : List ℕ)
    → from_bytes is_utf8 bytes ≡ to_result (collect is_utf8 (pieces bytes))
unfolding from_bytes collect split
from_bytes-pieces is_utf8 [] = refl
from_bytes-pieces is_utf8 (b ∷ bytes) = refl

parsed-some :
    (o : Option (List (List ℕ))) (p : PathBuf) → to_result o ≡ parsed p → o ≡ some p.segments
parsed-some none p e = absurd (ground arith)
parsed-some (some s) p e = ground (arith)

-- If two byte strings parse to paths, then the first, a delimiter and the second parse to the
-- join of the paths.
from_bytes-join :
    (is_utf8 : List ℕ → Bool) (x y : List ℕ) (p q : PathBuf)
    → from_bytes is_utf8 x ≡ parsed p
    → from_bytes is_utf8 y ≡ parsed q
    → from_bytes is_utf8 (x ++ (delimiter ∷ y)) ≡ parsed (join p q)
unfolding join
from_bytes-join is_utf8 x y p q h k =
    let a = parsed-some _ p (sym (from_bytes-pieces is_utf8 x) ∙ h) in
    let b = parsed-some _ q (sym (from_bytes-pieces is_utf8 y) ∙ k) in
    from_bytes-pieces is_utf8 (x ++ (delimiter ∷ y))
    ∙ ap (λ (s : List (List ℕ)). to_result (collect is_utf8 s)) (pieces-append x y)
    ∙ ap to_result (collect-append is_utf8 (pieces x) (pieces y) ∙ ap₂ both a b)
