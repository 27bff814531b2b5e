-- ===== src/Locks/Semaphore/Permits.antt =====
-- Where the permits of a semaphore are, and that no step loses or makes one.
use cos_rs.Base.{
  ℕ, zero, suc, ◌+◌, ◌≤◌, ◌≡◌, refl, ◌∙◌, true, none, some, List, [], ◌∷◌, ltb, get_elem?, set,
  sum_by, sum_by-set, All, All-set, inl, inr, Bool-cases, Option-cases, ltb→le, arith,
}
use cos_rs.Locks.Semaphore.{
  Status, waiting, acquired, giveup, Future, Semaphore, is_waiting, is_giveup, deref, with_status,
  owed_by, push_owed, waker_of, store_status, give_up, interfere, hand_out, settle, next_round,
  later_rounds, serve,
}

-- What a future has been given and has not handed to a guard.
abbrev pub held : Future → ℕ
held f = elim f.waker [ none ↦ 0 | some w ↦ elim w.status [ acquired ↦ f.permits | _ ↦ 0 ] ]

abbrev pub amount : ℕ → ℕ
amount n = n

unfoldable pub total : Semaphore → ℕ
total s =
    s.permits + s.spare + sum_by held s.futures + sum_by amount s.guards + sum_by amount s.owed

-- A waiting waker asks for what its future asks for.
abbrev pub Agrees : Future → Type 0
Agrees f = elim f.waker [
  | none ↦ Unit {0}
  | some w ↦ elim w.status [ waiting ↦ w.permits ≡ f.permits | _ ↦ Unit {0} ]
]

abbrev pub Inv : Semaphore → Type 0
Inv s = All Agrees s.futures

-- A step that keeps the invariant and changes the total by a known amount.
abbrev pub Keeps : Semaphore → ℕ → Semaphore → Type 0
Keeps s n s' = Inv s' × (total s' ≡ total s + n)

-- A swapped status moves what the future holds to what its `drop` owes.
owed-giveup :
    (f : Future) (xs : List ℕ)
    → held (with_status giveup f) + sum_by amount (push_owed (owed_by f) xs)
      ≡ held f + sum_by amount xs
owed-giveup f xs = ground arith

Agrees-giveup : (f : Future) → Agrees (with_status giveup f)
Agrees-giveup f = ground arith

pub give_up-Keeps : (i : ℕ) (s : Semaphore) → Inv s → Keeps s 0 (give_up i s)
unfolding give_up total
give_up-Keeps i s v = elim (Option-cases (get_elem? s.futures i)) [
  | inl e ↦ rw (e, give_up) (v, omega arith)
  | inr (f, e) ↦
      rw (e, give_up)
        (
          All-set Agrees s.futures i (with_status giveup f) v (Agrees-giveup f),
          omega (arith, sum_by-set held s.futures i (with_status giveup f) e, owed-giveup f s.owed),
        )
]

give_up-spare : (i : ℕ) (s : Semaphore) → (give_up i s).spare ≡ s.spare
unfolding give_up
give_up-spare i s = ground arith

pub interfere-Keeps : (is : List ℕ) (s : Semaphore) → Inv s → Keeps s 0 (interfere is s)
unfolding interfere
interfere-Keeps [] s v = (v, omega arith)
interfere-Keeps (i ∷ is) s v =
    let one = give_up-Keeps i s v in
    let more = interfere-Keeps is (give_up i s) one.0 in (more.0, omega (arith, one.1, more.1))

pub interfere-spare : (is : List ℕ) (s : Semaphore) → (interfere is s).spare ≡ s.spare
unfolding interfere
interfere-spare [] s = refl
interfere-spare (i ∷ is) s = interfere-spare is (give_up i s) ∙ give_up-spare i s

-- A swapped status leaves what the waker asks for.
pub store-permits :
    (st : Status) (fs : List Future) (i j : ℕ) (f : Future)
    → get_elem? fs i ≡ some f
    → (deref (set fs i (with_status st f)) j).permits ≡ (deref fs j).permits
store-permits st [] i j f e = refl
store-permits st (x ∷ fs) zero zero f e = ground arith
store-permits st (x ∷ fs) zero (suc j) f e = refl
store-permits st (x ∷ fs) (suc i) zero f e = refl
store-permits st (x ∷ fs) (suc i) (suc j) f e = store-permits st fs i j f e

give_up-permits :
    (i j : ℕ) (s : Semaphore)
    → (deref (give_up i s).futures j).permits ≡ (deref s.futures j).permits
unfolding give_up
give_up-permits i j s = elim (Option-cases (get_elem? s.futures i)) [
  | inl e ↦ rw (e, give_up) refl
  | inr (f, e) ↦ rw (e, give_up) (store-permits giveup s.futures i j f e)
]

pub interfere-permits :
    (is : List ℕ) (j : ℕ) (s : Semaphore)
    → (deref (interfere is s).futures j).permits ≡ (deref s.futures j).permits
unfolding interfere
interfere-permits [] j s = refl
interfere-permits (i ∷ is) j s = interfere-permits is j (give_up i s) ∙ give_up-permits i j s

held-acquired :
    (f : Future)
    → Agrees f
    → is_waiting (waker_of (some f)).status ≡ true
    → (held (with_status acquired f) ≡ (waker_of (some f)).permits) × (held f ≡ 0)
held-acquired f v e = ground arith

Agrees-acquired : (f : Future) → Agrees (with_status acquired f)
Agrees-acquired f = ground arith

held-store_status :
    (fs : List Future) (i : ℕ)
    → All Agrees fs
    → is_waiting (deref fs i).status ≡ true
    → All Agrees (store_status fs i acquired)
      × (sum_by held (store_status fs i acquired) ≡ sum_by held fs + (deref fs i).permits)
held-store_status [] i v e = ground arith
held-store_status (f ∷ fs) zero v e =
    ((Agrees-acquired f, v.1), omega (arith, held-acquired f v.0 e))
held-store_status (f ∷ fs) (suc i) v e = ground (arith, held-store_status fs i v.1 e)

pub hand_out-Keeps :
    (i : ℕ) (s : Semaphore)
    → Inv s
    → is_waiting (deref s.futures i).status ≡ true
    → (deref s.futures i).permits ≤ s.spare
    → Keeps s 0 (hand_out i s)
unfolding hand_out total
hand_out-Keeps i s v e le = let h = held-store_status s.futures i v e in (h.0, omega (arith, h.1))

settle-Keeps : (s : Semaphore) → Inv s → Keeps s 0 (settle s)
unfolding settle total
settle-Keeps s v = (v, omega arith)

-- The loop of `release` moves permits and changes no total, whatever is dropped meanwhile.
pub serve-Keeps :
    (rounds : List (List ℕ)) (queue : List ℕ) (s : Semaphore)
    → Inv s
    → Keeps s 0 (serve rounds queue s)
unfolding serve total
serve-Keeps rounds [] s v = settle-Keeps s v
serve-Keeps rounds (i ∷ rest) s v =
    let after = interfere (next_round rounds) s in
    let k = interfere-Keeps (next_round rounds) s v in
    elim (Bool-cases (is_giveup (deref s.futures i).status)) [
      | inl e ↦ rw (e, serve) (serve-Keeps rounds rest s v)
      | inr e ↦ elim (Bool-cases (ltb s.spare (deref s.futures i).permits)) [
        | inl f ↦ rw (e, f) (v, omega arith)
        | inr f ↦ elim (Bool-cases (is_waiting (deref after.futures i).status)) [
          | inl g ↦
              let h = hand_out-Keeps i after k.0 g (
                omega (
                  arith,
                  ltb→le s.spare (deref s.futures i).permits f,
                  interfere-spare (next_round rounds) s,
                  interfere-permits (next_round rounds) i s,
                )) in
              let r = serve-Keeps (later_rounds rounds) rest (hand_out i after) h.0 in
              rw (e, f, g) (r.0, omega (arith, k.1, h.1, r.1))
          | inr g ↦ rw (e, f, g) k
        ]
      ]
    ]
