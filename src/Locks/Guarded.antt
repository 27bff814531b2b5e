-- ===== src/Locks/Guarded.antt =====
-- What the locks built on library/async_locks/src/semaphore.rs keep: every guard holds a permit,
-- and no future asks for more than a bound.
use cos_rs.Base.{
  ℕ, zero, suc, ◌+◌, ◌≤◌, ◌≡◌, refl, ◌∙◌, Option, none, some, List, [], ◌∷◌, ltb, get_elem?, sum_by,
  All, All-append, All-get, All-set, inl, inr, Bool-cases, Option-cases, arith, length,
}
use cos_rs.Locks.Semaphore.{
  Status, waiting, acquired, giveup, Waker, Future, Semaphore, or_same, deref, with_status,
  store_status, is_waiting, is_giveup, interfere, hand_out, settle, next_round, later_rounds, serve,
  try_acquire, acquire, give_up, release, enqueue, poll_status, take_grant, remove_at, drop_guard,
  pay,
}
use cos_rs.Locks.Semaphore.Permits.{amount}
use cos_rs.Locks.Semaphore.Run.{first_poll, later_poll}

abbrev pub Positive : ℕ → Type 0
Positive n = 1 ≤ n

abbrev pub AtMost : ℕ → Future → Type 0
AtMost k f = f.permits ≤ k

pub record Bounded (k : ℕ) (s : Semaphore) : Type 0 where
  pub positive : All Positive s.guards
  pub small : All (AtMost k) s.futures

module _ (k : ℕ) where
  pub give_up-Bounded : (i : ℕ) (s : Semaphore) → Bounded k s → Bounded k (give_up i s)
  unfolding give_up
  give_up-Bounded i s v = elim (Option-cases (get_elem? s.futures i)) [
    | inl e ↦ rw (e, give_up) v
    | inr (f, e) ↦
        rw (e, give_up)
          (record {
            positive = v.positive;
            small =
                All-set (AtMost k) s.futures i (with_status giveup f) v.small
                  (All-get (AtMost k) s.futures i f v.small e);
          })
  ]

  interfere-Bounded : (is : List ℕ) (s : Semaphore) → Bounded k s → Bounded k (interfere is s)
  unfolding interfere
  interfere-Bounded [] s v = v
  interfere-Bounded (i ∷ is) s v = interfere-Bounded is (give_up i s) (give_up-Bounded i s v)

  store-AtMost :
      (st : Status) (fs : List Future) (i : ℕ)
      → All (AtMost k) fs
      → All (AtMost k) (store_status fs i st)
  store-AtMost st fs i v = elim (Option-cases (get_elem? fs i)) [
    | inl e ↦ rw (e, All) v
    | inr (f, e) ↦
        rw (e, All) (All-set (AtMost k) fs i (with_status st f) v (All-get (AtMost k) fs i f v e))
  ]

  hand_out-Bounded : (i : ℕ) (s : Semaphore) → Bounded k s → Bounded k (hand_out i s)
  unfolding hand_out
  hand_out-Bounded i s v = record {
    positive = v.positive;
    small = store-AtMost acquired s.futures i v.small;
  }

  serve-Bounded :
      (rounds : List (List ℕ)) (queue : List ℕ) (s : Semaphore)
      → Bounded k s
      → Bounded k (serve rounds queue s)
  unfolding serve settle
  serve-Bounded rounds [] s v = record { positive = v.positive; small = v.small }
  serve-Bounded rounds (i ∷ rest) s v =
      let after = interfere (next_round rounds) s in
      let v' = interfere-Bounded (next_round rounds) s v in
      elim (Bool-cases (is_giveup (deref s.futures i).status)) [
        | inl e ↦ rw (e, serve) (serve-Bounded rounds rest s v)
        | inr e ↦ elim (Bool-cases (ltb s.spare (deref s.futures i).permits)) [
          | inl f ↦ rw (e, f) (record { positive = v.positive; small = v.small })
          | inr f ↦ elim (Bool-cases (is_waiting (deref after.futures i).status)) [
            | inl g ↦
                rw (e, f, g)
                  (serve-Bounded (later_rounds rounds) rest (hand_out i after)
                    (hand_out-Bounded i after v'))
            | inr g ↦ rw (e, f, g) (record { positive = v'.positive; small = v'.small })
          ]
        ]
      ]

  pub release-Bounded :
      (rounds : List (List ℕ)) (n : ℕ) (s : Semaphore)
      → All Positive s.guards
      → All (AtMost k) s.futures
      → Bounded k (release rounds n s)
  unfolding release
  release-Bounded rounds n s p q =
      serve-Bounded rounds s.queue (record s { spare = s.spare + n })
        (record { positive = p; small = q })

  remove_at-Positive : (i : ℕ) (xs : List ℕ) → All Positive xs → All Positive (remove_at i xs)
  remove_at-Positive i [] v = tt
  remove_at-Positive zero (x ∷ xs) v = v.1
  remove_at-Positive (suc i) (x ∷ xs) v = (v.0, remove_at-Positive i xs v.1)

  pub drop_guard-Bounded :
      (rounds : List (List ℕ)) (g : ℕ) (s : Semaphore)
      → Bounded k s
      → Bounded k (drop_guard rounds g s)
  unfolding drop_guard
  drop_guard-Bounded rounds g s v = elim (Option-cases (get_elem? s.guards g)) [
    | inl e ↦ rw (e, drop_guard) v
    | inr (n, e) ↦
        rw (e, drop_guard)
          (release-Bounded rounds n _ (remove_at-Positive g s.guards v.positive) v.small)
  ]

  pub pay-Bounded :
      (rounds : List (List ℕ)) (j : ℕ) (s : Semaphore) → Bounded k s → Bounded k (pay rounds j s)
  unfolding pay
  pay-Bounded rounds j s v = elim (Option-cases (get_elem? s.owed j)) [
    | inl e ↦ rw (e, pay) v
    | inr (n, e) ↦ rw (e, pay) (release-Bounded rounds n _ v.positive v.small)
  ]

  pub try_acquire-Bounded :
      (n : ℕ) (s : Semaphore) → 1 ≤ n → Bounded k s → Bounded k (or_same s (try_acquire n s))
  unfolding try_acquire
  try_acquire-Bounded n s h v = elim (Bool-cases (ltb s.permits n)) [
    | inl f ↦ rw f v
    | inr f ↦ rw f (record { positive = (h, v.positive); small = v.small })
  ]

  pub acquire-Bounded : (n : ℕ) (s : Semaphore) → n ≤ k → Bounded k s → Bounded k (acquire n s)
  unfolding acquire
  acquire-Bounded n s h v = record {
    positive = v.positive;
    small = All-append (AtMost k) s.futures _ v.small (h, tt);
  }

  pub enqueue-Bounded : (i task : ℕ) (s : Semaphore) → Bounded k s → Bounded k (enqueue i task s)
  unfolding enqueue
  enqueue-Bounded i task s v = elim (Option-cases (get_elem? s.futures i)) [
    | inl e ↦ rw (e, enqueue) v
    | inr (f, e) ↦
        rw (e, enqueue)
          (record {
            positive = v.positive;
            small =
                All-set (AtMost k) s.futures i _ v.small
                  (All-get (AtMost k) s.futures i f v.small e);
          })
  ]

  pub take_grant-Bounded :
      (i : ℕ) (s : Semaphore) (f : Future)
      → get_elem? s.futures i ≡ some f
      → 1 ≤ f.permits
      → Bounded k s
      → Bounded k (take_grant i s)
  unfolding take_grant
  take_grant-Bounded i s f e h v =
      rw (e, take_grant)
        (record {
          positive = (h, v.positive);
          small = All-set (AtMost k) s.futures i _ v.small (omega arith);
        })

  pub first_poll-Bounded :
      (o : Option Waker) (i task : ℕ) (s : Semaphore)
      → Bounded k s
      → Bounded k (first_poll o i task s)
  first_poll-Bounded (some w) i task s v = v
  first_poll-Bounded none i task s v =
      let e = enqueue-Bounded i task s v in record { positive = e.positive; small = e.small }

  pub later_poll-Bounded :
      (o : Option Waker) (i : ℕ) (s : Semaphore) (f : Future)
      → get_elem? s.futures i ≡ some f
      → 1 ≤ f.permits
      → Bounded k s
      → Bounded k (later_poll o i s)
  later_poll-Bounded none i s f e h v = v
  later_poll-Bounded (some w) i s f e h v = polled_bounded w.status
    where
      polled_bounded : (st : Status) → Bounded k (poll_status st (take_grant i s) s).1
      polled_bounded waiting = v
      polled_bounded acquired = take_grant-Bounded i s f e h v
      polled_bounded giveup = v

guards-give_up : (i : ℕ) (s : Semaphore) → (give_up i s).guards ≡ s.guards
unfolding give_up
guards-give_up i s = ground arith

guards-interfere : (is : List ℕ) (s : Semaphore) → (interfere is s).guards ≡ s.guards
unfolding interfere
guards-interfere [] s = refl
guards-interfere (i ∷ is) s = guards-interfere is (give_up i s) ∙ guards-give_up i s

guards-serve :
    (rounds : List (List ℕ)) (queue : List ℕ) (s : Semaphore)
    → (serve rounds queue s).guards ≡ s.guards
unfolding serve settle hand_out
guards-serve rounds [] s = refl
guards-serve rounds (i ∷ rest) s = ground (
  arith,
  guards-interfere (next_round rounds) s,
  guards-serve rounds rest s,
  guards-serve (later_rounds rounds) rest (hand_out i (interfere (next_round rounds) s)),
)

-- `release` leaves the guards alone.
pub guards-release :
    (rounds : List (List ℕ)) (n : ℕ) (s : Semaphore) → (release rounds n s).guards ≡ s.guards
unfolding release
guards-release rounds n s = guards-serve rounds s.queue (record s { spare = s.spare + n })

-- Guards that each hold a permit are at most as many as the permits that they hold.
pub length-le-sum : (xs : List ℕ) → All Positive xs → length xs ≤ sum_by amount xs
length-le-sum [] v = omega arith
length-le-sum (x ∷ xs) v = omega (arith, length-le-sum xs v.1)
