-- ===== src/Locks/Semaphore/Steps.antt =====
-- Every operation of library/async_locks/src/semaphore.rs keeps the invariant and the total.
use cos_rs.Base.{
  ℕ, zero, suc, ◌+◌, ◌-◌, ◌≡◌, refl, Option, none, some, List, [], ◌∷◌, ltb, leb, get_elem?, set,
  sum_by, sum_by-set, sum_by-append, All-set, All-append, inl, inr, Bool-cases, Option-cases,
  ltb→le, arith,
}
use cos_rs.Locks.Semaphore.{with_status}
use cos_rs.Locks.Semaphore.{
  Status, waiting, acquired, giveup, Waker, Future, Semaphore, or_same, poll_status, owed_by,
  give_up, release, try_acquire, acquire, enqueue, take_grant, poll_waker, poll, remove_at,
  drop_future, drop_guard, release_part, pay,
}
use cos_rs.Locks.Semaphore.Permits.{
  held, amount, total, Agrees, Inv, Keeps, give_up-Keeps, serve-Keeps,
}

pub release-Keeps :
    (rounds : List (List ℕ)) (n : ℕ) (s : Semaphore) → Inv s → Keeps s n (release rounds n s)
unfolding release total
release-Keeps rounds n s v =
    let k = serve-Keeps rounds s.queue (record s { spare = s.spare + n }) v in
    (k.0, omega (arith, k.1))

sum-remove_at :
    (xs : List ℕ) (i : ℕ) {n : ℕ}
    → get_elem? xs i ≡ some n
    → sum_by amount (remove_at i xs) + n ≡ sum_by amount xs
sum-remove_at [] i e = ground arith
sum-remove_at (x ∷ xs) zero e = ground arith
sum-remove_at (x ∷ xs) (suc i) e = omega (arith, sum-remove_at xs i e)

pub try_acquire-Keeps : (n : ℕ) (s : Semaphore) → Inv s → Keeps s 0 (or_same s (try_acquire n s))
unfolding try_acquire total
try_acquire-Keeps n s v = elim (Bool-cases (ltb s.permits n)) [
  | inl f ↦ rw f (v, omega arith)
  | inr f ↦ rw f (v, omega (arith, ltb→le s.permits n f))
]

pub acquire-Keeps : (n : ℕ) (s : Semaphore) → Inv s → Keeps s 0 (acquire n s)
unfolding acquire total
acquire-Keeps n s v =
    let f : Future = record { permits = n; waker = none } in
    (
      All-append Agrees s.futures (f ∷ []) v (tt, tt),
      omega (arith, sum_by-append held s.futures (f ∷ [])),
    )

pub enqueue-Keeps :
    (i task : ℕ) (s : Semaphore) (f : Future)
    → Inv s
    → get_elem? s.futures i ≡ some f
    → f.waker ≡ none
    → Keeps s 0 (enqueue i task s)
unfolding enqueue total
enqueue-Keeps i task s f v e w =
    let g : Future = record f {
      waker = some (record { task = task; status = waiting; permits = f.permits });
    } in
    rw (e, enqueue)
      (All-set Agrees s.futures i g v refl, ground (arith, sum_by-set held s.futures i g e, w))

pub take_grant-Keeps :
    (i : ℕ) (s : Semaphore) (f : Future) (w : Waker)
    → Inv s
    → get_elem? s.futures i ≡ some f
    → f.waker ≡ some w
    → w.status ≡ acquired
    → Keeps s 0 (take_grant i s)
unfolding take_grant total
take_grant-Keeps i s f w v e h st =
    let g : Future = record f { permits = 0 } in
    rw (e, take_grant)
      (
        All-set Agrees s.futures i g v (ground arith),
        ground (arith, sum_by-set held s.futures i g e),
      )

pub drop_guard-Keeps :
    (rounds : List (List ℕ)) (g : ℕ) (s : Semaphore) → Inv s → Keeps s 0 (drop_guard rounds g s)
unfolding drop_guard total
drop_guard-Keeps rounds g s v = elim (Option-cases (get_elem? s.guards g)) [
  | inl e ↦ rw (e, drop_guard) (v, omega arith)
  | inr (n, e) ↦
      let k = release-Keeps rounds n (record s { guards = remove_at g s.guards }) v in
      rw (e, drop_guard) (k.0, omega (arith, k.1, sum-remove_at s.guards g e))
]

pub release_part-Keeps :
    (rounds : List (List ℕ)) (g n : ℕ) (s : Semaphore)
    → Inv s
    → Keeps s 0 (or_same s (release_part rounds g n s))
unfolding release_part total
release_part-Keeps rounds g n s v = elim (Option-cases (get_elem? s.guards g)) [
  | inl e ↦ rw (e, release_part) (v, omega arith)
  | inr (m, e) ↦ elim (Bool-cases (leb n m)) [
    | inl f ↦
        let k = release-Keeps rounds n (record s { guards = set s.guards g (m - n) }) v in
        rw (e, release_part, f) (k.0, ground (arith, k.1, sum_by-set amount s.guards g (m - n) e))
    | inr f ↦ rw (e, release_part, f) (v, omega arith)
  ]
]

pub pay-Keeps :
    (rounds : List (List ℕ)) (k : ℕ) (s : Semaphore) → Inv s → Keeps s 0 (pay rounds k s)
unfolding pay total
pay-Keeps rounds k s v = elim (Option-cases (get_elem? s.owed k)) [
  | inl e ↦ rw (e, pay) (v, omega arith)
  | inr (n, e) ↦
      let p = release-Keeps rounds n (record s { owed = remove_at k s.owed }) v in
      rw (e, pay) (p.0, omega (arith, p.1, sum-remove_at s.owed k e))
]

pub polled :
    (P : Status → Type 0) (s' s : Semaphore) (st : Status)
    → P st
    → (P acquired → Keeps s 0 s')
    → Keeps s 0 s
    → Keeps s 0 (poll_status st s' s).1
polled P s' s waiting p k l = l
polled P s' s acquired p k l = k p
polled P s' s giveup p k l = l

poll_waker-Keeps :
    (o : Option Waker) (i task : ℕ) (s : Semaphore) (f : Future)
    → Inv s
    → get_elem? s.futures i ≡ some f
    → f.waker ≡ o
    → Keeps s 0 (poll_waker o i f.permits task s).1
unfolding poll_waker
poll_waker-Keeps (some w) i task s f v e h =
    polled (λ st. w.status ≡ st) (take_grant i s) s w.status refl
      (λ st. take_grant-Keeps i s f w v e h st) (v, omega arith)
poll_waker-Keeps none i task s f v e h = elim (Option-cases (try_acquire f.permits s)) [
  | inl t ↦
      let k = enqueue-Keeps i task s f v e h in
      let r = release-Keeps [] 0 (enqueue i task s) k.0 in
      rw (t, poll_waker) (r.0, omega (arith, k.1, r.1))
  | inr (s', t) ↦ rw (t, poll_waker) (rw t at (try_acquire-Keeps f.permits s v))
]

-- Poll, from any state in which waiting wakers ask for what their futures ask for, keeps that
-- invariant and the total of the permits.
pub poll-Keeps : (i task : ℕ) (s : Semaphore) → Inv s → Keeps s 0 (poll i task s).1
unfolding poll
poll-Keeps i task s v = elim (Option-cases (get_elem? s.futures i)) [
  | inl e ↦ rw (e, poll) (v, omega arith)
  | inr (f, e) ↦ rw (e, poll) (poll_waker-Keeps f.waker i task s f v e refl)
]

held-owed : (f : Future) {n : ℕ} → owed_by f ≡ some n → held f ≡ n + held (with_status giveup f)
held-owed f e = ground arith

total-give_up :
    (i n : ℕ) (s : Semaphore) (f : Future)
    → get_elem? s.futures i ≡ some f
    → owed_by f ≡ some n
    → total (record (give_up i s) { owed = s.owed }) + n ≡ total s
unfolding give_up total
total-give_up i n s f e o =
    rw (e, give_up)
      (omega (arith, sum_by-set held s.futures i (with_status giveup f) e, held-owed f o))

-- Dropping a future, from any state in which waiting wakers ask for what their futures ask for,
-- keeps that invariant and the total of the permits: what it was granted goes back.
pub drop_future-Keeps : (i : ℕ) (s : Semaphore) → Inv s → Keeps s 0 (drop_future i s)
unfolding drop_future
drop_future-Keeps i s v = elim (Option-cases (get_elem? s.futures i)) [
  | inl e ↦ rw (e, drop_future) (v, omega arith)
  | inr (f, e) ↦ elim (Option-cases (owed_by f)) [
    | inl o ↦ rw (e, drop_future, o) (v, omega arith)
    | inr (n, o) ↦
        let r =
          release-Keeps [] n (record (give_up i s) { owed = s.owed }) (give_up-Keeps i s v).0 in
        rw (e, drop_future, o) (r.0, omega (arith, r.1, total-give_up i n s f e o))
  ]
]
