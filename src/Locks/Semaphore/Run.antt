-- ===== src/Locks/Semaphore/Run.antt =====
-- The tasks that share a semaphore, as any sequence of their atomic steps.
use cos_rs.Base.{
  ℕ, ◌+◌, ◌≡◌, refl, Option, none, some, List, [], ◌∷◌, get_elem?, sum_by, inl, inr, Option-cases,
  arith,
}
use cos_rs.Locks.Semaphore.{
  Waker, Future, Semaphore, or_same, new, give_up, release, try_acquire, acquire, enqueue,
  take_grant, poll_status, drop_guard, release_part, pay,
}
use cos_rs.Locks.Semaphore.Permits.{total, Inv, Keeps, give_up-Keeps}
use cos_rs.Locks.Semaphore.Steps.{
  release-Keeps, try_acquire-Keeps, acquire-Keeps, enqueue-Keeps, take_grant-Keeps, polled,
  drop_guard-Keeps, release_part-Keeps, pay-Keeps,
}

-- `tries` is `try_acquire`, also where `poll` makes it. `enqueues` is the rest of a first `poll`:
-- the waker is queued, and `release(0)` is still to be called. `collects` is the poll of a future
-- that has a waker. `gives_up` is the swap in `drop` of a future; `pays` makes a `release` that was
-- still to be called. `releases` is a caller's own `release`, which mints permits.
pub data Event : Type 0 where
  tries acquires collects gives_up : ℕ → Event
  enqueues : ℕ → ℕ → Event
  drops_guard pays releases : List (List ℕ) → ℕ → Event
  releases_part : List (List ℕ) → ℕ → ℕ → Event

abbrev pub first_poll : Option Waker → ℕ → ℕ → Semaphore → Semaphore
first_poll (some w) i task s = s
first_poll none i task s = let s' = enqueue i task s in record s' { owed = 0 ∷ s'.owed }

abbrev pub later_poll : Option Waker → ℕ → Semaphore → Semaphore
later_poll none i s = s
later_poll (some w) i s = (poll_status w.status (take_grant i s) s).1

unfoldable pub step : Event → Semaphore → Semaphore
step (tries n) s = or_same s (try_acquire n s)
step (acquires n) s = acquire n s
step (collects i) s = elim (get_elem? s.futures i) [ none ↦ s | some f ↦ later_poll f.waker i s ]
step (gives_up i) s = give_up i s
step (enqueues i task) s = elim (get_elem? s.futures i) [
  | none ↦ s
  | some f ↦ first_poll f.waker i task s
]
step (drops_guard rounds g) s = drop_guard rounds g s
step (pays rounds k) s = pay rounds k s
step (releases rounds n) s = release rounds n s
step (releases_part rounds g n) s = or_same s (release_part rounds g n s)

unfoldable pub run : List Event → Semaphore → Semaphore
run [] s = s
run (e ∷ es) s = run es (step e s)

-- What an event adds from outside.
abbrev pub minted : Event → ℕ
minted (releases rounds n) = n
minted (tries n) = 0
minted (acquires n) = 0
minted (collects i) = 0
minted (gives_up i) = 0
minted (enqueues i task) = 0
minted (drops_guard rounds g) = 0
minted (pays rounds k) = 0
minted (releases_part rounds g n) = 0

first_poll-Keeps :
    (o : Option Waker) (i task : ℕ) (s : Semaphore) (f : Future)
    → Inv s
    → get_elem? s.futures i ≡ some f
    → f.waker ≡ o
    → Keeps s 0 (first_poll o i task s)
unfolding total
first_poll-Keeps (some w) i task s f v e h = (v, omega arith)
first_poll-Keeps none i task s f v e h =
    let k = enqueue-Keeps i task s f v e h in (k.0, omega (arith, k.1))

later_poll-Keeps :
    (o : Option Waker) (i : ℕ) (s : Semaphore) (f : Future)
    → Inv s
    → get_elem? s.futures i ≡ some f
    → f.waker ≡ o
    → Keeps s 0 (later_poll o i s)
later_poll-Keeps none i s f v e h = (v, omega arith)
later_poll-Keeps (some w) i s f v e h =
    polled (λ st. w.status ≡ st) (take_grant i s) s w.status refl
      (λ st. take_grant-Keeps i s f w v e h st) (v, omega arith)

pub step-Keeps : (e : Event) (s : Semaphore) → Inv s → Keeps s (minted e) (step e s)
unfolding step
step-Keeps (tries n) s v = try_acquire-Keeps n s v
step-Keeps (acquires n) s v = acquire-Keeps n s v
step-Keeps (collects i) s v = elim (Option-cases (get_elem? s.futures i)) [
  | inl e ↦ rw (e, step) (v, omega arith)
  | inr (f, e) ↦ rw (e, step) (later_poll-Keeps f.waker i s f v e refl)
]
step-Keeps (gives_up i) s v = give_up-Keeps i s v
step-Keeps (enqueues i task) s v = elim (Option-cases (get_elem? s.futures i)) [
  | inl e ↦ rw (e, step) (v, omega arith)
  | inr (f, e) ↦ rw (e, step) (first_poll-Keeps f.waker i task s f v e refl)
]
step-Keeps (drops_guard rounds g) s v = drop_guard-Keeps rounds g s v
step-Keeps (pays rounds k) s v = pay-Keeps rounds k s v
step-Keeps (releases rounds n) s v = release-Keeps rounds n s v
step-Keeps (releases_part rounds g n) s v = release_part-Keeps rounds g n s v

run-Keeps : (es : List Event) (s : Semaphore) → Inv s → Keeps s (sum_by minted es) (run es s)
unfolding run
run-Keeps [] s v = (v, omega arith)
run-Keeps (e ∷ es) s v =
    let k = step-Keeps e s v in
    let r = run-Keeps es (step e s) k.0 in (r.0, omega (arith, k.1, r.1))

-- For every sequence of atomic steps from a new semaphore of n permits, what is in the counter,
-- set aside in the queue, granted, held by guards and owed by dropped futures adds up to n and
-- what callers minted by release.
pub total-run-new : (n : ℕ) (es : List Event) → total (run es (new n)) ≡ n + sum_by minted es
unfolding new total
total-run-new n es = omega (arith, (run-Keeps es (new n) tt).1)
