-- ===== src/Locks/Mutex.antt =====
-- library/async_locks/src/mutex.rs: the mutex over a semaphore of one permit.
use mathlib.Core.Option
use cos_rs.Base.{
  ℕ, refl, sym, subst, ◌≤◌, ◌≡◌, false, Option, none, some, List, [], ◌∷◌, ltb, if◌then◌else◌,
  get_elem?, length, sum_by, inl, inr, Bool-cases, Option-cases, arith,
}
use cos_rs.Locks.Semaphore.{
  Semaphore, Poll, or_same, new as new_semaphore, try_acquire, acquire, poll as poll_semaphore,
}
use cos_rs.Locks.Semaphore.Permits.{held}
use cos_rs.Locks.Semaphore.Run.{
  Event, collects, gives_up, enqueues, drops_guard, pays, step as step_semaphore,
}
use cos_rs.Locks.Locked.{
  Locked, new-Locked, unfinished, tries-Locked, acquires-Locked, enqueues-Locked, collects-Locked,
  gives_up-Locked, drops_guard-Locked, pays-Locked, length-guards-le, free-Locked,
}

pub record Mutex {ℓ} (A : Type ℓ) : Type ℓ where
  pub value : A
  pub semaphore : Semaphore

-- What a task does with the lock, in atomic steps: `queues` and `settles` are the parts of a first
-- poll that finds the lock taken, and `cancels` and `settles` those of a dropped future. `awaits`
-- polls a future that has queued its waker; one that has returned ready is not polled again, as the
-- contract of `Future` demands.
pub data Use {ℓ} (A : Type ℓ) : Type ℓ where
  try_locks locks : Use A
  queues : ℕ → ℕ → Use A
  awaits cancels : ℕ → Use A
  unlocks settles : List (List ℕ) → ℕ → Use A
  writes : ℕ → A → Use A

module _ {ℓ} {A : Type ℓ} where
  unfoldable pub new : A → Mutex A
  new a = record { value = a; semaphore = new_semaphore 1 }

  unfoldable pub try_lock : Mutex A → Option (Mutex A)
  try_lock m = Option.map (λ s. record m { semaphore = s }) (try_acquire 1 m.semaphore)

  unfoldable pub lock : Mutex A → Mutex A
  lock m = record m { semaphore = acquire 1 m.semaphore }

  unfoldable pub poll : ℕ → ℕ → Mutex A → Poll × Mutex A
  poll i task m = let r = poll_semaphore i task m.semaphore in (r.0, record m { semaphore = r.1 })

  -- `DerefMut`, through the guard with the number `g`.
  unfoldable pub deref_mut : ℕ → A → Mutex A → Mutex A
  deref_mut g a m = elim (get_elem? m.semaphore.guards g) [
    | none ↦ m
    | some n ↦ record m { value = a }
  ]

  abbrev or_kept : Mutex A → Option (Mutex A) → Mutex A
  or_kept m none = m
  or_kept m (some m') = m'

  abbrev on_semaphore : Event → Mutex A → Mutex A
  on_semaphore e m = record m { semaphore = step_semaphore e m.semaphore }

  unfoldable pub step : Use A → Mutex A → Mutex A
  step try_locks m = or_kept m (try_lock m)
  step locks m = lock m
  step (queues i task) m = on_semaphore (enqueues i task) m
  step (awaits i) m =
      if unfinished (get_elem? m.semaphore.futures i) then on_semaphore (collects i) m else m
  step (cancels i) m = on_semaphore (gives_up i) m
  step (unlocks rounds g) m = on_semaphore (drops_guard rounds g) m
  step (settles rounds k) m = on_semaphore (pays rounds k) m
  step (writes g a) m = deref_mut g a m

  unfoldable pub run : List (Use A) → Mutex A → Mutex A
  run [] m = m
  run (u ∷ us) m = run us (step u m)

  semaphore-or_kept :
      (m : Mutex A) (o : Option Semaphore)
      → (or_kept m (Option.map (λ s. record m { semaphore = s }) o)).semaphore
        ≡ or_same m.semaphore o
  semaphore-or_kept m none = refl
  semaphore-or_kept m (some s) = refl

  pub step-Locked :
      (u : Use A) (m : Mutex A) → Locked 1 1 m.semaphore → Locked 1 1 (step u m).semaphore
  unfolding step try_lock lock deref_mut
  step-Locked try_locks m v =
      subst (Locked 1 1) (sym (semaphore-or_kept m (try_acquire 1 m.semaphore)))
        (unfold step_semaphore in tries-Locked 1 1 1 m.semaphore (omega arith) v)
  step-Locked locks m v = unfold step_semaphore in acquires-Locked 1 1 1 m.semaphore (omega arith) v
  step-Locked (queues i task) m v = enqueues-Locked 1 1 i task m.semaphore v
  step-Locked (awaits i) m v = elim (Bool-cases (unfinished (get_elem? m.semaphore.futures i))) [
    | inl e ↦ rw e (collects-Locked 1 1 i m.semaphore e v)
    | inr e ↦ rw e v
  ]
  step-Locked (cancels i) m v = gives_up-Locked 1 1 i m.semaphore v
  step-Locked (unlocks rounds g) m v = drops_guard-Locked 1 1 rounds g m.semaphore v
  step-Locked (settles rounds k) m v = pays-Locked 1 1 rounds k m.semaphore v
  step-Locked (writes g a) m v = elim (Option-cases (get_elem? m.semaphore.guards g)) [
    | inl e ↦ rw (e, deref_mut) v
    | inr (n, e) ↦ rw (e, deref_mut) v
  ]

  pub run-Locked :
      (us : List (Use A)) (m : Mutex A) → Locked 1 1 m.semaphore → Locked 1 1 (run us m).semaphore
  unfolding run
  run-Locked [] m v = v
  run-Locked (u ∷ us) m v = run-Locked us (step u m) (step-Locked u m v)

  pub run-new-Locked : (a : A) (us : List (Use A)) → Locked 1 1 (run us (new a)).semaphore
  unfolding new
  run-new-Locked a us = run-Locked us (new a) (new-Locked 1 1)

  -- For every use of a new mutex by any tasks, with futures dropped at any point and none polled
  -- after it was ready, at most one guard is alive.
  pub length-guards-run : (a : A) (us : List (Use A)) → length (run us (new a)).semaphore.guards ≤ 1
  length-guards-run a us = length-guards-le 1 1 _ (run-new-Locked a us)

  try_lock_free : (m : Mutex A) → m.semaphore.permits ≡ 1 → (m' : Mutex A) × (try_lock m ≡ some m')
  unfolding try_lock try_acquire
  try_lock_free m e =
      let none_less : ltb m.semaphore.permits 1 ≡ false = ground arith in rw none_less (_, refl)

  -- After every use of a new mutex, if no guard is alive, no dropped future owes a release and no
  -- future holds an uncollected grant, then nobody is queued and try_lock succeeds.
  pub try_lock-run_free :
      (a : A) (us : List (Use A))
      → (run us (new a)).semaphore.guards ≡ []
      → (run us (new a)).semaphore.owed ≡ []
      → sum_by held (run us (new a)).semaphore.futures ≡ 0
      → ((run us (new a)).semaphore.queue ≡ [])
        × ((m : Mutex A) × (try_lock (run us (new a)) ≡ some m))
  try_lock-run_free a us g o f =
      let free = free-Locked 1 1 _ (omega arith) (run-new-Locked a us) g o f in
      (free.0, try_lock_free (run us (new a)) free.1)
