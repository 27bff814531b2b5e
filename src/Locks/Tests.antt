-- ===== src/Locks/Tests.antt =====
-- Runs of the locks of library/async_locks, and the theorems at them.
use cos_rs.Base.{ℕ, ◌≤◌, ◌≡◌, refl, some, List, [], ◌∷◌, length}
use cos_rs.Locks.Semaphore.{
  waiting, Future, Semaphore, new, serve, settle, release, try_acquire, acquire, enqueue, hand_out,
  interfere, give_up, take_grant, drop_guard, pay,
}
use cos_rs.Locks.Semaphore.Permits.{total}
use cos_rs.Locks.Semaphore.Wakeup.{Sound}
use cos_rs.Locks.Semaphore.Sound.{run-new-Sound}
use cos_rs.Locks.Semaphore.Run.{
  Event, tries, acquires, enqueues, drops_guard, pays, step, run, total-run-new,
}
use cos_rs.Locks.Mutex
use cos_rs.Locks.RwLock

-- Two permits are taken; two futures queue; the first is dropped while a guard is given back.
abbrev busy : List Event
busy =
    tries 2
    ∷ acquires 1
    ∷ acquires 1
    ∷ enqueues 0 10
    ∷ enqueues 1 11
    ∷ pays [] 1
    ∷ pays [] 0
    ∷ drops_guard ((0 ∷ []) ∷ []) 0
    ∷ []

busy_state : Semaphore
unfolding run step new try_acquire acquire enqueue pay drop_guard release serve settle hand_out
    interfere give_up
busy_state = run busy (new 2)

-- The exchange failed, so the queue keeps both, and a `release` is owed.
busy_queue : (busy_state.queue ≡ 0 ∷ 1 ∷ []) × (busy_state.spare ≡ 2) × (busy_state.owed ≡ 0 ∷ [])
unfolding busy_state
busy_queue = (refl, refl, refl)

-- That `release` serves the second future and leaves one permit.
busy_served :
    ((run (pays [] 0 ∷ []) busy_state).queue ≡ [])
    × ((run (pays [] 0 ∷ []) busy_state).permits ≡ 1)
    × ((run (pays [] 0 ∷ []) busy_state).woken ≡ 11 ∷ [])
unfolding busy_state
busy_served = (refl, refl, refl)

total-run-new_example : total (run busy (new 2)) ≡ 2
total-run-new_example = total-run-new 2 busy

run-new-Sound_example : Sound (run busy (new 2))
run-new-Sound_example = run-new-Sound 2 busy

abbrev queued_future : Future
queued_future = record {
  permits = 1;
  waker = some (record { task = 11; status = waiting; permits = 1 });
}

abbrev mutex_uses : List (Mutex.Use ℕ)
mutex_uses =
    Mutex.Use.try_locks
    ∷ Mutex.Use.locks
    ∷ Mutex.Use.queues 0 7
    ∷ Mutex.Use.settles [] 0
    ∷ Mutex.Use.writes 0 42
    ∷ Mutex.Use.unlocks [] 0
    ∷ Mutex.Use.awaits 0
    ∷ []

mutex_state : Mutex.Mutex ℕ
unfolding Mutex.run Mutex.step Mutex.new Mutex.try_lock Mutex.lock Mutex.deref_mut step new
    try_acquire acquire enqueue pay drop_guard release serve settle hand_out interfere give_up
    take_grant
mutex_state = Mutex.run mutex_uses (Mutex.new 0)

mutex_runs : (mutex_state.value ≡ 42) × (mutex_state.semaphore.guards ≡ 1 ∷ [])
unfolding mutex_state
mutex_runs = (refl, refl)

length-guards-run_example : length (Mutex.run mutex_uses (Mutex.new 0)).semaphore.guards ≤ 1
length-guards-run_example = Mutex.length-guards-run 0 mutex_uses

abbrev mutex_freed : List (Mutex.Use ℕ)
mutex_freed = Mutex.Use.try_locks ∷ Mutex.Use.unlocks [] 0 ∷ []

try_lock-run_free_example :
    ((Mutex.run mutex_freed (Mutex.new 0)).semaphore.queue ≡ [])
    × ((m : Mutex.Mutex ℕ) × (Mutex.try_lock (Mutex.run mutex_freed (Mutex.new 0)) ≡ some m))
unfolding mutex_state
try_lock-run_free_example = Mutex.try_lock-run_free 0 mutex_freed refl refl refl

abbrev rw_uses : List RwLock.Use
rw_uses = RwLock.Use.try_writes ∷ RwLock.Use.try_reads ∷ []

rw_state : RwLock.RwLock ℕ
unfolding RwLock.run RwLock.step RwLock.new RwLock.try_write RwLock.try_read step new try_acquire
rw_state = RwLock.run rw_uses (RwLock.new 0)

run_exclusive_example : length (RwLock.run {A = ℕ} rw_uses (RwLock.new 0)).semaphore.guards ≤ 1
unfolding rw_state
run_exclusive_example = RwLock.run_exclusive {A = ℕ} 0 rw_uses 0 refl
