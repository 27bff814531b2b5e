-- ===== src/Locks/RwLock.antt =====
-- library/async_locks/src/rwlock.rs: the read-write lock over a semaphore of `usize::MAX` permits.
use mathlib.Core.Option
use cos_rs.Base.{
  ℕ, zero, suc, ◌+◌, ◌-◌, ◌^◌, ◌≤◌, ◌≡◌, Bool, false, Option, none, some, List, [], ◌∷◌, ◌==◌,
  if◌then◌else◌, get_elem?, get_elem?-set_self, length-set, set, All, length, sum_by, inl, inr,
  refl, sym, subst, ◌∙◌, ap, Bool-cases, Option-cases, arith,
}
use cos_rs.Locks.Semaphore.{
  Semaphore, Poll, or_same, new as new_semaphore, try_acquire, acquire, release, release_part,
  poll as poll_semaphore,
}
use cos_rs.Locks.Semaphore.Permits.{amount}
use cos_rs.Locks.Semaphore.Run.{
  Event, collects, gives_up, enqueues, drops_guard, pays, step as step_semaphore,
}
use cos_rs.Locks.Guarded.{Positive, guards-release, length-le-sum}
use cos_rs.Locks.Locked.{
  Locked, new-Locked, unfinished, tries-Locked, acquires-Locked, enqueues-Locked, collects-Locked,
  gives_up-Locked, drops_guard-Locked, pays-Locked, releases_part-Locked, sum-guards-le,
}

-- `usize::MAX` on the 64-bit target.
abbrev pub max_permits : ℕ
max_permits = 2 ^ 64 - 1

pub record RwLock {ℓ} (A : Type ℓ) : Type ℓ where
  pub value : A
  pub semaphore : Semaphore

-- What a task does with the lock, in the atomic steps of `Mutex.Use`. A guard of `max_permits` is a
-- `WriteLockGuard`, the only one that has `downgrade`.
pub data Use : Type 0 where
  try_reads try_writes reads writes : Use
  queues : ℕ → ℕ → Use
  awaits cancels : ℕ → Use
  unlocks settles downgrades : List (List ℕ) → ℕ → Use

abbrev pub is_writer : Option ℕ → Bool
is_writer none = false
is_writer (some n) = n == max_permits

module _ {ℓ} {A : Type ℓ} where
  unfoldable pub new : A → RwLock A
  new a = record { value = a; semaphore = new_semaphore max_permits }

  unfoldable pub try_read : RwLock A → Option (RwLock A)
  try_read l = Option.map (λ s. record l { semaphore = s }) (try_acquire 1 l.semaphore)

  unfoldable pub try_write : RwLock A → Option (RwLock A)
  try_write l = Option.map (λ s. record l { semaphore = s }) (try_acquire max_permits l.semaphore)

  unfoldable pub read : RwLock A → RwLock A
  read l = record l { semaphore = acquire 1 l.semaphore }

  unfoldable pub write : RwLock A → RwLock A
  write l = record l { semaphore = acquire max_permits l.semaphore }

  unfoldable pub poll : ℕ → ℕ → RwLock A → Poll × RwLock A
  poll i task l = let r = poll_semaphore i task l.semaphore in (r.0, record l { semaphore = r.1 })

  -- `none` is the failed assertion of `release_part`.
  unfoldable pub downgrade : List (List ℕ) → ℕ → RwLock A → Option (RwLock A)
  downgrade rounds g l =
      Option.map (λ s. record l { semaphore = s })
        (release_part rounds g (max_permits - 1) l.semaphore)

  abbrev or_kept : RwLock A → Option (RwLock A) → RwLock A
  or_kept l none = l
  or_kept l (some l') = l'

  abbrev on_semaphore : Event → RwLock A → RwLock A
  on_semaphore e l = record l { semaphore = step_semaphore e l.semaphore }

  unfoldable pub step : Use → RwLock A → RwLock A
  step try_reads l = or_kept l (try_read l)
  step try_writes l = or_kept l (try_write l)
  step reads l = read l
  step writes l = write l
  step (queues i task) l = on_semaphore (enqueues i task) l
  step (awaits i) l =
      if unfinished (get_elem? l.semaphore.futures i) then on_semaphore (collects i) l else l
  step (cancels i) l = on_semaphore (gives_up i) l
  step (unlocks rounds g) l = on_semaphore (drops_guard rounds g) l
  step (settles rounds k) l = on_semaphore (pays rounds k) l
  step (downgrades rounds g) l =
      if is_writer (get_elem? l.semaphore.guards g) then or_kept l (downgrade rounds g l) else l

  unfoldable pub run : List Use → RwLock A → RwLock A
  run [] l = l
  run (u ∷ us) l = run us (step u l)

  semaphore-or_kept :
      (l : RwLock A) (o : Option Semaphore)
      → (or_kept l (Option.map (λ s. record l { semaphore = s }) o)).semaphore
        ≡ or_same l.semaphore o
  semaphore-or_kept l none = refl
  semaphore-or_kept l (some s) = refl

  abbrev IsLocked : RwLock A → Type 0
  IsLocked l = Locked max_permits max_permits l.semaphore

  step-IsLocked : (u : Use) (l : RwLock A) → IsLocked l → IsLocked (step u l)
  unfolding step try_read try_write read write downgrade
  step-IsLocked try_reads l v =
      subst (Locked max_permits max_permits) (sym (semaphore-or_kept l (try_acquire 1 l.semaphore)))
        (unfold step_semaphore in
          tries-Locked max_permits max_permits 1 l.semaphore (omega arith) v)
  step-IsLocked try_writes l v =
      subst (Locked max_permits max_permits)
        (sym (semaphore-or_kept l (try_acquire max_permits l.semaphore)))
        (unfold step_semaphore in
          tries-Locked max_permits max_permits max_permits l.semaphore (omega arith) v)
  step-IsLocked reads l v =
      unfold step_semaphore in acquires-Locked max_permits max_permits 1 l.semaphore (omega arith) v
  step-IsLocked writes l v =
      unfold step_semaphore in
      acquires-Locked max_permits max_permits max_permits l.semaphore (omega arith) v
  step-IsLocked (queues i task) l v = enqueues-Locked max_permits max_permits i task l.semaphore v
  step-IsLocked (awaits i) l v = elim (Bool-cases (unfinished (get_elem? l.semaphore.futures i))) [
    | inl e ↦ rw e (collects-Locked max_permits max_permits i l.semaphore e v)
    | inr e ↦ rw e v
  ]
  step-IsLocked (cancels i) l v = gives_up-Locked max_permits max_permits i l.semaphore v
  step-IsLocked (unlocks rounds g) l v =
      drops_guard-Locked max_permits max_permits rounds g l.semaphore v
  step-IsLocked (settles rounds k) l v = pays-Locked max_permits max_permits rounds k l.semaphore v
  step-IsLocked (downgrades rounds g) l v = elim (Option-cases (get_elem? l.semaphore.guards g)) [
    | inl e ↦ rw e v
    | inr (n, e) ↦ rw e (elim (Bool-cases (n == max_permits)) [
      | inl w ↦ rw w (
          subst (Locked max_permits max_permits)
            (sym (semaphore-or_kept l (release_part rounds g (max_permits - 1) l.semaphore)))
            (unfold step_semaphore in
              releases_part-Locked max_permits max_permits rounds g (max_permits - 1) n l.semaphore
                e (ground arith) v))
      | inr w ↦ rw w v
    ])
  ]

  run-IsLocked : (us : List Use) (l : RwLock A) → IsLocked l → IsLocked (run us l)
  unfolding run
  run-IsLocked [] l v = v
  run-IsLocked (u ∷ us) l v = run-IsLocked us (step u l) (step-IsLocked u l v)

  pub run-new-IsLocked : (a : A) (us : List Use) → IsLocked (run us (new a))
  unfolding new
  run-new-IsLocked a us = run-IsLocked us (new a) (new-Locked max_permits max_permits)

get_elem?-add-length :
    (xs : List ℕ) (g m : ℕ)
    → All Positive xs
    → get_elem? xs g ≡ some m
    → m + length xs ≤ sum_by amount xs + 1
get_elem?-add-length [] g m v e = ground arith
get_elem?-add-length (x ∷ xs) zero m v e = ground (arith, length-le-sum xs v.1)
get_elem?-add-length (x ∷ xs) (suc g) m v e = omega (arith, get_elem?-add-length xs g m v.1 e, v.0)

module _ {ℓ} {A : Type ℓ} where
  -- For every use of a new read-write lock by any tasks, with futures dropped at any point and
  -- none polled after it was ready, if some guard is a write guard then no other guard is alive.
  pub run_exclusive :
      (a : A) (us : List Use) (g : ℕ)
      → get_elem? (run us (new a)).semaphore.guards g ≡ some max_permits
      → length (run us (new a)).semaphore.guards ≤ 1
  run_exclusive a us g e =
      let v = run-new-IsLocked a us in
      omega (
        arith,
        sum-guards-le max_permits max_permits _ v,
        get_elem?-add-length _ g max_permits v.bounded.positive e,
      )

  -- Downgrading a write guard succeeds: the same guard then holds one permit, there are as many
  -- guards, and the value is as it was.
  pub downgrade_lem :
      (rounds : List (List ℕ)) (g : ℕ) (l : RwLock A)
      → get_elem? l.semaphore.guards g ≡ some max_permits
      → (l' : RwLock A) × (downgrade rounds g l ≡ some l')
        × (get_elem? l'.semaphore.guards g ≡ some 1)
        × (length l'.semaphore.guards ≡ length l.semaphore.guards)
        × (l'.value ≡ l.value)
  unfolding downgrade release_part
  downgrade_lem rounds g l e =
      let s : Semaphore = record l.semaphore { guards = set l.semaphore.guards g 1 } in
      let e' = guards-release rounds (max_permits - 1) s in
      (
        record l { semaphore = release rounds (max_permits - 1) s },
        rw (e, release_part),
        rw e' (get_elem?-set_self l.semaphore.guards g 1 e),
        ap length e' ∙ length-set l.semaphore.guards g 1,
        refl,
      )
