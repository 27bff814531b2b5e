-- ===== src/Locks/Locked.antt =====
-- The invariant of a lock over library/async_locks/src/semaphore.rs, and the events that keep it.
use cos_rs.Base.{
  ℕ, zero, suc, ◌+◌, ◌-◌, ◌≤◌, ◌<◌, ◌≡◌, ◌⊎◌, refl, ap, subst, Bool, true, false, Option, none,
  some, List, [], ◌∷◌, leb, get_elem?, All, All-set, length, sum_by, inl, inr, Option-cases,
  Bool-cases, arith,
}
use cos_rs.Locks.Semaphore.{Semaphore, Future, new, deref, is_waiting, release_part}
use cos_rs.Locks.Semaphore.Permits.{held, amount, total, Agrees, Inv}
use cos_rs.Locks.Semaphore.Live.{Blocked}
use cos_rs.Locks.Semaphore.Wakeup.{Sound}
use cos_rs.Locks.Semaphore.Sound.{step-Sound, new-Sound}
use cos_rs.Locks.Semaphore.Run.{
  Event, tries, acquires, collects, gives_up, enqueues, drops_guard, pays, releases_part, minted,
  step, step-Keeps,
}
use cos_rs.Locks.Guarded.{
  Positive, AtMost, Bounded, give_up-Bounded, drop_guard-Bounded, pay-Bounded, release-Bounded,
  try_acquire-Bounded, acquire-Bounded, first_poll-Bounded, later_poll-Bounded, length-le-sum,
}

-- The semaphore has `n` permits in all, and nobody asks for more than `k`.
pub record Locked (n k : ℕ) (s : Semaphore) : Type 0 where
  pub agrees : Inv s
  pub permits : total s ≡ n
  pub sound : Sound s
  pub bounded : Bounded k s

pub new-Locked : (n k : ℕ) → Locked n k (new n)
unfolding new total
new-Locked n k = record {
  agrees = tt;
  permits = omega arith;
  sound = new-Sound n;
  bounded = record { positive = tt; small = tt };
}

-- The future exists, and has not handed over what it asked for.
abbrev pub unfinished : Option Future → Bool
unfinished none = false
unfinished (some f) = leb 1 f.permits

module _ (n k : ℕ) where
  step-Locked :
      (e : Event) (s : Semaphore)
      → minted e ≡ 0
      → Locked n k s
      → Bounded k (step e s)
      → Locked n k (step e s)
  step-Locked e s m v b =
      let p = step-Keeps e s v.agrees in
      record {
        agrees = p.0;
        permits = omega (arith, p.1, v.permits);
        sound = step-Sound e s v.sound;
        bounded = b;
      }

  pub tries-Locked : (a : ℕ) (s : Semaphore) → 1 ≤ a → Locked n k s → Locked n k (step (tries a) s)
  tries-Locked a s h v =
      step-Locked (tries a) s refl v (unfold step in try_acquire-Bounded k a s h v.bounded)

  pub acquires-Locked :
      (a : ℕ) (s : Semaphore) → a ≤ k → Locked n k s → Locked n k (step (acquires a) s)
  acquires-Locked a s h v =
      step-Locked (acquires a) s refl v (unfold step in acquire-Bounded k a s h v.bounded)

  enqueues-Bounded :
      (i task : ℕ) (s : Semaphore) → Bounded k s → Bounded k (step (enqueues i task) s)
  unfolding step
  enqueues-Bounded i task s v = elim (Option-cases (get_elem? s.futures i)) [
    | inl e ↦ rw (e, step) v
    | inr (f, e) ↦ rw (e, step) (first_poll-Bounded k f.waker i task s v)
  ]

  pub enqueues-Locked :
      (i task : ℕ) (s : Semaphore) → Locked n k s → Locked n k (step (enqueues i task) s)
  enqueues-Locked i task s v =
      step-Locked (enqueues i task) s refl v (enqueues-Bounded i task s v.bounded)

  collects-Bounded :
      (i : ℕ) (s : Semaphore)
      → unfinished (get_elem? s.futures i) ≡ true
      → Bounded k s
      → Bounded k (step (collects i) s)
  unfolding step
  collects-Bounded i s h v = elim (Option-cases (get_elem? s.futures i)) [
    | inl e ↦ rw (e, step) v
    | inr (f, e) ↦
        let h' : unfinished (some f) ≡ true = subst (λ o. unfinished o ≡ true) e h in
        rw (e, step) (later_poll-Bounded k f.waker i s f e (ground arith) v)
  ]

  pub collects-Locked :
      (i : ℕ) (s : Semaphore)
      → unfinished (get_elem? s.futures i) ≡ true
      → Locked n k s
      → Locked n k (step (collects i) s)
  collects-Locked i s h v = step-Locked (collects i) s refl v (collects-Bounded i s h v.bounded)

  pub gives_up-Locked : (i : ℕ) (s : Semaphore) → Locked n k s → Locked n k (step (gives_up i) s)
  gives_up-Locked i s v =
      step-Locked (gives_up i) s refl v (unfold step in give_up-Bounded k i s v.bounded)

  pub drops_guard-Locked :
      (rounds : List (List ℕ)) (g : ℕ) (s : Semaphore)
      → Locked n k s
      → Locked n k (step (drops_guard rounds g) s)
  drops_guard-Locked rounds g s v =
      step-Locked (drops_guard rounds g) s refl v
        (unfold step in drop_guard-Bounded k rounds g s v.bounded)

  pub pays-Locked :
      (rounds : List (List ℕ)) (j : ℕ) (s : Semaphore)
      → Locked n k s
      → Locked n k (step (pays rounds j) s)
  pays-Locked rounds j s v =
      step-Locked (pays rounds j) s refl v (unfold step in pay-Bounded k rounds j s v.bounded)

  releases_part-Bounded :
      (rounds : List (List ℕ)) (g a m : ℕ) (s : Semaphore)
      → get_elem? s.guards g ≡ some m
      → a < m
      → Bounded k s
      → Bounded k (step (releases_part rounds g a) s)
  unfolding step release_part
  releases_part-Bounded rounds g a m s e h v = elim (Bool-cases (leb a m)) [
    | inl f ↦
        rw (e, release_part, f)
          (release-Bounded k rounds a _
            (All-set Positive s.guards g (m - a) v.positive (omega arith)) v.small)
    | inr f ↦ ground arith
  ]

  pub releases_part-Locked :
      (rounds : List (List ℕ)) (g a m : ℕ) (s : Semaphore)
      → get_elem? s.guards g ≡ some m
      → a < m
      → Locked n k s
      → Locked n k (step (releases_part rounds g a) s)
  releases_part-Locked rounds g a m s e h v =
      step-Locked (releases_part rounds g a) s refl v
        (releases_part-Bounded rounds g a m s e h v.bounded)

  -- The guards together hold no more than there is.
  pub sum-guards-le : (s : Semaphore) → Locked n k s → sum_by amount s.guards ≤ n
  unfolding total
  sum-guards-le s v = omega (arith, v.permits)

  pub length-guards-le : (s : Semaphore) → Locked n k s → length s.guards ≤ n
  length-guards-le s v = omega (arith, sum-guards-le s v, length-le-sum s.guards v.bounded.positive)

module _ (k : ℕ) where
  waker-le :
      (fs : List Future) (i : ℕ)
      → All Agrees fs
      → All (AtMost k) fs
      → is_waiting (deref fs i).status ≡ true
      → (deref fs i).permits ≤ k
  waker-le [] i a b w = ground arith
  waker-le (f ∷ fs) zero a b w = let a' = a.0 in let b' = b.0 in ground arith
  waker-le (f ∷ fs) (suc i) a b w = waker-le fs i a.1 b.1 w

  free_queue :
      (n : ℕ) (s : Semaphore) (queue : List ℕ)
      → k ≤ n
      → All Agrees s.futures
      → All (AtMost k) s.futures
      → s.permits + s.spare ≡ n
      → Blocked s.spare s.futures queue
      → (queue ≡ []) ⊎ (s.permits ≡ 0)
      → (queue ≡ []) × (s.permits ≡ n)
  free_queue n s [] h a b t l c = (refl, omega (arith, l))
  free_queue n s (i ∷ rest) h a b t l c =
      let w = waker-le s.futures i a b l.1 in
      elim c [ inl e ↦ ground arith | inr e ↦ absurd (omega (arith, l.0, w, e)) ]

  -- Where nobody holds a permit or has still to give one back, nobody is queued, and all are free.
  pub free-Locked :
      (n : ℕ) (s : Semaphore)
      → k ≤ n
      → Locked n k s
      → s.guards ≡ []
      → s.owed ≡ []
      → sum_by held s.futures ≡ 0
      → (s.queue ≡ []) × (s.permits ≡ n)
  unfolding total
  free-Locked n s h v g o f =
      free_queue n s s.queue h v.agrees v.bounded.small (at_home g o) (still o) v.sound.closed
    where
      at_home : s.guards ≡ [] → s.owed ≡ [] → s.permits + s.spare ≡ n
      at_home g o = omega (arith, v.permits, f, ap (sum_by amount) g, ap (sum_by amount) o)

      still : s.owed ≡ [] → Blocked s.spare s.futures s.queue
      still o = elim v.sound.live [ inl p ↦ absurd (omega (arith, p, ap length o)) | inr b ↦ b ]
