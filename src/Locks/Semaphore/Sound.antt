-- ===== src/Locks/Semaphore/Sound.antt =====
-- Any sequence of steps on library/async_locks/src/semaphore.rs keeps the queue sound.
use cos_rs.Base.{
  ℕ, ◌+◌, ◌-◌, ◌≡◌, ◌≢◌, refl, sym, subst, true, Option, none, some, List, [], ◌∷◌, ◌++◌, leb,
  get_elem?, get_elem?-set_self, get_elem?-set_ne, set, All, All-append, inl, inr, Bool-cases,
  Option-cases, arith,
}
use cos_rs.Locks.Semaphore.{
  Status, waiting, acquired, giveup, Waker, Future, Semaphore, or_same, new, with_status, give_up,
  enqueue, poll_status, take_grant, remove_at, drop_guard, release_part, pay,
}
use cos_rs.Locks.Semaphore.Live.{
  queued, Queued, Distinct, Waits, Live, All-map, All-both, give_up-Queued, push_owed-pos,
}
use cos_rs.Locks.Semaphore.Wakeup.{
  Sound, permits-give_up, release-Sound, Blocked-same, set-same, try_acquire-Sound, acquire-Sound,
  take_grant-Sound,
}
use cos_rs.Locks.Semaphore.Run.{
  Event, tries, acquires, collects, gives_up, enqueues, drops_guard, pays, releases, releases_part,
  first_poll, later_poll, step, run,
}

queue-give_up : (i : ℕ) (s : Semaphore) → (give_up i s).queue ≡ s.queue
unfolding give_up
queue-give_up i s = ground arith

give_up-Live : (i : ℕ) (s : Semaphore) → Sound s → Live (give_up i s)
unfolding give_up
give_up-Live i s v = elim (Option-cases (get_elem? s.futures i)) [
  | inl e ↦ rw (e, give_up) v.live
  | inr (f, e) ↦
      rw (e, give_up)
        (elim (push_owed-pos f s.owed) [
          | inl h ↦ inl h
          | inr h ↦ elim v.live [
            | inl o ↦ inl (ground arith)
            | inr b ↦ inr (
                Blocked-same s.spare s.futures (set s.futures i (with_status giveup f)) s.queue
                  v.waits.0 (set-same s.futures i f (with_status giveup f) e (ground arith)) b)
          ]
        ])
]

give_up-Sound : (i : ℕ) (s : Semaphore) → Sound s → Sound (give_up i s)
give_up-Sound i s v = record {
  waits = rw (queue-give_up i s) (All-map s.queue (λ j. give_up-Queued i j s) v.waits.0, v.waits.1);
  live = give_up-Live i s v;
  closed = rw (queue-give_up i s, permits-give_up i s) v.closed;
}

Distinct-snoc : (xs : List ℕ) (y : ℕ) → All (λ x. x ≢ y) xs → Distinct xs → Distinct (xs ++ y ∷ [])
Distinct-snoc [] y a d = (tt, tt)
Distinct-snoc (x ∷ xs) y a d =
    (All-append (λ z. x ≢ z) xs (y ∷ []) d.0 (a.0, tt), Distinct-snoc xs y a.1 d.1)

set-other :
    (fs : List Future) (i : ℕ) (g : Future) (j : ℕ) → j ≢ i → Queued fs j → Queued (set fs i g) j
set-other fs i g j n q =
    subst (λ o. queued o ≡ true) (sym (get_elem?-set_ne fs i j g (λ e. n (sym e)))) q

ne_of_Queued :
    (fs : List Future) (i j : ℕ) (f : Future)
    → get_elem? fs i ≡ some f
    → f.waker ≡ none
    → Queued fs j
    → j ≢ i
ne_of_Queued fs i j f e h q same =
    let k : queued (some f) ≡ true = subst (λ o. queued o ≡ true) e (subst (Queued fs) same q) in
    ground arith

queue-Waits :
    (fs : List Future) (queue : List ℕ) (i : ℕ) (f g : Future)
    → get_elem? fs i ≡ some f
    → f.waker ≡ none
    → queued (some g) ≡ true
    → Waits fs queue
    → Waits (set fs i g) (queue ++ i ∷ [])
queue-Waits fs queue i f g e h q w =
    let others = All-map queue (λ j. ne_of_Queued fs i j f e h) w.0 in
    (
      All-append (Queued (set fs i g)) queue (i ∷ []) (All-both queue (set-other fs i g) others w.0)
          (subst (λ o. queued o ≡ true) (sym (get_elem?-set_self fs i g e)) q, tt),
      Distinct-snoc queue i others w.1,
    )

abbrev with_waker : ℕ → Future → Future
with_waker task f = record f {
  waker = some (record { task = task; status = waiting; permits = f.permits });
}

enqueue-found :
    (i task : ℕ) (s : Semaphore) (f : Future)
    → get_elem? s.futures i ≡ some f
    → enqueue i task s ≡ record s {
      futures = set s.futures i (with_waker task f);
      spare = s.spare + s.permits;
      permits = 0;
      queue = s.queue ++ i ∷ [];
    }
unfolding enqueue
enqueue-found i task s f e = rw (e, enqueue)

-- The rest of a first poll: the future is queued, and `release(0)` is owed.
first_poll-Sound :
    (o : Option Waker) (i task : ℕ) (s : Semaphore) (f : Future)
    → get_elem? s.futures i ≡ some f
    → f.waker ≡ o
    → Sound s
    → Sound (first_poll o i task s)
first_poll-Sound (some w) i task s f e h v = v
first_poll-Sound none i task s f e h v =
    subst (λ t. Sound (record t { owed = 0 ∷ t.owed })) (sym (enqueue-found i task s f e))
      (record {
        waits = queue-Waits s.futures s.queue i f (with_waker task f) e h refl v.waits;
        live = inl (omega arith);
        closed = inr refl;
      })

later_poll-Sound : (o : Option Waker) (i : ℕ) (s : Semaphore) → Sound s → Sound (later_poll o i s)
later_poll-Sound none i s v = v
later_poll-Sound (some w) i s v = polled_sound w.status
  where
    polled_sound : (st : Status) → Sound (poll_status st (take_grant i s) s).1
    polled_sound waiting = v
    polled_sound acquired = take_grant-Sound i s v
    polled_sound giveup = v

drop_guard-Sound :
    (rounds : List (List ℕ)) (g : ℕ) (s : Semaphore) → Sound s → Sound (drop_guard rounds g s)
unfolding drop_guard
drop_guard-Sound rounds g s v = elim (Option-cases (get_elem? s.guards g)) [
  | inl e ↦ rw (e, drop_guard) v
  | inr (n, e) ↦
      rw (e, drop_guard)
        (release-Sound rounds n (record s { guards = remove_at g s.guards }) v.waits v.closed)
]

pay-Sound : (rounds : List (List ℕ)) (k : ℕ) (s : Semaphore) → Sound s → Sound (pay rounds k s)
unfolding pay
pay-Sound rounds k s v = elim (Option-cases (get_elem? s.owed k)) [
  | inl e ↦ rw (e, pay) v
  | inr (n, e) ↦
      rw (e, pay) (release-Sound rounds n (record s { owed = remove_at k s.owed }) v.waits v.closed)
]

release_part-Sound :
    (rounds : List (List ℕ)) (g n : ℕ) (s : Semaphore)
    → Sound s
    → Sound (or_same s (release_part rounds g n s))
unfolding release_part
release_part-Sound rounds g n s v = elim (Option-cases (get_elem? s.guards g)) [
  | inl e ↦ rw (e, release_part) v
  | inr (m, e) ↦ elim (Bool-cases (leb n m)) [
    | inl f ↦
        rw (e, release_part, f)
          (release-Sound rounds n (record s { guards = set s.guards g (m - n) }) v.waits v.closed)
    | inr f ↦ rw (e, release_part, f) v
  ]
]

pub step-Sound : (e : Event) (s : Semaphore) → Sound s → Sound (step e s)
unfolding step
step-Sound (tries n) s v = try_acquire-Sound n s v
step-Sound (acquires n) s v = acquire-Sound n s v
step-Sound (collects i) s v = elim (Option-cases (get_elem? s.futures i)) [
  | inl e ↦ rw (e, step) v
  | inr (f, e) ↦ rw (e, step) (later_poll-Sound f.waker i s v)
]
step-Sound (gives_up i) s v = give_up-Sound i s v
step-Sound (enqueues i task) s v = elim (Option-cases (get_elem? s.futures i)) [
  | inl e ↦ rw (e, step) v
  | inr (f, e) ↦ rw (e, step) (first_poll-Sound f.waker i task s f e refl v)
]
step-Sound (drops_guard rounds g) s v = drop_guard-Sound rounds g s v
step-Sound (pays rounds k) s v = pay-Sound rounds k s v
step-Sound (releases rounds n) s v = release-Sound rounds n s v.waits v.closed
step-Sound (releases_part rounds g n) s v = release_part-Sound rounds g n s v

pub new-Sound : (n : ℕ) → Sound (new n)
unfolding new
new-Sound n = record { waits = (tt, tt); live = inr refl; closed = inl refl }

run-Sound : (es : List Event) (s : Semaphore) → Sound s → Sound (run es s)
unfolding run
run-Sound [] s v = v
run-Sound (e ∷ es) s v = run-Sound es (step e s) (step-Sound e s v)

-- After every sequence of atomic steps from a new semaphore the queue holds distinct futures that
-- have not been served; the counter is 0 while the queue is not empty; and either a release is
-- still owed, or the queue is empty with nothing set aside, or its head waits for more than is
-- set aside.
pub run-new-Sound : (n : ℕ) (es : List Event) → Sound (run es (new n))
run-new-Sound n es = run-Sound es (new n) (new-Sound n)
