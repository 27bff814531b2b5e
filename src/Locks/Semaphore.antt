-- ===== src/Locks/Semaphore.antt =====
-- library/async_locks/src/semaphore.rs: the fair counting semaphore, as steps on one state.
--
-- A step is what the code does without letting another task in between: a compare-exchange on
-- `permits`, a critical section under the queue's lock, or an atomic swap of a waker's status. An
-- `Arc<SemaphoreWaker>` is made by one future, at most once, and shared by it and the queue: the
-- model keeps the waker in the cell of its future, and the queue holds the future's number.
pub mod Permits
pub mod Steps
pub mod Run
pub mod Sound
pub mod Live
pub mod Wakeup
use cos_rs.Base.{
  ℕ, zero, suc, ◌+◌, ◌-◌, Bool, true, false, Option, none, some, List, [], ◌∷◌, ◌++◌, ltb, leb,
  if◌then◌else◌, get_elem?, set,
}

-- `STATUS_WAITING`, `STATUS_ACQUIRED` and `STATUS_GIVEUP`.
pub data Status : Type 0 where
  waiting acquired giveup : Status

pub record Waker : Type 0 where
  pub task : ℕ
  pub status : Status
  pub permits : ℕ

-- `SemaphoreAcquireFuture`; a dropped one stays as long as the queue may hold its waker.
pub record Future : Type 0 where
  pub permits : ℕ
  pub waker : Option Waker

-- `permits` is the atomic counter, `spare` and `queue` are the two parts of the locked queue.
-- `guards` lists what each live guard holds, `owed` the `release` calls that a dropped future has
-- still to make, and `woken` the tasks that were woken, the latest first.
pub record Semaphore : Type 0 where
  pub permits : ℕ
  pub spare : ℕ
  pub queue : List ℕ
  pub futures : List Future
  pub guards : List ℕ
  pub owed : List ℕ
  pub woken : List ℕ

unfoldable pub new : ℕ → Semaphore
new n = record {
  permits = n;
  spare = 0;
  queue = [];
  futures = [];
  guards = [];
  owed = [];
  woken = [];
}

abbrev pub is_waiting : Status → Bool
is_waiting waiting = true
is_waiting acquired = false
is_waiting giveup = false

abbrev pub is_giveup : Status → Bool
is_giveup giveup = true
is_giveup waiting = false
is_giveup acquired = false

-- The waker behind a reference. A number that no future with a waker has is no reference; it reads
-- as one that has given up.
abbrev pub waker_of : Option Future → Waker
waker_of none = record { task = 0; status = giveup; permits = 0 }
waker_of (some f) = elim f.waker [
  | none ↦ record { task = 0; status = giveup; permits = 0 }
  | some w ↦ w
]

abbrev pub deref : List Future → ℕ → Waker
deref fs i = waker_of (get_elem? fs i)

abbrev pub with_status : Status → Future → Future
with_status st f = record f {
  waker = elim f.waker [ none ↦ none | some w ↦ some (record w { status = st }) ];
}

abbrev pub store_status : List Future → ℕ → Status → List Future
store_status fs i st = elim (get_elem? fs i) [ none ↦ fs | some f ↦ set fs i (with_status st f) ]

-- What the swap in `drop` reads decides the amount that `release` is then called with.
abbrev pub owed_by : Future → Option ℕ
owed_by f = elim f.waker [
  | none ↦ none
  | some w ↦ elim w.status [ acquired ↦ some f.permits | _ ↦ some 0 ]
]

abbrev pub push_owed : Option ℕ → List ℕ → List ℕ
push_owed none xs = xs
push_owed (some n) xs = n ∷ xs

-- The first half of `drop` of a future: swap the status. `release` is still to be called.
unfoldable pub give_up : ℕ → Semaphore → Semaphore
give_up i s = elim (get_elem? s.futures i) [
  | none ↦ s
  | some f ↦ record s {
    futures = set s.futures i (with_status giveup f);
    owed = push_owed (owed_by f) s.owed;
  }
]

-- Other tasks may swap statuses while `release` runs: the futures that do so.
unfoldable pub interfere : List ℕ → Semaphore → Semaphore
interfere [] s = s
interfere (i ∷ is) s = interfere is (give_up i s)

-- The exchange from waiting to acquired has succeeded.
unfoldable pub hand_out : ℕ → Semaphore → Semaphore
hand_out i s = record s {
  futures = store_status s.futures i acquired;
  spare = s.spare - (deref s.futures i).permits;
  woken = (deref s.futures i).task ∷ s.woken;
}

-- The end of `release`: what is left goes back to the counter.
unfoldable pub settle : Semaphore → Semaphore
settle s = record s { permits = s.permits + s.spare; spare = 0; queue = [] }

abbrev pub next_round : List (List ℕ) → List ℕ
next_round [] = []
next_round (r ∷ rs) = r

abbrev pub later_rounds : List (List ℕ) → List (List ℕ)
later_rounds [] = []
later_rounds (r ∷ rs) = rs

-- The loop of `release` over the queue. `rounds` says which futures are dropped between the load
-- and the exchange of each round; they can make the exchange fail.
unfoldable pub serve : List (List ℕ) → List ℕ → Semaphore → Semaphore
serve rounds [] s = settle s
serve rounds (i ∷ rest) s =
    let skip = serve rounds rest s in
    let after = interfere (next_round rounds) s in
    let continued = serve (later_rounds rounds) rest (hand_out i after) in
    if is_giveup (deref s.futures i).status
    then skip
    else if ltb s.spare (deref s.futures i).permits
    then record s { queue = i ∷ rest }
    else if is_waiting (deref after.futures i).status
    then continued
    else record after { queue = i ∷ rest }

unfoldable pub release : List (List ℕ) → ℕ → Semaphore → Semaphore
release rounds n s = serve rounds s.queue (record s { spare = s.spare + n })

-- The compare-exchange loop of `try_acquire`: one round where nobody writes `permits` in between.
unfoldable pub try_acquire : ℕ → Semaphore → Option Semaphore
try_acquire n s =
    if ltb s.permits n
    then none
    else some (record s { permits = s.permits - n; guards = n ∷ s.guards })

-- `acquire` makes a future, and touches nothing.
unfoldable pub acquire : ℕ → Semaphore → Semaphore
acquire n s = record s { futures = s.futures ++ record { permits = n; waker = none } ∷ [] }

-- `queue`: the counter is emptied into the locked part, so that `try_acquire` cannot overtake.
unfoldable pub enqueue : ℕ → ℕ → Semaphore → Semaphore
enqueue i task s = elim (get_elem? s.futures i) [
  | none ↦ s
  | some f ↦ record s {
    futures =
        set s.futures i (record f {
          waker = some (record { task = task; status = waiting; permits = f.permits });
        });
    spare = s.spare + s.permits;
    permits = 0;
    queue = s.queue ++ i ∷ [];
  }
]

-- A granted future is polled: what it holds moves to a guard.
unfoldable pub take_grant : ℕ → Semaphore → Semaphore
take_grant i s = elim (get_elem? s.futures i) [
  | none ↦ s
  | some f ↦ record s {
    futures = set s.futures i (record f { permits = 0 });
    guards = f.permits ∷ s.guards;
  }
]

-- A call that fails leaves the semaphore as it was.
abbrev pub or_same : Semaphore → Option Semaphore → Semaphore
or_same s none = s
or_same s (some s') = s'

pub data Poll : Type 0 where
  ready pending : Poll

-- `poll` with nobody in between. The guard of a ready poll is the head of `guards`.
abbrev pub poll_status : Status → Semaphore → Semaphore → Poll × Semaphore
poll_status acquired granted s = (ready, granted)
poll_status waiting granted s = (pending, s)
poll_status giveup granted s = (pending, s)

unfoldable pub poll_waker : Option Waker → ℕ → ℕ → ℕ → Semaphore → Poll × Semaphore
poll_waker (some w) i n task s = poll_status w.status (take_grant i s) s
poll_waker none i n task s = elim (try_acquire n s) [
  | some s' ↦ (ready, s')
  | none ↦ (pending, release [] 0 (enqueue i task s))
]

unfoldable pub poll : ℕ → ℕ → Semaphore → Poll × Semaphore
poll i task s = elim (get_elem? s.futures i) [
  | none ↦ (pending, s)
  | some f ↦ poll_waker f.waker i f.permits task s
]

-- `drop` of a future with nobody in between.
unfoldable pub drop_future : ℕ → Semaphore → Semaphore
drop_future i s = elim (get_elem? s.futures i) [
  | none ↦ s
  | some f ↦ elim (owed_by f) [
    | none ↦ s
    | some n ↦ release [] n (record (give_up i s) { owed = s.owed })
  ]
]

abbrev pub remove_at : ℕ → List ℕ → List ℕ
remove_at i [] = []
remove_at zero (x ∷ xs) = xs
remove_at (suc i) (x ∷ xs) = x ∷ remove_at i xs

-- `drop` of a guard.
unfoldable pub drop_guard : List (List ℕ) → ℕ → Semaphore → Semaphore
drop_guard rounds g s = elim (get_elem? s.guards g) [
  | none ↦ s
  | some n ↦ release rounds n (record s { guards = remove_at g s.guards })
]

-- `release_part`; `none` is the failed assertion.
unfoldable pub release_part : List (List ℕ) → ℕ → ℕ → Semaphore → Option Semaphore
release_part rounds g n s = elim (get_elem? s.guards g) [
  | none ↦ none
  | some held ↦
      if leb n held
      then some (release rounds n (record s { guards = set s.guards g (held - n) }))
      else none
]

-- The `release` that a dropped future owes.
unfoldable pub pay : List (List ℕ) → ℕ → Semaphore → Semaphore
pay rounds k s = elim (get_elem? s.owed k) [
  | none ↦ s
  | some n ↦ release rounds n (record s { owed = remove_at k s.owed })
]
