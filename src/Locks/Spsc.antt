-- ===== src/Locks/Spsc.antt =====
-- library/async_locks/src/channel/spsc.rs: the channel with one sender and one receiver, as steps on
-- one state.
--
-- A step is what the code does without letting the other side in between: an operation on a
-- semaphore, an access to the slot that a permit protects, or an atomic access to a state. Each
-- semaphore has one user that takes permits and one that releases them, so it is modelled by the
-- number of permits that its user can take: in the counter, or granted to its waiting future. A poll
-- and its load of the state are one step; the two looks of `try_recv` are two.
pub mod Slots
pub mod Weights
pub mod Moves
pub mod Sound
pub mod Fifo
pub mod Lost
use cos_rs.Base.{
  ℕ, zero, suc, ◌+◌, ◌%◌, Bool, true, false, Option, none, some, List, [], ◌∷◌, ◌++◌, get_elem?,
  set, replicate, ltb, ◌==◌, if◌then◌else◌,
}

-- `STATE_IDLE`, `STATE_WAITING` and `STATE_DROP`.
pub data ChannelState : Type 0 where
  state_idle state_waiting state_drop : ChannelState

-- Where the sender is in its call; `acquiring` is a `SendReserveFuture` in that state.
pub data SendPhase (A : Type 0) : Type 0 where
  ready : SendPhase A
  acquiring : A → SendPhase A
  reserved : A → SendPhase A
  written : SendPhase A
  gone : SendPhase A

-- Where the receiver is; `missed` is a `try_recv` that got no permit, and `panicked` is the failed `expect` of `recv_solt`.
pub data ReceivePhase (A : Type 0) : Type 0 where
  ready acquiring reserved missed : ReceivePhase A
  taken : A → ReceivePhase A
  panicked gone : ReceivePhase A

pub record Channel (A : Type 0) : Type 0 where
  pub buffer : List (Option A)
  pub size : ℕ
  pub producer : ℕ
  pub consumer : ℕ
  pub txstate : ChannelState
  pub txwaker : Option ℕ
  pub rxstate : ChannelState
  pub rxwaker : Option ℕ
  pub send_index : ℕ
  pub lost_receiver : Bool
  pub send_phase : SendPhase A
  pub receive_index : ℕ
  pub lost_sender : Bool
  pub receive_phase : ReceivePhase A
  pub woken : List ℕ

abbrev pub is_drop : ChannelState → Bool
is_drop state_drop = true
is_drop state_idle = false
is_drop state_waiting = false

-- `compare_exchange(STATE_WAITING, STATE_IDLE)`, and the waker that is removed if it succeeds.
abbrev pub stop_waiting : ChannelState → ChannelState
stop_waiting state_waiting = state_idle
stop_waiting state_idle = state_idle
stop_waiting state_drop = state_drop

abbrev pub waker_after : ChannelState → Option ℕ → Option ℕ
waker_after state_waiting waker = none
waker_after state_idle waker = waker
waker_after state_drop waker = waker

-- What a drop wakes.
abbrev pub wake : ChannelState → Option ℕ → List ℕ → List ℕ
wake state_waiting (some task) woken = task ∷ woken
wake state_waiting none woken = woken
wake state_idle waker woken = woken
wake state_drop waker woken = woken

module _ {A : Type 0} where
  -- `channel`, for a size of at least 1.
  unfoldable pub channel : ℕ → Channel A
  channel size = record {
    buffer = replicate size none;
    size = size;
    producer = size;
    consumer = 0;
    txstate = state_idle;
    txwaker = none;
    rxstate = state_idle;
    rxwaker = none;
    send_index = 0;
    lost_receiver = false;
    send_phase = ready;
    receive_index = 0;
    lost_sender = false;
    receive_phase = ready;
    woken = [];
  }

  -- `try_send` up to the write of the slot: the check for a lost receiver, then `try_acquire(1)`.
  unfoldable pub try_reserve : A → Channel A → Channel A
  try_reserve data_in s = elim s.lost_receiver [
    | true ↦ s
    | false ↦ elim (is_drop s.txstate) [
      | true ↦ record s { lost_receiver = true }
      | false ↦ elim s.producer [
        | zero ↦ s
        | suc n ↦ record s { producer = n; send_phase = reserved data_in }
      ]
    ]
  ]

  -- `send` up to its future, whose first state is `Init`.
  unfoldable pub send_init : ℕ → A → Channel A → Channel A
  send_init task data_in s = elim s.lost_receiver [
    | true ↦ s
    | false ↦ elim s.txstate [
      | state_idle ↦ record s {
        txwaker = some task;
        txstate = state_waiting;
        send_phase = acquiring data_in;
      }
      | _ ↦ record s { txwaker = none; lost_receiver = true }
    ]
  ]

  -- A poll of the future in `Acquiring`.
  unfoldable pub send_poll : A → Channel A → Channel A
  send_poll data_in s = elim (is_drop s.txstate) [
    | true ↦ record s { lost_receiver = true; send_phase = ready }
    | false ↦ elim s.producer [
      | zero ↦ s
      | suc n ↦ record s {
        producer = n;
        txwaker = waker_after s.txstate s.txwaker;
        txstate = stop_waiting s.txstate;
        send_phase = reserved data_in;
      }
    ]
  ]

  -- The future is dropped in `Acquiring`.
  unfoldable pub send_cancel : Channel A → Channel A
  send_cancel s = record s {
    txwaker = waker_after s.txstate s.txwaker;
    txstate = stop_waiting s.txstate;
    send_phase = ready;
  }

  -- The two halves of `write_solt`.
  unfoldable pub write_slot : A → Channel A → Channel A
  write_slot data_in s = record s {
    buffer = set s.buffer (s.send_index % s.size) (some data_in);
    send_index = s.send_index + 1;
    send_phase = written;
  }

  unfoldable pub release_consumer : Channel A → Channel A
  release_consumer s = record s { consumer = s.consumer + 1; send_phase = ready }

  unfoldable pub drop_sender : Channel A → Channel A
  drop_sender s = record s {
    rxstate = state_drop;
    rxwaker = waker_after s.rxstate s.rxwaker;
    woken = wake s.rxstate s.rxwaker s.woken;
    send_phase = gone;
  }

  -- `try_recv` up to the read of the slot; without a permit it goes on to `check_sender`.
  unfoldable pub try_take : Channel A → Channel A
  try_take s = elim s.consumer [
    | suc n ↦ record s { consumer = n; receive_phase = reserved }
    | zero ↦ record s { receive_phase = missed }
  ]

  -- The end of a `try_recv` that found no permit: it returns `SenderLost` if `lost_sender` is true
  -- after this step, else `BufferEmpty`.
  unfoldable pub check_sender : Channel A → Channel A
  check_sender s = elim s.lost_sender [
    | true ↦ record s { receive_phase = ready }
    | false ↦ record s { lost_sender = is_drop s.rxstate; receive_phase = ready }
  ]

  -- `recv` up to its future; it takes a permit without one once the sender is known to be lost.
  unfoldable pub recv_init : ℕ → Channel A → Channel A
  recv_init task s = elim s.lost_sender [
    | true ↦ elim s.consumer [
      | zero ↦ s
      | suc n ↦ record s { consumer = n; receive_phase = reserved }
    ]
    | false ↦ elim s.rxstate [
      | state_idle ↦ record s {
        rxwaker = some task;
        rxstate = state_waiting;
        receive_phase = acquiring;
      }
      | _ ↦ record s { rxwaker = none; lost_sender = true }
    ]
  ]

  unfoldable pub recv_poll : Channel A → Channel A
  recv_poll s = elim (is_drop s.rxstate) [
    | true ↦ record s { lost_sender = true; receive_phase = ready }
    | false ↦ elim s.consumer [
      | zero ↦ s
      | suc n ↦ record s {
        consumer = n;
        rxwaker = waker_after s.rxstate s.rxwaker;
        rxstate = stop_waiting s.rxstate;
        receive_phase = reserved;
      }
    ]
  ]

  unfoldable pub recv_cancel : Channel A → Channel A
  recv_cancel s = record s {
    rxwaker = waker_after s.rxstate s.rxwaker;
    rxstate = stop_waiting s.rxstate;
    receive_phase = ready;
  }

  -- `slot(..).take().expect(..)`.
  abbrev pub take_from : Option (Option A) → Channel A → Channel A
  take_from (some (some a)) s = record s {
    buffer = set s.buffer (s.receive_index % s.size) none;
    receive_index = s.receive_index + 1;
    receive_phase = taken a;
  }
  take_from (some none) s = record s { receive_phase = panicked }
  take_from none s = record s { receive_phase = panicked }

  -- The two halves of `recv_solt`.
  unfoldable pub take_slot : Channel A → Channel A
  take_slot s = take_from (get_elem? s.buffer (s.receive_index % s.size)) s

  unfoldable pub release_producer : Channel A → Channel A
  release_producer s = record s { producer = s.producer + 1; receive_phase = ready }

  unfoldable pub drop_receiver : Channel A → Channel A
  drop_receiver s = record s {
    txstate = state_drop;
    txwaker = waker_after s.txstate s.txwaker;
    woken = wake s.txstate s.txwaker s.woken;
    receive_phase = gone;
  }
