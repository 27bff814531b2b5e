-- ===== src/Locks/Spsc/Lost.antt =====
-- What a side of a channel of library/async_locks/src/channel/spsc.rs learns when the other is
-- dropped.
use cos_rs.Base.{
  ℕ, suc, ◌%◌, get_elem?, ◌≡◌, ◌≢◌, refl, subst, Bool, true, false, Option, none, some, List, [],
  ◌∷◌, arith,
}
use cos_rs.Locks.Spsc.{
  ChannelState, state_idle, state_waiting, state_drop, SendPhase, ReceivePhase, Channel, wake,
  channel, try_reserve, send_init, send_poll, send_cancel, write_slot, release_consumer,
  drop_sender, try_take, check_sender, recv_init, recv_poll, recv_cancel, take_from, take_slot,
  release_producer, drop_receiver,
}
use cos_rs.Locks.Spsc.Moves.{
  start_try_send, start_send, poll_send, write_next, announce_send, cancel_send, leave_sender,
  start_try_recv, finish_try_recv, start_recv, poll_recv, take_next, announce_recv, cancel_recv,
  leave_receiver, SenderMove, ReceiverMove, Move, by_sender, by_receiver, History, sender_move,
  receiver_move, step, run, fresh,
}

-- A future in `Acquiring` has its waker in place or the other side is dropped; no other phase leaves
-- the state waiting.
abbrev waits_well : Bool → ChannelState → Option ℕ → Bool
waits_well true state_waiting (some task) = true
waits_well true state_waiting none = false
waits_well true state_idle waker = false
waits_well true state_drop waker = true
waits_well false state_waiting waker = false
waits_well false state_idle waker = true
waits_well false state_drop waker = true

abbrev is_receiving : {A : Type 0} → ReceivePhase A → Bool
is_receiving ReceivePhase.acquiring = true
is_receiving _ = false

abbrev is_sending : {A : Type 0} → SendPhase A → Bool
is_sending (SendPhase.acquiring a) = true
is_sending _ = false

abbrev WaitsWell : {A : Type 0} → Channel A → Type 0
WaitsWell c =
    (waits_well (is_receiving c.receive_phase) c.rxstate c.rxwaker ≡ true)
    × (waits_well (is_sending c.send_phase) c.txstate c.txwaker ≡ true)

WaitsWell-fresh : (A : Type 0) (size : ℕ) → WaitsWell (fresh {A = A} size).state
unfolding fresh channel
WaitsWell-fresh A size = (refl, refl)

wake-waiting :
    (s : ChannelState) (waker : Option ℕ) (woken : List ℕ)
    → waits_well true s waker ≡ true
    → s ≢ state_drop
    → (task : ℕ) × (waker ≡ some task) × (wake s waker woken ≡ task ∷ woken)
wake-waiting state_waiting (some task) woken w alive = (task, refl, refl)
wake-waiting state_waiting none woken w alive = ground arith
wake-waiting state_idle waker woken w alive = ground arith
wake-waiting state_drop waker woken w alive = absurd (alive refl)

module _ {A : Type 0} where
  WaitsWell-sender_move :
      (m : SenderMove A) (phase : SendPhase A) (c : Channel A)
      → c.send_phase ≡ phase
      → WaitsWell c
      → WaitsWell (sender_move m phase c)
  unfolding try_reserve send_init send_poll send_cancel write_slot release_consumer drop_sender
  WaitsWell-sender_move (start_try_send a) SendPhase.ready c e w = ground arith
  WaitsWell-sender_move (start_send task a) SendPhase.ready c e w = ground arith
  WaitsWell-sender_move leave_sender SendPhase.ready c e w = ground arith
  WaitsWell-sender_move poll_send (SendPhase.acquiring a) c e w = ground arith
  WaitsWell-sender_move cancel_send (SendPhase.acquiring a) c e w = ground arith
  WaitsWell-sender_move announce_send SendPhase.written c e w = ground arith
  WaitsWell-sender_move write_next (SendPhase.reserved a) c e w = ground arith
  WaitsWell-sender_move _ _ c e w = w

  WaitsWell-take_from :
      (o : Option (Option A)) (c : Channel A)
      → c.receive_phase ≡ ReceivePhase.reserved
      → WaitsWell c
      → WaitsWell (take_from o c)
  WaitsWell-take_from o c e w = ground arith

  WaitsWell-receiver_move :
      (m : ReceiverMove A) (phase : ReceivePhase A) (c : Channel A)
      → c.receive_phase ≡ phase
      → WaitsWell c
      → WaitsWell (receiver_move m phase c)
  unfolding try_take check_sender recv_init recv_poll recv_cancel take_slot release_producer
      drop_receiver
  WaitsWell-receiver_move start_try_recv ReceivePhase.ready c e w = ground arith
  WaitsWell-receiver_move finish_try_recv ReceivePhase.missed c e w = ground arith
  WaitsWell-receiver_move (start_recv task) ReceivePhase.ready c e w = ground arith
  WaitsWell-receiver_move leave_receiver ReceivePhase.ready c e w = ground arith
  WaitsWell-receiver_move poll_recv ReceivePhase.acquiring c e w = ground arith
  WaitsWell-receiver_move cancel_recv ReceivePhase.acquiring c e w = ground arith
  WaitsWell-receiver_move announce_recv (ReceivePhase.taken a) c e w = ground arith
  WaitsWell-receiver_move take_next ReceivePhase.reserved c e w =
      WaitsWell-take_from (get_elem? c.buffer (c.receive_index % c.size)) c e w
  WaitsWell-receiver_move _ _ c e w = w

  WaitsWell-run :
      (ms : List (Move A)) (h : History A) → WaitsWell h.state → WaitsWell (run ms h).state
  unfolding run
  WaitsWell-run [] h w = w
  WaitsWell-run (by_sender m ∷ ms) h w =
      WaitsWell-run ms (step (by_sender m) h)
        (WaitsWell-sender_move m h.state.send_phase h.state refl w)
  WaitsWell-run (by_receiver m ∷ ms) h w =
      WaitsWell-run ms (step (by_receiver m) h)
        (WaitsWell-receiver_move m h.state.receive_phase h.state refl w)

  drop-wakes :
      (c : Channel A)
      → WaitsWell c
      → c.receive_phase ≡ ReceivePhase.acquiring
      → c.rxstate ≢ state_drop
      → (task : ℕ) × (c.rxwaker ≡ some task)
        × ((drop_sender c).woken ≡ task ∷ c.woken)
        × ((recv_poll (drop_sender c)).lost_sender ≡ true)
        × ((recv_poll (drop_sender c)).receive_phase ≡ ReceivePhase.ready)
  unfolding drop_sender recv_poll
  drop-wakes c w e alive =
      let found =
        wake-waiting c.rxstate c.rxwaker c.woken
          (subst (λ p. waits_well (is_receiving p) c.rxstate c.rxwaker ≡ true) e w.0) alive in
      (found.0, found.1, found.2, refl, refl)

  -- After every sequence of steps on a new channel, if the receiver waits in its future and the
  -- state is not dropped, then its waker is in place, dropping the sender wakes it, and its next
  -- poll ends with the sender known to be lost.
  pub drop_sender-wakes :
      (size : ℕ) (ms : List (Move A))
      → (run ms (fresh size)).state.receive_phase ≡ ReceivePhase.acquiring
      → (run ms (fresh size)).state.rxstate ≢ state_drop
      → let c = (run ms (fresh size)).state in
        (task : ℕ) × (c.rxwaker ≡ some task)
        × ((drop_sender c).woken ≡ task ∷ c.woken)
        × ((recv_poll (drop_sender c)).lost_sender ≡ true)
        × ((recv_poll (drop_sender c)).receive_phase ≡ ReceivePhase.ready)
  drop_sender-wakes size ms e alive =
      drop-wakes (run ms (fresh size)).state
        (WaitsWell-run ms (fresh size) (WaitsWell-fresh A size)) e alive

  abbrev pub overtaken : A → List (Move A)
  overtaken a =
      by_receiver start_try_recv
      ∷ by_sender (start_try_send a)
      ∷ by_sender write_next
      ∷ by_sender announce_send
      ∷ by_sender leave_sender
      ∷ by_receiver finish_try_recv
      ∷ []

  -- For every size of at least 1 and every value, if a sender sends the value and is dropped
  -- between the two looks of try_recv on an empty channel, then try_recv answers that the sender
  -- is lost although the value was sent and not received, and a second try_recv gets a permit.
  pub try_recv-overtaken :
      (size : ℕ) (a : A)
      → let h = run (overtaken a) (fresh (suc size)) in
        (h.state.lost_sender ≡ true)
        × (h.sent ≡ a ∷ [])
        × (h.got ≡ [])
        × ((try_take h.state).receive_phase ≡ ReceivePhase.reserved)
  unfolding run fresh channel try_reserve write_slot release_consumer drop_sender try_take
      check_sender
  try_recv-overtaken size a = (refl, refl, refl, refl)
