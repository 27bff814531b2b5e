-- ===== src/Locks/Spsc/Moves.antt =====
-- library/async_locks/src/channel/spsc.rs: every interleaving of the two sides of a channel.
use cos_rs.Base.{ℕ, List, [], ◌∷◌, ◌++◌}
use cos_rs.Locks.Spsc.{
  SendPhase, ReceivePhase, Channel, channel, try_reserve, send_init, send_poll, send_cancel,
  write_slot, release_consumer, drop_sender, try_take, check_sender, recv_init, recv_poll,
  recv_cancel, take_slot, release_producer, drop_receiver,
}

-- The steps that each side can take next.
pub data SenderMove (A : Type 0) : Type 0 where
  start_try_send : A → SenderMove A
  start_send : ℕ → A → SenderMove A
  poll_send write_next announce_send cancel_send leave_sender : SenderMove A

pub data ReceiverMove (A : Type 0) : Type 0 where
  start_try_recv finish_try_recv : ReceiverMove A
  start_recv : ℕ → ReceiverMove A
  poll_recv take_next announce_recv cancel_recv leave_receiver : ReceiverMove A

pub data Move (A : Type 0) : Type 0 where
  by_sender : SenderMove A → Move A
  by_receiver : ReceiverMove A → Move A

-- A channel with the values that went into its slots and those that came out, in order.
pub record History (A : Type 0) : Type 0 where
  pub state : Channel A
  pub sent : List A
  pub got : List A

module _ {A : Type 0} where
  -- A step happens where the phase of its side allows it.
  abbrev pub sender_move : SenderMove A → SendPhase A → Channel A → Channel A
  sender_move (start_try_send a) SendPhase.ready c = try_reserve a c
  sender_move (start_send task a) SendPhase.ready c = send_init task a c
  sender_move leave_sender SendPhase.ready c = drop_sender c
  sender_move poll_send (SendPhase.acquiring a) c = send_poll a c
  sender_move cancel_send (SendPhase.acquiring a) c = send_cancel c
  sender_move write_next (SendPhase.reserved a) c = write_slot a c
  sender_move announce_send SendPhase.written c = release_consumer c
  sender_move _ _ c = c

  abbrev pub receiver_move : ReceiverMove A → ReceivePhase A → Channel A → Channel A
  receiver_move start_try_recv ReceivePhase.ready c = try_take c
  receiver_move finish_try_recv ReceivePhase.missed c = check_sender c
  receiver_move (start_recv task) ReceivePhase.ready c = recv_init task c
  receiver_move leave_receiver ReceivePhase.ready c = drop_receiver c
  receiver_move poll_recv ReceivePhase.acquiring c = recv_poll c
  receiver_move cancel_recv ReceivePhase.acquiring c = recv_cancel c
  receiver_move take_next ReceivePhase.reserved c = take_slot c
  receiver_move announce_recv (ReceivePhase.taken a) c = release_producer c
  receiver_move _ _ c = c

  -- What a step puts into a slot, and what it has taken out of one.
  abbrev pub written_by : SenderMove A → SendPhase A → List A
  written_by write_next (SendPhase.reserved a) = a ∷ []
  written_by _ _ = []

  abbrev pub value_of : ReceivePhase A → List A
  value_of (ReceivePhase.taken a) = a ∷ []
  value_of _ = []

  abbrev pub taken_by : ReceiverMove A → ReceivePhase A → Channel A → List A
  taken_by take_next ReceivePhase.reserved c = value_of (take_slot c).receive_phase
  taken_by _ _ _ = []

  abbrev pub step : Move A → History A → History A
  step (by_sender m) h = record {
    state = sender_move m h.state.send_phase h.state;
    sent = h.sent ++ written_by m h.state.send_phase;
    got = h.got;
  }
  step (by_receiver m) h = record {
    state = receiver_move m h.state.receive_phase h.state;
    sent = h.sent;
    got = h.got ++ taken_by m h.state.receive_phase h.state;
  }

  unfoldable pub run : List (Move A) → History A → History A
  run [] h = h
  run (m ∷ ms) h = run ms (step m h)

  unfoldable pub fresh : ℕ → History A
  fresh size = record { state = channel size; sent = []; got = [] }
