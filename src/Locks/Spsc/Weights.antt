-- ===== src/Locks/Spsc/Weights.antt =====
-- What the steps of the channel that do not touch a slot keep: the slots, the indices, and where the
-- permits are.
use cos_rs.Base.{ℕ, ◌+◌, ◌≡◌, Bool, true, false, arith}
use cos_rs.Locks.Spsc.{
  SendPhase, ReceivePhase, Channel, try_reserve, send_init, send_poll, send_cancel,
  release_consumer, drop_sender, try_take, check_sender, recv_init, recv_poll, recv_cancel,
  release_producer, drop_receiver,
}

-- Permits that the two sides hold: the right to write a slot, a slot that is written and not yet
-- announced, the right to take a slot, and a slot that is free and not yet announced.
abbrev pub to_write : {A : Type 0} → SendPhase A → ℕ
to_write (SendPhase.reserved a) = 1
to_write _ = 0

abbrev pub to_announce : {A : Type 0} → SendPhase A → ℕ
to_announce SendPhase.written = 1
to_announce _ = 0

abbrev pub to_take : {A : Type 0} → ReceivePhase A → ℕ
to_take ReceivePhase.reserved = 1
to_take _ = 0

abbrev pub to_free : {A : Type 0} → ReceivePhase A → ℕ
to_free (ReceivePhase.taken a) = 1
to_free _ = 0

abbrev pub is_panicked : {A : Type 0} → ReceivePhase A → Bool
is_panicked ReceivePhase.panicked = true
is_panicked _ = false

abbrev pub free_of : {A : Type 0} → Channel A → ℕ
free_of c = c.producer + to_write c.send_phase + to_free c.receive_phase

abbrev pub filled_of : {A : Type 0} → Channel A → ℕ
filled_of c = c.consumer + to_announce c.send_phase + to_take c.receive_phase

abbrev pub Keeps : {A : Type 0} → Channel A → Channel A → Type 0
Keeps c c' =
    (c'.buffer ≡ c.buffer)
    × (c'.size ≡ c.size)
    × (c'.send_index ≡ c.send_index)
    × (c'.receive_index ≡ c.receive_index)
    × (free_of c' ≡ free_of c)
    × (filled_of c' ≡ filled_of c)
    × (is_panicked c'.receive_phase ≡ is_panicked c.receive_phase)

module _ {A : Type 0} where
  pub Keeps-try_reserve :
      (a : A) (c : Channel A) → c.send_phase ≡ SendPhase.ready → Keeps c (try_reserve a c)
  unfolding try_reserve
  Keeps-try_reserve a c e = ground arith

  pub Keeps-send_init :
      (task : ℕ) (a : A) (c : Channel A)
      → c.send_phase ≡ SendPhase.ready
      → Keeps c (send_init task a c)
  unfolding send_init
  Keeps-send_init task a c e = ground arith

  pub Keeps-send_poll :
      (a : A) (c : Channel A) → c.send_phase ≡ SendPhase.acquiring a → Keeps c (send_poll a c)
  unfolding send_poll
  Keeps-send_poll a c e = ground arith

  pub Keeps-send_cancel :
      (a : A) (c : Channel A) → c.send_phase ≡ SendPhase.acquiring a → Keeps c (send_cancel c)
  unfolding send_cancel
  Keeps-send_cancel a c e = ground arith

  pub Keeps-release_consumer :
      (c : Channel A) → c.send_phase ≡ SendPhase.written → Keeps c (release_consumer c)
  unfolding release_consumer
  Keeps-release_consumer c e = ground arith

  pub Keeps-drop_sender : (c : Channel A) → c.send_phase ≡ SendPhase.ready → Keeps c (drop_sender c)
  unfolding drop_sender
  Keeps-drop_sender c e = ground arith

  pub Keeps-try_take : (c : Channel A) → c.receive_phase ≡ ReceivePhase.ready → Keeps c (try_take c)
  unfolding try_take
  Keeps-try_take c e = ground arith

  pub Keeps-check_sender :
      (c : Channel A) → c.receive_phase ≡ ReceivePhase.missed → Keeps c (check_sender c)
  unfolding check_sender
  Keeps-check_sender c e = ground arith

  pub Keeps-recv_init :
      (task : ℕ) (c : Channel A) → c.receive_phase ≡ ReceivePhase.ready → Keeps c (recv_init task c)
  unfolding recv_init
  Keeps-recv_init task c e = ground arith

  pub Keeps-recv_poll :
      (c : Channel A) → c.receive_phase ≡ ReceivePhase.acquiring → Keeps c (recv_poll c)
  unfolding recv_poll
  Keeps-recv_poll c e = ground arith

  pub Keeps-recv_cancel :
      (c : Channel A) → c.receive_phase ≡ ReceivePhase.acquiring → Keeps c (recv_cancel c)
  unfolding recv_cancel
  Keeps-recv_cancel c e = ground arith

  pub Keeps-release_producer :
      (a : A) (c : Channel A)
      → c.receive_phase ≡ ReceivePhase.taken a
      → Keeps c (release_producer c)
  unfolding release_producer
  Keeps-release_producer a c e = ground arith

  pub Keeps-drop_receiver :
      (c : Channel A) → c.receive_phase ≡ ReceivePhase.ready → Keeps c (drop_receiver c)
  unfolding drop_receiver
  Keeps-drop_receiver c e = ground arith
