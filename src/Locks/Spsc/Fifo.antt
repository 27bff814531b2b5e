-- ===== src/Locks/Spsc/Fifo.antt =====
-- The order of what passes through a channel of library/async_locks/src/channel/spsc.rs.
use cos_rs.Base.{
  ℕ, ◌≤◌, ◌<◌, ◌≡◌, refl, false, none, List, [], ◌∷◌, ◌++◌, length, length-replicate, arith,
}
use cos_rs.Locks.Spsc.{channel}
use cos_rs.Locks.Spsc.Moves.{Move, by_sender, by_receiver, History, step, run, fresh}
use cos_rs.Locks.Spsc.Weights.{is_panicked}
use cos_rs.Locks.Spsc.Sound.{IsSound, IsSound-sender_move, IsSound-receiver_move}

abbrev SoundHistory : {A : Type 0} → ℕ → History A → Type 0
SoundHistory n h = (pending : List _) × IsSound n h.state h.sent h.got pending

module _ {A : Type 0} {n : ℕ} where
  step-SoundHistory : (m : Move A) (h : History A) → SoundHistory n h → SoundHistory n (step m h)
  step-SoundHistory (by_sender m) h s =
      IsSound-sender_move m h.state.send_phase h.state h.sent h.got s.0 refl s.1
  step-SoundHistory (by_receiver m) h s =
      IsSound-receiver_move m h.state.receive_phase h.state h.sent h.got s.0 refl s.1

  run-SoundHistory :
      (ms : List (Move A)) (h : History A) → SoundHistory n h → SoundHistory n (run ms h)
  unfolding run
  run-SoundHistory [] h s = s
  run-SoundHistory (m ∷ ms) h s = run-SoundHistory ms (step m h) (step-SoundHistory m h s)

  fresh-SoundHistory : 0 < n → SoundHistory n (fresh {A = A} n)
  unfolding fresh channel
  fresh-SoundHistory h = (
    [],
    record {
      size_positive = h;
      buffer_length = length-replicate n none;
      in_order = refl;
      next_send = refl;
      held = tt;
      free_slots = omega arith;
      filled_slots = refl;
      capacity = refl;
      no_panic = refl;
    },
  )

module _ {A : Type 0} where
  -- For every size of at least 1 and every sequence of steps of the two sides of a new channel,
  -- what was written is what was taken followed by at most size further values, in order, and the
  -- receiver never finds an empty slot.
  pub sent-run :
      (size : ℕ) (ms : List (Move A))
      → 0 < size
      → let h = run ms (fresh size) in
        (pending : List A) × (h.sent ≡ h.got ++ pending)
        × (length pending ≤ size)
        × (is_panicked h.state.receive_phase ≡ false)
  sent-run size ms positive =
      let (pending, i) = run-SoundHistory ms (fresh size) (fresh-SoundHistory positive) in
      (pending, i.in_order, omega (arith, i.free_slots, i.capacity), i.no_panic)
