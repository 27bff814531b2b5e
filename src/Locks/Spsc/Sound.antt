-- ===== src/Locks/Spsc/Sound.antt =====
-- The steps on a channel of library/async_locks/src/channel/spsc.rs keep what its slots hold.
use native.Mathlib.Nat.{mod-lt}
use cos_rs.Base.{
  ℕ, suc, ◌+◌, ◌%◌, ◌<◌, ◌≡◌, refl, sym, ap, ◌∙◌, subst, false, none, some, List, [], ◌∷◌, ◌++◌,
  length, append_assoc, append-nil, length-append, set, length-set, get_elem?-set_self, arith,
}
use cos_rs.Locks.Spsc.{SendPhase, ReceivePhase, Channel, write_slot, take_from, take_slot}
use cos_rs.Locks.Spsc.Moves.{
  start_try_send, start_send, poll_send, write_next, announce_send, cancel_send, leave_sender,
  start_try_recv, finish_try_recv, start_recv, poll_recv, take_next, announce_recv, cancel_recv,
  leave_receiver, SenderMove, ReceiverMove, sender_move, receiver_move, written_by, value_of,
  taken_by,
}
use cos_rs.Locks.Spsc.Slots.{get_elem?-lt, Holds, Holds-set_behind, Holds-set_before, Holds-snoc}
use cos_rs.Locks.Spsc.Weights.{
  to_write, to_announce, to_take, to_free, is_panicked, free_of, filled_of, Keeps,
  Keeps-try_reserve, Keeps-send_init, Keeps-send_poll, Keeps-send_cancel, Keeps-release_consumer,
  Keeps-drop_sender, Keeps-try_take, Keeps-check_sender, Keeps-recv_init, Keeps-recv_poll,
  Keeps-recv_cancel, Keeps-release_producer, Keeps-drop_receiver,
}

-- The slots of a channel hold what was sent and not yet received, and each slot has one permit.
pub record IsSound {A : Type 0} (n : ℕ) (c : Channel A) (sent got pending : List A) : Type 0 where
  pub size_positive : 0 < c.size
  pub buffer_length : length c.buffer ≡ c.size
  pub in_order : sent ≡ got ++ pending
  pub next_send : c.send_index ≡ c.receive_index + length pending
  pub held : Holds c.buffer c.size c.receive_index pending
  pub free_slots : free_of c + length pending ≡ c.size
  pub filled_slots : filled_of c ≡ length pending
  pub capacity : c.size ≡ n
  pub no_panic : is_panicked c.receive_phase ≡ false

module _ {A : Type 0} {n : ℕ} where
  IsSound-Keeps :
      (c c' : Channel A) (sent got pending : List A)
      → Keeps c c'
      → IsSound n c sent got pending
      → IsSound n c' sent got pending
  IsSound-Keeps c c' sent got pending k i = record {
    size_positive = subst (λ n. 0 < n) (sym k.1) i.size_positive;
    buffer_length = ap length k.0 ∙ i.buffer_length ∙ sym k.1;
    in_order = i.in_order;
    next_send = k.2 ∙ i.next_send ∙ ap (λ n. n + length pending) (sym k.3);
    held =
        subst (λ b. Holds b c'.size c'.receive_index pending) (sym k.0)
          (subst (λ n. Holds c.buffer n c'.receive_index pending) (sym k.1)
            (subst (λ n. Holds c.buffer c.size n pending) (sym k.3) i.held));
    free_slots = ap (λ n. n + length pending) k.4 ∙ i.free_slots ∙ sym k.1;
    filled_slots = k.5 ∙ i.filled_slots;
    capacity = k.1 ∙ i.capacity;
    no_panic = k.6 ∙ i.no_panic;
  }

  -- A write takes the slot behind the last value.
  IsSound-write_slot :
      (a : A) (c : Channel A) (sent got pending : List A)
      → c.send_phase ≡ SendPhase.reserved a
      → IsSound n c sent got pending
      → IsSound n (write_slot a c) (sent ++ a ∷ []) got (pending ++ a ∷ [])
  unfolding write_slot
  IsSound-write_slot a c sent got pending e i =
      let room : c.receive_index + length pending < c.receive_index + c.size =
        omega (arith, i.free_slots, ap to_write e) in
      let grown = length-append pending (a ∷ []) in
      let had : to_write c.send_phase ≡ 1 = ap to_write e in
      let none_out : to_announce c.send_phase ≡ 0 = ap to_announce e in
      let found = get_elem?-lt c.buffer (c.send_index % c.size) (
        subst (λ n. c.send_index % c.size < n) (sym i.buffer_length)
          (mod-lt c.send_index i.size_positive)) in
      record {
        size_positive = i.size_positive;
        buffer_length = length-set c.buffer (c.send_index % c.size) (some a) ∙ i.buffer_length;
        in_order = ap (λ l. l ++ a ∷ []) i.in_order ∙ append_assoc got pending (a ∷ []);
        next_send = omega (arith, i.next_send, grown);
        held =
            Holds-snoc (set c.buffer (c.send_index % c.size) (some a)) c.size c.receive_index
              c.send_index a pending i.next_send
              (get_elem?-set_self c.buffer (c.send_index % c.size) (some a) found.1)
              (Holds-set_behind c.buffer c.size c.receive_index c.send_index (some a) pending
                (omega (arith, i.next_send)) (omega (arith, i.next_send)) i.held);
        free_slots = omega (arith, i.free_slots, grown, had);
        filled_slots = omega (arith, i.filled_slots, grown, none_out);
        capacity = i.capacity;
        no_panic = i.no_panic;
      }

  -- A permit to take stands for a value, so the slot is not empty, and what it held comes first.
  IsSound-take_slot :
      (c : Channel A)
      → (sent got pending : List A) → c.receive_phase ≡ ReceivePhase.reserved
      → IsSound n c sent got pending
      → (rest : List A) × IsSound n
          (take_slot c)
          sent
          (got ++ value_of (take_slot c).receive_phase)
          rest
  unfolding take_slot
  IsSound-take_slot c sent got [] e i = absurd (omega (arith, i.filled_slots, ap to_take e))
  IsSound-take_slot c sent got (a ∷ rest) e i =
      let found : take_slot c ≡ take_from (some (some a)) c = ap (λ o. take_from o c) i.held.0 in
      (
        rest,
        rw found record {
          size_positive = i.size_positive;
          buffer_length = length-set c.buffer (c.receive_index % c.size) none ∙ i.buffer_length;
          in_order = i.in_order ∙ sym (append_assoc got (a ∷ []) rest);
          next_send = omega (arith, i.next_send);
          held =
              subst (λ n. Holds (set c.buffer (c.receive_index % c.size) none) c.size n rest)
                (omega arith)
                (Holds-set_before c.buffer c.size (suc c.receive_index) c.receive_index none rest
                  (omega arith) (omega (arith, i.free_slots)) i.held.1);
          free_slots = omega (arith, i.free_slots, ap to_free e);
          filled_slots = omega (arith, i.filled_slots, ap to_take e);
          capacity = i.capacity;
          no_panic = refl;
        },
      )

  IsSound-idle :
      (c : Channel A) (sent got pending : List A)
      → IsSound n c sent got pending
      → IsSound n c (sent ++ []) got pending
  IsSound-idle c sent got pending i =
      subst (λ l. IsSound n c l got pending) (sym (append-nil sent)) i

  IsSound-sender :
      (c c' : Channel A) (sent got pending : List A)
      → Keeps c c'
      → IsSound n c sent got pending
      → (rest : List A) × IsSound n c' (sent ++ []) got rest
  IsSound-sender c c' sent got pending k i =
      (pending, IsSound-idle c' sent got pending (IsSound-Keeps c c' sent got pending k i))

  pub IsSound-sender_move :
      (m : SenderMove A) (phase : SendPhase A) (c : Channel A) (sent got pending : List A)
      → c.send_phase ≡ phase
      → IsSound n c sent got pending
      → (rest : List A) × IsSound n (sender_move m phase c) (sent ++ written_by m phase) got rest
  IsSound-sender_move (start_try_send a) SendPhase.ready c sent got pending e i =
      IsSound-sender c _ sent got pending (Keeps-try_reserve a c e) i
  IsSound-sender_move (start_send task a) SendPhase.ready c sent got pending e i =
      IsSound-sender c _ sent got pending (Keeps-send_init task a c e) i
  IsSound-sender_move leave_sender SendPhase.ready c sent got pending e i =
      IsSound-sender c _ sent got pending (Keeps-drop_sender c e) i
  IsSound-sender_move poll_send (SendPhase.acquiring a) c sent got pending e i =
      IsSound-sender c _ sent got pending (Keeps-send_poll a c e) i
  IsSound-sender_move cancel_send (SendPhase.acquiring a) c sent got pending e i =
      IsSound-sender c _ sent got pending (Keeps-send_cancel a c e) i
  IsSound-sender_move announce_send SendPhase.written c sent got pending e i =
      IsSound-sender c _ sent got pending (Keeps-release_consumer c e) i
  IsSound-sender_move write_next (SendPhase.reserved a) c sent got pending e i =
      (pending ++ a ∷ [], IsSound-write_slot a c sent got pending e i)
  IsSound-sender_move _ _ c sent got pending e i = (pending, IsSound-idle c sent got pending i)

  IsSound-receiver :
      (c c' : Channel A) (sent got pending : List A)
      → Keeps c c'
      → IsSound n c sent got pending
      → (rest : List A) × IsSound n c' sent (got ++ []) rest
  IsSound-receiver c c' sent got pending k i = (
    pending,
    subst (λ l. IsSound n c' sent l pending) (sym (append-nil got))
        (IsSound-Keeps c c' sent got pending k i),
  )

  pub IsSound-receiver_move :
      (m : ReceiverMove A) (phase : ReceivePhase A) (c : Channel A) (sent got pending : List A)
      → c.receive_phase ≡ phase
      → IsSound n c sent got pending
      → (rest : List A) × IsSound n (receiver_move m phase c) sent (got ++ taken_by m phase c) rest
  IsSound-receiver_move start_try_recv ReceivePhase.ready c sent got pending e i =
      IsSound-receiver c _ sent got pending (Keeps-try_take c e) i
  IsSound-receiver_move finish_try_recv ReceivePhase.missed c sent got pending e i =
      IsSound-receiver c _ sent got pending (Keeps-check_sender c e) i
  IsSound-receiver_move (start_recv task) ReceivePhase.ready c sent got pending e i =
      IsSound-receiver c _ sent got pending (Keeps-recv_init task c e) i
  IsSound-receiver_move leave_receiver ReceivePhase.ready c sent got pending e i =
      IsSound-receiver c _ sent got pending (Keeps-drop_receiver c e) i
  IsSound-receiver_move poll_recv ReceivePhase.acquiring c sent got pending e i =
      IsSound-receiver c _ sent got pending (Keeps-recv_poll c e) i
  IsSound-receiver_move cancel_recv ReceivePhase.acquiring c sent got pending e i =
      IsSound-receiver c _ sent got pending (Keeps-recv_cancel c e) i
  IsSound-receiver_move announce_recv (ReceivePhase.taken a) c sent got pending e i =
      IsSound-receiver c _ sent got pending (Keeps-release_producer a c e) i
  IsSound-receiver_move take_next ReceivePhase.reserved c sent got pending e i =
      IsSound-take_slot c sent got pending e i
  IsSound-receiver_move _ _ c sent got pending e i =
      (pending, subst (λ l. IsSound n c sent l pending) (sym (append-nil got)) i)
