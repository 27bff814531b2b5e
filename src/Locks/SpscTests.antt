-- ===== src/Locks/SpscTests.antt =====
-- Runs of the channel of library/async_locks/src/channel/spsc.rs, and the theorems at them.
use cos_rs.Base.{ℕ, ◌≤◌, ◌≡◌, ◌≢◌, refl, true, false, some, List, [], ◌∷◌, ◌++◌, length, arith}
use cos_rs.Locks.Spsc.{
  state_drop, ReceivePhase, channel, try_reserve, send_init, send_poll, write_slot,
  release_consumer, drop_sender, try_take, recv_init, recv_poll, take_slot, release_producer,
}
use cos_rs.Locks.Spsc.Moves.{
  start_try_send, start_send, poll_send, write_next, announce_send, start_recv, poll_recv,
  take_next, announce_recv, Move, by_sender, by_receiver, run, fresh,
}
use cos_rs.Locks.Spsc.Weights.{is_panicked}
use cos_rs.Locks.Spsc.Fifo.{sent-run}
use cos_rs.Locks.Spsc.Lost.{overtaken, drop_sender-wakes, try_recv-overtaken}

-- The receiver waits, two values are sent, the first is taken and its slot is written again.
abbrev traffic : List (Move ℕ)
traffic =
    by_receiver (start_recv 1)
    ∷ by_sender (start_try_send 10)
    ∷ by_sender write_next
    ∷ by_sender (start_send 2 11)
    ∷ by_sender announce_send
    ∷ by_receiver poll_recv
    ∷ by_sender (start_send 2 11)
    ∷ by_sender poll_send
    ∷ by_receiver take_next
    ∷ by_sender write_next
    ∷ by_receiver announce_recv
    ∷ by_sender announce_send
    ∷ by_sender (start_try_send 12)
    ∷ by_sender write_next
    ∷ []

traffic_values :
    ((run traffic (fresh 2)).got ≡ 10 ∷ []) × ((run traffic (fresh 2)).sent ≡ 10 ∷ 11 ∷ 12 ∷ [])
unfolding run fresh channel try_reserve send_init send_poll write_slot release_consumer recv_init
    recv_poll take_slot release_producer
traffic_values = (refl, refl)

sent-run_example :
    let h = run traffic (fresh 2) in
    (pending : List ℕ) × (h.sent ≡ h.got ++ pending)
    × (length pending ≤ 2)
    × (is_panicked h.state.receive_phase ≡ false)
sent-run_example = sent-run 2 traffic (omega arith)

abbrev waiting : List (Move ℕ)
waiting = by_receiver (start_recv 7) ∷ []

waiting_phase : (run waiting (fresh 3)).state.receive_phase ≡ ReceivePhase.acquiring
unfolding run fresh channel recv_init
waiting_phase = refl

waiting_state : (run waiting (fresh 3)).state.rxstate ≢ state_drop
unfolding run fresh channel recv_init
waiting_state e = ground arith

drop_sender-wakes_example :
    let c = (run waiting (fresh 3)).state in
    (task : ℕ) × (c.rxwaker ≡ some task)
    × ((drop_sender c).woken ≡ task ∷ c.woken)
    × ((recv_poll (drop_sender c)).lost_sender ≡ true)
    × ((recv_poll (drop_sender c)).receive_phase ≡ ReceivePhase.ready)
drop_sender-wakes_example = drop_sender-wakes 3 waiting waiting_phase waiting_state

try_recv-overtaken_example :
    let h = run {A = ℕ} (overtaken 5) (fresh 4) in
    (h.state.lost_sender ≡ true)
    × (h.sent ≡ 5 ∷ [])
    × (h.got ≡ [])
    × ((try_take h.state).receive_phase ≡ ReceivePhase.reserved)
try_recv-overtaken_example = try_recv-overtaken 3 5
