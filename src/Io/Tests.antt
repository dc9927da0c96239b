-- ===== src/Io/Tests.antt =====
-- Reads from the socket of Sock/Recv/Tests, with deliveries while they copy and wait.
use lwip_amiga.Base.{◌≡◌, refl, ◌≤◌, ◌⊎◌, true, none, some, List, [], ◌∷◌, arith, length}
use lwip_amiga.Sock.State.{have, Socket}
use lwip_amiga.Sock.Recv.{excise, map_urgent, finish, enqueue, tcp_recv_cb}
use lwip_amiga.Sock.Recv.Tests.{plain_socket}
use lwip_amiga.Sock.Wake.{event, wake, wake_urg}
use lwip_amiga.Sock.Callbacks.{Callback, received, callback}
use lwip_amiga.Io.{Pause, returned}
use lwip_amiga.Io.Drain.{
  mode, Progress, whole_run, consume, take_part, take_run, take_next, drain_turn, drain_step,
  drain_loop, chunks, flush_credit,
}
use lwip_amiga.Io.Read.{
  idle_exit, clamp, pass, after_pass, turn, after_wait, recv_loop, pass_mark, tcp_recv,
}
use lwip_amiga.Io.Stream.{begin}
use lwip_amiga.Io.Sound.{Sound}
use lwip_amiga.Io.Ends.{drain_done}

abbrev arriving : Callback
arriving = received none (some ((3 ∷ 4 ∷ []) ∷ (5 ∷ []) ∷ []))

abbrev one_wait : List Pause
one_wait = record { heard = arriving ∷ []; verdict = 0 } ∷ []

-- MSG_WAITALL for five bytes: two are there, and the wait brings the others.
waitall_run :
    (tcp_recv [] plain_socket 5 0x40 [] one_wait).outcome ≡ returned (1 ∷ 2 ∷ 3 ∷ 4 ∷ 5 ∷ [])
unfolding tcp_recv recv_loop mode pass_mark turn after_wait after_pass pass idle_exit flush_credit
    clamp chunks drain_loop drain_step drain_turn take_next whole_run take_part take_run consume
    callback tcp_recv_cb map_urgent finish enqueue excise event wake wake_urg
waitall_run = refl

waitall_credits : (tcp_recv [] plain_socket 5 0x40 [] one_wait).credits ≡ 2 ∷ 3 ∷ []
unfolding tcp_recv recv_loop mode pass_mark turn after_wait after_pass pass idle_exit flush_credit
    clamp chunks drain_loop drain_step drain_turn take_next whole_run take_part take_run consume
    callback tcp_recv_cb map_urgent finish enqueue excise event wake wake_urg
waitall_credits = refl

-- A mark that comes while the first run is copied: the read takes the bytes on both sides of it, and
-- the distance to the mark wraps round below zero.
abbrev marking : List (List Callback)
marking =
    (received (some (record { urg_rcv = true; rcv_up = 0xFFFF_FFFF }))
        (some ((10 ∷ 99 ∷ 11 ∷ 12 ∷ []) ∷ []))
      ∷ [])
    ∷ []

crosses_run :
    let r = tcp_recv [] plain_socket 100 0 marking [] in
    (r.outcome ≡ returned (1 ∷ 2 ∷ 10 ∷ 11 ∷ 12 ∷ []))
    × (r.sock.oob_state ≡ have)
    × (r.sock.oob_mark_dist ≡ 0xFFFF_FFFE)
unfolding tcp_recv recv_loop mode pass_mark turn after_wait after_pass pass idle_exit flush_credit
    clamp chunks drain_loop drain_step drain_turn take_next whole_run take_part take_run consume
    callback tcp_recv_cb map_urgent finish enqueue excise event wake wake_urg
crosses_run = (refl, refl, refl)

-- The socket with a mark after its first byte.
abbrev marked_socket : Socket
marked_socket = record plain_socket { oob_state = have; oob_mark_dist = 1 }

abbrev before : Progress
before = begin plain_socket 0x40 marking

before-Sound : Sound 100 before
unfolding pass_mark mode
before-Sound = record {
  pbufs = (omega arith, tt);
  counted = refl;
  copies = ((((omega arith, tt), tt)), tt);
  room = omega arith;
  most = omega arith;
  paid = λ y. refl;
}

drain_done_example : let e = drain_loop 9 [] 100 before in (100 ≤ length e.out) ⊎ (e.sock.rxq ≡ [])
unfolding pass_mark mode
drain_done_example = drain_done 100 9 [] 100 before before-Sound (omega arith)

abbrev after_first : Progress
after_first = record before {
  sock = record plain_socket { rxq = []; rx_bytes = 0 };
  out = 1 ∷ 2 ∷ [];
  credits = 2 ∷ [];
  copies = [];
}

abbrev quiet_before : Progress
quiet_before = record before { sock = plain_socket; copies = [] }

quiet_before-Sound : Sound 100 quiet_before
quiet_before-Sound = record {
  pbufs = (omega arith, tt);
  counted = refl;
  copies = tt;
  room = omega arith;
  most = omega arith;
  paid = λ y. refl;
}
