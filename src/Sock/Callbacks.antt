-- ===== src/Sock/Callbacks.antt =====
-- The other lwIP callbacks of sb_socket.c on a socket, and its datagram queue. A callback with a
-- NULL argument does nothing to a socket and is not modelled; `nagle` tells of a call of
-- `tcp_nagle_disable`, and lwIP's loopback test is a parameter.
pub mod Wakes
mod Tests
use lwip_amiga.Base.{
  ℕ, zero, suc, ◌+◌, ◌%◌, Bool, true, false, ◌&&◌, ◌||◌, Option, none, some, List, [], ◌∷◌, ◌++◌,
  ◌==◌, ltb, leb, if◌then◌else◌, bit_or, u32_mod,
}
use lwip_amiga.Sock.State.{Dgram, Chain, Socket, Opener}
use lwip_amiga.Sock.Wake.{
  Signals, LwipErr, err_ok, err_rst, map_err, event_wake, fd_connect, fd_read, fd_write, fd_error,
  fd_close,
}
use lwip_amiga.Sock.Recv.{Urgent, tcp_recv_cb}

unfoldable pub tcp_sent_cb : List Opener → Socket → Socket × Signals
tcp_sent_cb openers s = event_wake openers s fd_write

abbrev pub is_err_rst : LwipErr → Bool
is_err_rst err_rst = true
is_err_rst _ = false

-- The pcb is already gone.
unfoldable pub tcp_err_cb : List Opener → Socket → LwipErr → Socket × Signals
tcp_err_cb openers s e =
    event_wake openers
      (record s {
        pcb = false;
        err = if s.connecting && is_err_rst e then 61 else map_err e;
        connecting = false;
        connected = false;
      })
      (bit_or fd_error fd_close)

-- A connection to a loopback address or to an address of one of our interfaces.
unfoldable pub is_local_peer : (ℕ → Bool) → List ℕ → ℕ → Bool
is_local_peer is_loopback [] remote = is_loopback remote
is_local_peer is_loopback (a ∷ addrs) remote = remote == a || is_local_peer is_loopback addrs remote

abbrev pub is_err_ok : LwipErr → Bool
is_err_ok err_ok = true
is_err_ok _ = false

-- `rcv_nxt` is the pcb's, `local` whether its peer is local.
unfoldable pub tcp_connected_cb :
    List Opener → Socket → ℕ → Bool → LwipErr → Socket × Bool × Signals
tcp_connected_cb openers s rcv_nxt local e = if is_err_ok e then established else failed
  where
    established : Socket × Bool × Signals
    established =
        let (s', posted) =
          event_wake openers
            (record s { connecting = false; connected = true; rx_next_seq = rcv_nxt }) fd_connect in
        (s', local, posted)

    failed : Socket × Bool × Signals
    failed =
        let (s', posted) = event_wake openers (record s { err = map_err e }) fd_error in
        (s', false, posted)

-- `SB_DGRAM_QMAX`
abbrev pub dgram_qmax : ℕ
dgram_qmax = 32

-- The socket, the root's count of dropped datagrams, and the signals; `room` tells whether the pool
-- has memory for the queue node.
unfoldable pub dgram_queue : List Opener → Socket → ℕ → Bool → Dgram → Socket × ℕ × Signals
dgram_queue openers s drops room d =
    if leb dgram_qmax s.ndgrams
    then (s, (drops + 1) % u32_mod, [])
    else if room
    then queued
    else (s, (drops + 1) % u32_mod, [])
  where
    queued : Socket × ℕ × Signals
    queued =
        let (s', posted) =
          event_wake openers (record s { dgrams = s.dgrams ++ (d ∷ []); ndgrams = s.ndgrams + 1 })
            fd_read in
        (s', drops, posted)

-- A raw socket gets a copy, if one can be made; the stack goes on with the original.
unfoldable pub raw_recv_cb :
    List Opener → Socket → ℕ → Bool → Option Chain → ℕ → Socket × ℕ × Signals
raw_recv_cb openers s drops room none addr = (s, drops, [])
raw_recv_cb openers s drops room (some q) addr =
    dgram_queue openers s drops room (record { payload = q; addr = addr; port = 0 })

-- The calls that lwIP makes on a socket, with what they carry.
pub data Callback : Type 0 where
  received : Option Urgent → Option Chain → Callback
  sent : Callback
  failed : LwipErr → Callback
  connected_to : ℕ → Bool → LwipErr → Callback
  datagram : ℕ → Bool → Dgram → Callback

unfoldable pub callback : List Opener → Socket → Callback → Socket × Signals
callback openers s (received tcb p) = let r = tcp_recv_cb openers s tcb p in (r.sock, r.posted)
callback openers s sent = tcp_sent_cb openers s
callback openers s (failed e) = tcp_err_cb openers s e
callback openers s (connected_to seq local e) =
    let (s', nagle, posted) = tcp_connected_cb openers s seq local e in (s', posted)
callback openers s (datagram drops room d) =
    let (s', drops', posted) = dgram_queue openers s drops room d in (s', posted)
