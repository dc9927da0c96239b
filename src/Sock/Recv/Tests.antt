-- ===== src/Sock/Recv/Tests.antt =====
-- A socket that receives five bytes with an urgent mark at the third, and the theorems there.
use lwip_amiga.Base.{
  ◌+◌, ◌%◌, ◌^◌, ◌≡◌, inl, inr, refl, true, false, none, some, List, [], ◌∷◌, ◌++◌, arith, get_or,
  u32_mod,
}
use lwip_amiga.Sock.State.{tcp, none_marked, have, Chain, Socket, Opener}
use lwip_amiga.Sock.Recv.{Urgent, remove_at, excise, map_urgent, finish, enqueue, tcp_recv_cb}
use lwip_amiga.Sock.Wake.{event, wake, wake_urg}
use lwip_amiga.Sock.Recv.Stream.{bytes, IsCounted, tcp_recv_cb-IsCounted}
use lwip_amiga.Sock.Recv.Mark.{mark_offset, tcp_recv_cb_excises, tcp_recv_cb-InBand}

abbrev pub plain_socket : Socket
plain_socket = record {
  owners = some (record { base = 0; fdrefs = 1 }) ∷ none ∷ none ∷ none ∷ [];
  refs = 1;
  kind = tcp;
  connected = true;
  connecting = false;
  listening = false;
  rxeof = false;
  shut_wr = false;
  shut_rd = false;
  nonblock = false;
  async_io = true;
  tx_waiting = false;
  linger_on = false;
  force_rst = false;
  linger_time = 0;
  pcb = true;
  err = 0;
  event_mask = 0x0C;
  events_pending = 0;
  rxq = (1 ∷ 2 ∷ []) ∷ [];
  rx_bytes = 2;
  rx_next_seq = 0xFFFF_FFFE;
  oob_mark_dist = 0;
  oob_state = none_marked;
  oob_byte = 0;
  oob_inline = false;
  dgrams = [];
  ndgrams = 0;
  acceptq = [];
  naccept = 0;
}

abbrev pub one_opener : List Opener
one_opener =
    record {
      task = true;
      sig_bit = 20;
      sig_io_mask = 0;
      sig_urg_mask = 0x400;
      sig_event_mask = 0;
      break_mask = 0x1000;
      fd = some 7 ∷ none ∷ [];
    }
    ∷ []

abbrev urgent : Urgent
urgent = record { urg_rcv = true; rcv_up = 1 }

abbrev delivery : Chain
delivery = (10 ∷ 11 ∷ []) ∷ (12 ∷ 13 ∷ []) ∷ (99 ∷ 14 ∷ []) ∷ []

abbrev stale : Urgent
stale = record { urg_rcv = true; rcv_up = 0xFFFF_FFF0 }

cut_run :
    bytes (tcp_recv_cb one_opener plain_socket (some urgent) (some delivery)).sock.rxq
    ≡ 1 ∷ 2 ∷ 10 ∷ 11 ∷ 12 ∷ 99 ∷ 14 ∷ []
unfolding tcp_recv_cb map_urgent finish enqueue excise event wake wake_urg
cut_run = refl

signals_run :
    (tcp_recv_cb one_opener plain_socket (some urgent) (some delivery)).posted
    ≡ (0, 0x400) ∷ (0, 2 ^ 20) ∷ []
unfolding tcp_recv_cb map_urgent finish enqueue excise event wake wake_urg
signals_run = refl

tcp_recv_cb-IsCounted_example :
    let r = tcp_recv_cb one_opener plain_socket (some urgent) (some delivery) in
    IsCounted r.sock
    × (r.sock.rx_bytes + r.credit ≡ 2 + 6)
    × (r.sock.rx_next_seq ≡ (0xFFFF_FFFE + 6) % u32_mod)
tcp_recv_cb-IsCounted_example =
    tcp_recv_cb-IsCounted one_opener plain_socket (some urgent) delivery refl (omega arith)

tcp_recv_cb_excises_example :
    let r = tcp_recv_cb one_opener plain_socket (some urgent) (some delivery) in
    (bytes r.sock.rxq
      ≡ bytes plain_socket.rxq ++ remove_at (mark_offset plain_socket urgent) (bytes delivery))
    × (r.sock.oob_byte ≡ get_or (bytes delivery) (mark_offset plain_socket urgent) 0)
    × (r.sock.oob_mark_dist ≡ 2 + mark_offset plain_socket urgent)
    × (r.sock.oob_state ≡ have)
    × (r.tcb ≡ some (record urgent { urg_rcv = false }))
    × (r.credit ≡ 1)
tcp_recv_cb_excises_example =
    tcp_recv_cb_excises one_opener plain_socket urgent delivery refl refl (omega arith)
      (omega arith) (omega arith)

tcp_recv_cb-InBand_example :
    let r = tcp_recv_cb one_opener plain_socket (some stale) (some delivery) in
    (bytes r.sock.rxq ≡ bytes plain_socket.rxq ++ bytes delivery)
    × (r.sock.oob_byte ≡ 0)
    × (r.credit ≡ 0)
tcp_recv_cb-InBand_example =
    tcp_recv_cb-InBand one_opener plain_socket (some stale) delivery (inr (inr (inl (omega arith))))
