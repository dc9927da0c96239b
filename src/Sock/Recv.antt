-- ===== src/Sock/Recv.antt =====
-- `sb_tcp_recv_cb` of sb_socket.c: a delivery from lwIP joins the byte queue, and an urgent mark of
-- the pcb is mapped onto it. The pcb is what the callback reads and writes of it; `tot_len` of the
-- delivered chain is the sum of its parts, as lwIP keeps it.
pub mod Stream
pub mod Mark
pub mod Tests
use lwip_amiga.Base.{
  ℕ, zero, suc, ◌+◌, ◌-◌, ◌%◌, ◌^◌, Bool, true, false, ◌&&◌, not, Option, none, some, List, [], ◌∷◌,
  ◌++◌, ◌==◌, ltb, leb, if◌then◌else◌, length, get_or, u32_mod, bit_or,
}
use lwip_amiga.Sock.State.{OobState, none_marked, marked, have, taken, Chain, Socket, Opener}
use lwip_amiga.Sock.Wake.{Signals, event, wake, wake_urg, fd_close, fd_read, fd_oob}

-- `urgflags & TF_URG_RCV` and `rcv_up` of the pcb.
pub record Urgent : Type 0 where
  pub urg_rcv : Bool
  pub rcv_up : ℕ

abbrev pub chain_len : Chain → ℕ
chain_len [] = 0
chain_len (h ∷ rest) = length h + chain_len rest

unfoldable pub remove_at : ℕ → List ℕ → List ℕ
remove_at i [] = []
remove_at zero (x ∷ xs) = xs
remove_at (suc i) (x ∷ xs) = x ∷ remove_at i xs

-- The walk to the pbuf that holds offset `off`, and the removal of that byte from it.
unfoldable pub excise : ℕ → Chain → ℕ × Chain
unfolding remove_at
excise off [] = (0, [])
excise off (h ∷ rest) =
    let (byte, rest') = excise (off - length h) rest in
    if leb (length h) off then (byte, h ∷ rest') else (get_or h off 0, remove_at off h ∷ rest)

-- What the mapping of the mark leaves: the socket, the pcb, the chain to queue, the window credit
-- returned for an excised byte, and whether a new mark was latched.
pub record Mapped : Type 0 where
  pub sock : Socket
  pub tcb : Option Urgent
  pub chain : Chain
  pub credit : ℕ
  pub newoob : Bool

unfoldable pub map_urgent : Socket → Option Urgent → Chain → Mapped
unfolding excise
map_urgent s none p = record { sock = s; tcb = none; chain = p; credit = 0; newoob = false }
map_urgent s (some u) p = if u.urg_rcv then latched else plain
  where
    d : ℕ
    d = (u.rcv_up + u32_mod - s.rx_next_seq) % u32_mod

    plain : Mapped
    plain = record { sock = s; tcb = some u; chain = p; credit = 0; newoob = false }

    cleared : Option Urgent
    cleared = some (record u { urg_rcv = false })

    marked_at : Socket
    marked_at = record s { oob_mark_dist = (s.rx_bytes + d) % u32_mod; oob_state = have }

    inside : Mapped
    inside =
        if s.oob_inline
        then record { sock = marked_at; tcb = cleared; chain = p; credit = 0; newoob = true }
        else (let (byte, p') = excise d p in
            record {
              sock = record marked_at { oob_byte = byte };
              tcb = cleared;
              chain = p';
              credit = 1;
              newoob = true;
            })

    beyond : Mapped
    beyond = elim s.oob_state [
      | marked ↦ plain
      | _ ↦ record {
        sock = record s { oob_state = marked };
        tcb = some u;
        chain = p;
        credit = 0;
        newoob = true;
      }
    ]

    latched : Mapped
    latched =
        if leb (2 ^ 31) d
        then record { sock = s; tcb = cleared; chain = p; credit = 0; newoob = false }
        else if ltb d (chain_len p)
        then inside
        else beyond

-- What the callback does: the socket, the pcb, the window credit and the signals.
pub record Received : Type 0 where
  pub sock : Socket
  pub tcb : Option Urgent
  pub credit : ℕ
  pub posted : Signals

-- The common end of the callback.
unfoldable pub finish : List Opener → Socket → Bool → ℕ → Socket × Signals
finish openers s newoob ev =
    let urgent : Signals = if newoob then wake_urg openers s else [] in
    let (s', posted) = event openers s (if newoob then bit_or ev fd_oob else ev) in
    (s', urgent ++ posted ++ wake openers s')

-- The queueing of what the mapping left of the delivery `p`.
unfoldable pub enqueue : Mapped → Chain → Socket
enqueue m p = if dlen == 0 then counted else record counted {
  rxq = counted.rxq ++ m.chain;
  rx_bytes = (counted.rx_bytes + dlen) % u32_mod;
}
  where
    dlen : ℕ
    dlen = chain_len p - m.credit

    counted : Socket
    counted = record m.sock { rx_next_seq = (m.sock.rx_next_seq + chain_len p) % u32_mod }

-- `none` for the chain is the NULL pbuf by which lwIP reports the peer's close.
unfoldable pub tcp_recv_cb : List Opener → Socket → Option Urgent → Option Chain → Received
tcp_recv_cb openers s tcb none =
    let (s', posted) = finish openers (record s { rxeof = true }) false fd_close in
    record { sock = s'; tcb = tcb; credit = 0; posted = posted }
tcp_recv_cb openers s tcb (some p) =
    let m = map_urgent s tcb p in
    let ev = if chain_len p - m.credit == 0 then 0 else fd_read in
    let (s', posted) = finish openers (enqueue m p) m.newoob ev in
    record { sock = s'; tcb = m.tcb; credit = m.credit; posted = posted }
