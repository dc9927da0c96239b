-- ===== src/Sock/Wake.antt =====
-- Wake-ups and readiness of sb_socket.c. A `Signal()` call is the number of the opener whose task
-- it goes to, with the signal mask; what a function posts is the list of its calls, in order.
use lwip_amiga.Base.{
  ℕ, ◌^◌, Bool, true, false, ◌||◌, not, Option, none, some, List, [], ◌∷◌, ◌++◌, ◌==◌, ltb,
  if◌then◌else◌, bit_and, bit_or, get_elem?,
}
use lwip_amiga.Sock.State.{SockType, tcp, udp, raw, marked, have, Socket, Opener}
use lwip_amiga.Sock.Owners.{Slots}

abbrev pub Signals : Type 0
Signals = List (ℕ × ℕ)

-- `SB_FD_*`
abbrev pub fd_accept : ℕ
fd_accept = 0x01

abbrev pub fd_connect : ℕ
fd_connect = 0x02

abbrev pub fd_oob : ℕ
fd_oob = 0x04

abbrev pub fd_read : ℕ
fd_read = 0x08

abbrev pub fd_write : ℕ
fd_write = 0x10

abbrev pub fd_error : ℕ
fd_error = 0x20

abbrev pub fd_close : ℕ
fd_close = 0x40

-- lwIP's `err_t` values by name, and the errno that `sb_map_err` gives for each.
pub data LwipErr : Type 0 where
  err_ok err_mem err_buf err_timeout err_rte err_val err_arg err_wouldblock err_use err_already :
      LwipErr
  err_isconn err_conn err_abrt err_rst err_clsd err_other : LwipErr

unfoldable pub map_err : LwipErr → ℕ
map_err err_ok = 0
map_err err_mem = 55
map_err err_buf = 55
map_err err_timeout = 60
map_err err_rte = 51
map_err err_val = 22
map_err err_arg = 22
map_err err_wouldblock = 35
map_err err_use = 48
map_err err_already = 37
map_err err_isconn = 56
map_err err_conn = 57
map_err err_abrt = 53
map_err err_rst = 54
map_err err_clsd = 58
map_err err_other = 22

-- The loop over the owner slots that the three wake-ups share: a call for each owner that has a
-- task, where the mask of the caller says so.
unfoldable pub signal_owners : List Opener → (Opener → Option ℕ) → Slots → Signals
signal_owners openers mask [] = []
signal_owners openers mask (none ∷ rest) = signal_owners openers mask rest
signal_owners openers mask (some o ∷ rest) =
    let later = signal_owners openers mask rest in
    elim (get_elem? openers o.base) [
      | none ↦ later
      | some b ↦
          if b.task then (elim (mask b) [ none ↦ later | some m ↦ (o.base, m) ∷ later ]) else later
    ]

abbrev pub wake_mask : Socket → Opener → ℕ
wake_mask s b =
    bit_or (bit_or (2 ^ b.sig_bit) (if s.async_io then b.sig_io_mask else 0)) b.sig_event_mask

unfoldable pub wake : List Opener → Socket → Signals
unfolding signal_owners
wake openers s = signal_owners openers (λ b. some (wake_mask s b)) s.owners

unfoldable pub wake_urg : List Opener → Socket → Signals
unfolding signal_owners
wake_urg openers s =
    signal_owners openers (λ b. if b.sig_urg_mask == 0 then none else some b.sig_urg_mask) s.owners

-- Only subscribed events accumulate; with none of them nothing is posted.
unfoldable pub event : List Opener → Socket → ℕ → Socket × Signals
unfolding signal_owners
event openers s ev =
    let new = bit_and ev s.event_mask in
    if new == 0 then (s, []) else (
      record s { events_pending = bit_or s.events_pending new },
      signal_owners openers (λ b. if b.sig_event_mask == 0 then none else some b.sig_event_mask)
          s.owners,
    )

-- `sb_event` followed by `sb_wake`, as every callback ends.
unfoldable pub event_wake : List Opener → Socket → ℕ → Socket × Signals
unfolding event wake
event_wake openers s ev = let (s', posted) = event openers s ev in (s', posted ++ wake openers s')

unfoldable pub is_readable : Socket → Bool
is_readable s = not (s.err == 0) || s.rxeof || pending s.kind
  where
    pending : SockType → Bool
    pending tcp = (elim s.rxq [ [] ↦ false | c ∷ r ↦ true ]) || not (s.naccept == 0)
    pending udp = not (s.ndgrams == 0)
    pending raw = not (s.ndgrams == 0)

unfoldable pub is_exceptable : Socket → Bool
is_exceptable s = elim s.kind [
  | tcp ↦ (elim s.oob_state [ marked ↦ true | have ↦ true | _ ↦ false ])
  | _ ↦ false
]

-- `sb_sock_writable`, with `netifbase_tx_writable()` and `tcp_sndbuf()` of the socket's pcb given.
-- It enrols a datagram socket for the transmit-room wake (`sb_tx_want_space`) where there is none.
unfoldable pub is_writable : Bool → ℕ → Socket → Bool × Socket
is_writable tx_writable sndbuf s = if not (s.err == 0) then (true, s) else by_kind s.kind
  where
    dgram : Bool × Socket
    dgram = if tx_writable then (true, s) else (false, record s { tx_waiting = true })

    by_kind : SockType → Bool × Socket
    by_kind udp = dgram
    by_kind raw = dgram
    by_kind tcp =
        if s.connecting
        then (false, s)
        else if not s.pcb || s.shut_wr
        then (true, s)
        else if not s.connected
        then (false, s)
        else (ltb 0 sndbuf, s)
