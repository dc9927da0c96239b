-- ===== src/Sock/Accept.antt =====
-- Listening sockets: `sb_sock_alloc`, `sb_sock_free`, `sb_fd_alloc`, `sb_fd_get` and
-- `sb_tcp_accept_cb` of sb_socket.c, and `bsd_accept` of sb_api.c up to the address that it writes.
-- Sockets are named by their place in the store, `none` once freed. What is told to lwIP of the pcb
-- of a socket that goes is not part of the store.
pub mod Queue
pub mod Owner
mod Tests
use lwip_amiga.Base.{
  ℕ, zero, suc, ◌+◌, ◌-◌, ◌%◌, ◌^◌, Bool, true, false, not, ◌&&◌, ◌||◌, Option, none, some, List,
  [], ◌∷◌, ◌++◌, ◌==◌, ◌!=◌, ltb, leb, if◌then◌else◌, length, get_elem?, set,
}
use lwip_amiga.Sock.State.{SockType, tcp, none_marked, OwnerRef, Socket, Opener}
use lwip_amiga.Sock.Owners.{owner_first, owner_decref}
use lwip_amiga.Sock.Wake.{Signals, LwipErr, err_ok, err_val, err_abrt, event_wake, fd_accept}

pub record Store : Type 0 where
  pub socks : List (Option Socket)
  pub openers : List Opener

-- The socket of a name; `none` for a name that is not in use.
abbrev pub live : Store → ℕ → Option Socket
live st a = elim (get_elem? st.socks a) [ none ↦ none | some s ↦ s ]

abbrev pub put : Store → ℕ → Option Socket → Store
put st a s = record st { socks = set st.socks a s }

abbrev pub new_socket : ℕ → SockType → Socket
new_socket b kind = record {
  owners = some (record { base = b; fdrefs = 1 }) ∷ none ∷ none ∷ none ∷ [];
  refs = 1;
  kind = kind;
  connected = false;
  connecting = false;
  listening = false;
  rxeof = false;
  shut_wr = false;
  shut_rd = false;
  nonblock = false;
  async_io = true;
  tx_waiting = false;
  linger_on = false;
  force_rst = false;
  linger_time = 0;
  pcb = false;
  err = 0;
  event_mask = 0;
  events_pending = 0;
  rxq = [];
  rx_bytes = 0;
  rx_next_seq = 0;
  oob_mark_dist = 0;
  oob_state = none_marked;
  oob_byte = 0;
  oob_inline = false;
  dgrams = [];
  ndgrams = 0;
  acceptq = [];
  naccept = 0;
}

-- One reference dropped, and the queue that a socket leaves when it goes.
unfoldable pub drop_ref : Store → ℕ → ℕ → Store × List ℕ
drop_ref st b a = elim (live st a) [
  | none ↦ (st, [])
  | some s ↦
      let left = (s.refs + 2 ^ 8 - 1) % 2 ^ 8 in
      if left != 0
      then (put st a (some (record s { owners = owner_decref s.owners b; refs = left })), [])
      else (put st a none, s.acceptq)
]

-- The sockets of a queue, dropped for the root: they do not listen, and leave no queue.
unfoldable pub drop_queue : Store → ℕ → List ℕ → Store
drop_queue st root [] = st
drop_queue st root (q ∷ qs) = let (st', left) = drop_ref st root q in drop_queue st' root qs

unfoldable pub sock_free : ℕ → Store → ℕ → ℕ → Store
sock_free root st b a = let (st', left) = drop_ref st b a in drop_queue st' root left

-- The lowest free descriptor of a table, taken.
unfoldable pub fd_alloc : List (Option ℕ) → ℕ → Option (ℕ × List (Option ℕ))
fd_alloc [] a = none
fd_alloc (none ∷ rest) a = some (0, some a ∷ rest)
fd_alloc (some x ∷ rest) a = elim (fd_alloc rest a) [
  | none ↦ none
  | some r ↦ some (suc r.0, some x ∷ r.1)
]

unfoldable pub fd_get : Opener → ℕ → Option ℕ
fd_get o fd = elim (get_elem? o.fd fd) [ none ↦ none | some a ↦ a ]

-- `SB_ACCEPT_QMAX`
abbrev pub accept_qmax : ℕ
accept_qmax = 16

-- A connection for the listener `l`, with the pcb's `rcv_nxt`; `room` tells whether the pool has
-- memory for a socket. The new socket is named by the end of the store.
unfoldable pub accept_cb : Store → ℕ → ℕ → Bool → Store × LwipErr × Signals
accept_cb st l rcv_nxt room = elim (live st l) [
  | none ↦ (st, err_val, [])
  | some lst ↦ elim (owner_first lst.owners) [
    | none ↦ (st, err_abrt, [])
    | some owner ↦
        if ltb lst.naccept accept_qmax && room then queued lst owner else (st, err_abrt, [])
  ]
]
  where
    queued : Socket → ℕ → Store × LwipErr × Signals
    queued lst owner =
        let s = record (new_socket owner tcp) {
          pcb = true;
          connected = true;
          rx_next_seq = rcv_nxt;
        } in
        let (lst', posted) =
          event_wake st.openers
            (record lst {
              acceptq = lst.acceptq ++ (length st.socks ∷ []);
              naccept = lst.naccept + 1;
            })
            fd_accept in
        (record st { socks = set st.socks l (some lst') ++ (some s ∷ []) }, err_ok, posted)

-- How a call ends: with an errno, with a descriptor, in a wait, or where the code is undefined.
pub data Accepted : Type 0 where
  failed : ℕ → Accepted
  accepted : ℕ → Accepted
  waits undefined : Accepted

-- `accept` of the opener `b` on the socket `a` of one of its descriptors.
unfoldable pub accept : ℕ → Store → ℕ → Opener → ℕ → Socket → Bool → Store × Accepted
accept root st b o a s nonblock =
    if not s.listening
    then (st, failed 22)
    else if s.naccept == 0
    then (st, empty)
    else take s.acceptq
  where
    empty : Accepted
    empty = if s.err != 0 then failed s.err else if nonblock then failed 35 else waits

    take : List ℕ → Store × Accepted
    take [] = (st, undefined)
    take (q ∷ rest) =
        let st' = put st a (some (record s { acceptq = rest; naccept = s.naccept - 1 })) in
        elim (fd_alloc o.fd q) [
          | none ↦ (sock_free root st' b q, failed 24)
          | some r ↦
              (record st' { openers = set st'.openers b (record o { fd = r.1 }) }, accepted r.0)
        ]

-- The descriptor's checks of `bsd_accept`.
unfoldable pub accept_fd : ℕ → Store → ℕ → ℕ → Bool → Store × Accepted
accept_fd root st b fd nonblock = elim (get_elem? st.openers b) [
  | none ↦ (st, undefined)
  | some o ↦ elim (fd_get o fd) [
    | none ↦ (st, failed 9)
    | some a ↦ elim (live st a) [
      | none ↦ (st, undefined)
      | some s ↦ elim s.kind [ tcp ↦ accept root st b o a s nonblock | _ ↦ (st, failed 22) ]
    ]
  ]
]
