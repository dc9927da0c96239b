-- ===== src/Sock/State.antt =====
-- The objects of sb_base.h, section 2: `struct SbSocket`, `struct SbOwnerRef` and the fields of an
-- opener that the socket code reads.
use lwip_amiga.Base.{ℕ, Bool, Option, List}

-- `SbSockType`.
pub data SockType : Type 0 where
  tcp udp raw : SockType

-- `SB_OOB_*`: the receive state of urgent data.
pub data OobState : Type 0 where
  none_marked marked have taken : OobState

-- An occupied owner slot; an empty one (`base == NULL`) is `none` in the list of slots.
pub record OwnerRef : Type 0 where
  pub base : ℕ
  pub fdrefs : ℕ

-- A queued buffer: the bytes of each pbuf of its chain.
abbrev pub Chain : Type 0
Chain = List (List ℕ)

-- A queued datagram.
pub record Dgram : Type 0 where
  pub payload : Chain
  pub addr : ℕ
  pub port : ℕ

-- `struct SbSocket`. `pcb` tells whether the lwIP control block is there; `rxq` is the tail-linked
-- chain of received pbufs; `acceptq` names the sockets that wait for accept.
pub record Socket : Type 0 where
  pub owners : List (Option OwnerRef)
  pub refs : ℕ
  pub kind : SockType
  pub connected : Bool
  pub connecting : Bool
  pub listening : Bool
  pub rxeof : Bool
  pub shut_wr : Bool
  pub shut_rd : Bool
  pub nonblock : Bool
  pub async_io : Bool
  pub tx_waiting : Bool
  pub linger_on : Bool
  pub force_rst : Bool
  pub linger_time : ℕ
  pub pcb : Bool
  pub err : ℕ
  pub event_mask : ℕ
  pub events_pending : ℕ
  pub rxq : Chain
  pub rx_bytes : ℕ
  pub rx_next_seq : ℕ
  pub oob_mark_dist : ℕ
  pub oob_state : OobState
  pub oob_byte : ℕ
  pub oob_inline : Bool
  pub dgrams : List Dgram
  pub ndgrams : ℕ
  pub acceptq : List ℕ
  pub naccept : ℕ

-- The fields of `struct SocketBase` that wake-ups and descriptors use. `task` tells whether the
-- opener has a task; `fd` is its descriptor table.
pub record Opener : Type 0 where
  pub task : Bool
  pub sig_bit : ℕ
  pub sig_io_mask : ℕ
  pub sig_urg_mask : ℕ
  pub sig_event_mask : ℕ
  pub break_mask : ℕ
  pub fd : List (Option ℕ)
