-- ===== src/Tx.antt =====
-- The transmit queues of port/amiga/netdev_tx.c: frames that wait for room in the driver's ring, and
-- completed frames that wait to be freed; and the transmit capacity of port/amiga/netif_base.c that
-- the first reports to. A frame is its name. A queue is an array of a power of two of slots with free
-- running ULONG indices. What the driver says of room is `room`, one answer for each time it is
-- asked; at its end the driver refuses.
pub mod Rings
pub mod Output
pub mod Order
pub mod Whole
pub mod Run
pub mod Admit
pub mod Headers
pub mod Stale
mod Tests
use lwip_amiga.Base.{
  ℕ, zero, suc, ◌+◌, ◌-◌, ◌%◌, ◌^◌, Bool, true, false, not, ◌&&◌, ◌||◌, Option, none, some, List,
  [], ◌∷◌, ◌++◌, ◌==◌, ◌!=◌, ltb, leb, if◌then◌else◌, length, get_or, set, bit_and,
}

-- An array with its mask, and the indices of the next item to take and of the next free slot:
-- `ndi_TxPendHead` and `Tail`, and `ndi_TxFreeCons` and `Prod`.
pub record Ring : Type 0 where
  pub slots : List ℕ
  pub mask : ℕ
  pub head : ℕ
  pub tail : ℕ

abbrev pub queue_idle : Ring → Bool
queue_idle r = r.head == r.tail

-- `tail - head` as a ULONG.
abbrev pub queue_filled : Ring → ℕ
queue_filled r = (r.tail + 2 ^ 32 - r.head) % 2 ^ 32

unfoldable pub queue_put : Ring → ℕ → Ring
queue_put r x = record r {
  slots = set r.slots (bit_and r.tail r.mask) x;
  tail = (r.tail + 1) % 2 ^ 32;
}

unfoldable pub queue_first : Ring → ℕ
queue_first r = get_or r.slots (bit_and r.head r.mask) 0

unfoldable pub queue_drop : Ring → Ring
queue_drop r = record r { head = (r.head + 1) % 2 ^ 32 }

-- The fields of `struct NetdevIf` that transmission uses, with its base's capacity, the stack's wish
-- for room, and what was done: frames handed to the driver, frames freed after completion, frames
-- dropped, and calls that wake the senders that wait for room.
pub record Netdev : Type 0 where
  pub pend : Ring
  pub free : Ring
  pub tx_free : ℕ
  pub tx_max : ℕ
  pub want_space : Bool
  pub kick_pending : Bool
  pub given : List ℕ
  pub freed : List ℕ
  pub dropped : List ℕ
  pub wakes : ℕ
  pub kicks : ℕ

-- `netifbase_tx_wake`, with the socket layer's callback installed.
abbrev pub tx_wake : Netdev → Netdev
tx_wake d = if d.want_space then record d { want_space = false; wakes = d.wakes + 1 } else d

-- `netifbase_tx_freed` of one frame.
unfoldable pub tx_freed : Netdev → Netdev
tx_freed d =
    let d' = record d { tx_free = (d.tx_free + 1) % 2 ^ 32 } in
    if ltb d.tx_free d.tx_max && leb d.tx_max d'.tx_free then tx_wake d' else d'

-- `netifbase_tx_taken` of one frame.
abbrev pub tx_taken : Netdev → Netdev
tx_taken d = record d { tx_free = (d.tx_free + 2 ^ 32 - 1) % 2 ^ 32 }

-- `ndif_tx_submit` of a frame that the driver takes.
abbrev pub tx_submit : Netdev → ℕ → Netdev
tx_submit d frame = record d { given = d.given ++ (frame ∷ []); kick_pending = true }

-- A turn of `ndif_tx_pend_drain` whose frame the driver takes.
unfoldable pub resubmitted : Netdev → Netdev
unfolding queue_first queue_drop tx_freed
resubmitted d =
    let d' = tx_submit d (queue_first d.pend) in tx_freed (record d' { pend = queue_drop d.pend })

unfoldable pub pend_drain : List Bool → Netdev → Netdev
unfolding resubmitted
pend_drain [] d = d
pend_drain (ok ∷ room) d =
    let rest = pend_drain room (resubmitted d) in if not (queue_idle d.pend) && ok then rest else d
