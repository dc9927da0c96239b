-- ===== src/Pass/Calls.antt =====
-- The calls that pass sockets on, in any order and by any openers.
use lwip_amiga.Base.{ℕ, ◌-◌, ◌^◌, ◌<◌, Bool}
use lwip_amiga.Pass.{Lot, PassResult, dup2_socket, close_socket}
use lwip_amiga.Pass.Release.{release_common, obtain_socket}
use lwip_amiga.Pass.Kept.{dup2_socket-Sound, close_socket-Sound}
use lwip_amiga.Pass.Lots.{refs_to, LotSound, release_common-Sound, obtain_socket-Sound}
use lwip_amiga.Pass.Count.{in_lot}

-- A call with its opener, its arguments, and whether the pool has memory.
pub data Call : Type 0 where
  dup2 : ℕ → ℕ → ℕ → Call
  close : ℕ → ℕ → Call
  release : ℕ → ℕ → ℕ → Bool → Bool → Call
  obtain : ℕ → ℕ → ℕ → Call

unfoldable pub perform : ℕ → Lot → Call → Lot × PassResult
unfolding dup2_socket close_socket release_common obtain_socket
perform root lot (dup2 b old new) =
    let (st, o) = dup2_socket root lot.store b old new in (record lot { store = st }, o)
perform root lot (close b fd) =
    let (st, o) = close_socket root lot.store b fd in (record lot { store = st }, o)
perform root lot (release b sock id copy room) = release_common lot b sock id copy room
perform root lot (obtain b id type) = obtain_socket lot b id type

-- Calls one after the other, each on a lot in which no socket has 255 references.
pub data Reaches : ℕ → Lot → Lot → Type 0 where
  stays : (root : ℕ) (lot : Lot) → Reaches root lot lot
  calls :
      (root : ℕ) (lot lot' : Lot) (call : Call)
      → ((c : ℕ) → refs_to lot c < 2 ^ 8 - 1)
      → Reaches root (perform root lot call).0 lot'
      → Reaches root lot lot'

perform-Sound :
    (root : ℕ) (lot : Lot) (call : Call)
    → LotSound lot
    → ((c : ℕ) → refs_to lot c < 2 ^ 8 - 1)
    → LotSound (perform root lot call).0
unfolding perform
perform-Sound root lot (dup2 b old new) h r =
    dup2_socket-Sound root lot.store b old new (λ c. in_lot c lot.parked) h r
perform-Sound root lot (close b fd) h r =
    close_socket-Sound root lot.store b fd (λ c. in_lot c lot.parked) h
perform-Sound root lot (release b sock id copy room) h r =
    release_common-Sound lot b sock id copy room h r
perform-Sound root lot (obtain b id type) h r = obtain_socket-Sound lot b id type h

-- Whatever calls the openers make in whatever order, as long as no socket has 255 references, the count
-- of each socket stays the number of descriptors, places in accept queues and parked entries that name
-- it, and none of these names a socket that was freed.
pub Reaches-LotSound :
    (root : ℕ) (lot lot' : Lot) → LotSound lot → Reaches root lot lot' → LotSound lot'
Reaches-LotSound root lot lot' h (stays _ _) = h
Reaches-LotSound root lot lot' h (calls _ _ _ call r rest) =
    Reaches-LotSound root (perform root lot call).0 lot' (perform-Sound root lot call h r) rest
