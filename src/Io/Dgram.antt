-- ===== src/Io/Dgram.antt =====
-- The datagram receive path of sb_io.c: `sb_dgram_wait`, `sb_dgram_drop`, `sb_dgram_recv` and
-- `sb_dgram_recvmsg`. The pool that a queue node goes back to is left out. `ndgrams` counts the
-- queue, so that the head which a call takes is there where the count is not zero.
use lwip_amiga.Base.{
  ℕ, zero, suc, ◌+◌, ◌-◌, ◌%◌, Bool, false, ◌||◌, List, [], ◌∷◌, ◌==◌, ◌!=◌, ltb, if◌then◌else◌,
  take, drop, min, u32_mod, bit_and,
}
use lwip_amiga.Sock.State.{Dgram, Socket, Opener}
use lwip_amiga.Sock.Recv.{chain_len}
use lwip_amiga.Sock.Recv.Stream.{bytes}
use lwip_amiga.Io.{Pause, hear}

-- The end of the wait: a datagram is there, an error code, or the schedule's end.
pub data Waited : Type 0 where
  ready : Waited
  error : ℕ → Waited
  waiting : Waited

abbrev pub wait_ends : ℕ → Socket → (Socket → Socket × Waited) → Socket × Waited
wait_ends zero s rest = rest s
wait_ends (suc e) s rest = (s, error (suc e))

abbrev no_datagram : Bool → Socket → Socket × Waited → Socket × Waited
no_datagram dontwait s sleep =
    if s.err != 0
    then (record s { err = 0 }, error s.err)
    else if dontwait
    then (s, error 35)
    else sleep

unfoldable pub dgram_wait : List Opener → Bool → List Pause → Socket → Socket × Waited
dgram_wait openers dontwait [] s =
    if s.ndgrams != 0 then (s, ready) else no_datagram dontwait s (s, waiting)
dgram_wait openers dontwait (w ∷ ws) s =
    let sleep = wait_ends w.verdict (hear openers s w.heard) (dgram_wait openers dontwait ws) in
    if s.ndgrams != 0 then (s, ready) else no_datagram dontwait s sleep

abbrev pub rest_of : List Dgram → List Dgram
rest_of [] = []
rest_of (d ∷ ds) = ds

-- `MLH_HEAD` of the queue.
abbrev pub head_of : List Dgram → Dgram
head_of [] = record { payload = []; addr = 0; port = 0 }
head_of (d ∷ ds) = d

unfoldable pub dgram_drop : Socket → Socket
dgram_drop s = record s { dgrams = rest_of s.dgrams; ndgrams = (s.ndgrams + u32_mod - 1) % u32_mod }

-- What a call gives: the pieces written to the caller's buffers in order, the sender, and the flag
-- MSG_TRUNC.
pub data Delivery : Type 0 where
  message : List (List ℕ) → ℕ → ℕ → Bool → Delivery
  no_message : ℕ → Delivery
  pending : Delivery

abbrev pub dontwait_of : Socket → ℕ → Bool
dontwait_of s flags = s.nonblock || bit_and flags 0x80 != 0

abbrev pub consumed : ℕ → Socket → Socket
consumed flags s = if bit_and flags 0x02 != 0 then s else dgram_drop s

-- A message of one buffer; what does not fit is discarded.
abbrev pub one_piece : ℕ → Dgram → Delivery
one_piece len d =
    message (take (min (chain_len d.payload) len) (bytes d.payload) ∷ []) d.addr d.port false

abbrev pub received_by : (Dgram → Delivery) → ℕ → Socket × Waited → Socket × Delivery
received_by read flags (s, ready) = (consumed flags s, read (head_of s.dgrams))
received_by read flags (s, error e) = (s, no_message e)
received_by read flags (s, waiting) = (s, pending)

unfoldable pub dgram_recv : List Opener → Socket → ℕ → ℕ → List Pause → Socket × Delivery
unfolding dgram_wait dgram_drop
dgram_recv openers s len flags ws =
    received_by (one_piece len) flags (dgram_wait openers (dontwait_of s flags) ws s)

-- The bytes scattered over the buffers of the lengths given; an empty buffer is skipped.
unfoldable pub scatter : List ℕ → List ℕ → List (List ℕ)
scatter [] xs = []
scatter (l ∷ ls) [] = []
scatter (l ∷ ls) (x ∷ xs) =
    if l == 0 then scatter ls (x ∷ xs) else take l (x ∷ xs) ∷ scatter ls (drop l (x ∷ xs))

abbrev pub total : List ℕ → ℕ
total [] = 0
total (l ∷ ls) = l + total ls

abbrev pub size_of : List (List ℕ) → ℕ
size_of = chain_len

abbrev pub scattered : List ℕ → Dgram → Delivery
scattered iovs d =
    let pieces = scatter iovs (bytes d.payload) in
    message pieces d.addr d.port (ltb (size_of pieces) (chain_len d.payload))

unfoldable pub dgram_recvmsg : List Opener → Socket → List ℕ → ℕ → List Pause → Socket × Delivery
unfolding dgram_wait dgram_drop scatter
dgram_recvmsg openers s iovs flags ws =
    received_by (scattered iovs) flags (dgram_wait openers (dontwait_of s flags) ws s)
