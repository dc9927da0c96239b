-- ===== src/Io/Drain.antt =====
-- The drain loop of `sb_tcp_recv` (sb_io.c). The buffer is the list of the bytes written to it, in
-- order, so that `copied` is its length. A pbuf's length is a u16, which is why the casts of the
-- copies lose nothing.
use lwip_amiga.Base.{
  ℕ, zero, suc, ◌+◌, ◌-◌, ◌%◌, Bool, true, false, ◌&&◌, ◌||◌, Option, none, some, List, [], ◌∷◌,
  ◌++◌, ◌==◌, ◌!=◌, ltb, leb, if◌then◌else◌, length, take, drop, u32_mod, bit_and,
}
use lwip_amiga.Sock.State.{OobState, have, taken, Chain, Socket, Opener}
use lwip_amiga.Sock.Recv.{chain_len}
use lwip_amiga.Sock.Recv.Stream.{bytes}
use lwip_amiga.Sock.Callbacks.{Callback}
use lwip_amiga.Io.{hear}

-- The flags of the call that it reads.
pub record Mode : Type 0 where
  pub oob : Bool
  pub peek : Bool
  pub waitall : Bool
  pub dontwait : Bool

unfoldable pub mode : Socket → ℕ → Mode
mode s flags = record {
  oob = bit_and flags 0x01 != 0;
  peek = bit_and flags 0x02 != 0;
  waitall = bit_and flags 0x40 != 0;
  dontwait = s.nonblock || bit_and flags 0x80 != 0;
}

-- The loop's state: the socket, the bytes copied, the window credit due and the credits given, and
-- the callbacks that each later copy with an open lock will meet.
pub record Progress : Type 0 where
  pub sock : Socket
  pub out : List ℕ
  pub acked : ℕ
  pub credits : List ℕ
  pub copies : List (List Callback)

-- `oobState == SB_OOB_HAVE || oobState == SB_OOB_READ`
abbrev pub at_mark : OobState → Bool
at_mark have = true
at_mark taken = true
at_mark _ = false

-- The run of whole pbufs that fits `room` and a u16, and the rest.
unfoldable pub whole_run : ℕ → ℕ → Chain → Chain × Chain
whole_run room sum [] = ([], [])
whole_run room sum (h ∷ q) =
    let r = whole_run room (sum + length h) q in
    if leb (sum + length h) room && leb (sum + length h) 0xFFFF then (h ∷ r.0, r.1) else ([], h ∷ q)

-- The bookkeeping of `n` bytes consumed, the queue being `q` afterwards.
unfoldable pub consume : Socket → ℕ → Chain → Socket
consume s n q = record s {
  rxq = q;
  rx_bytes = (s.rx_bytes + u32_mod - n) % u32_mod;
  oob_mark_dist =
      if at_mark s.oob_state then (s.oob_mark_dist + u32_mod - n) % u32_mod else s.oob_mark_dist;
}

-- The head pbuf alone exceeds the request: a part of it is taken in place.
unfoldable pub take_part : ℕ → List ℕ → Chain → Progress → Progress
unfolding consume
take_part n h q d = record d {
  sock = consume d.sock n (drop n h ∷ q);
  out = d.out ++ take n h;
  acked = d.acked + n;
}

abbrev pub next_copy : List (List Callback) → List Callback × List (List Callback)
next_copy [] = ([], [])
next_copy (c ∷ cs) = (c, cs)

-- The run is detached, and copied with the lock open.
unfoldable pub take_run : List Opener → Chain → Chain → Progress → Progress
unfolding consume
take_run openers run q d = record d {
  sock = hear openers (consume d.sock (chain_len run) q) (next_copy d.copies).0;
  out = d.out ++ bytes run;
  acked = d.acked + chain_len run;
  copies = (next_copy d.copies).1;
}

-- Where no whole pbuf fits, a part of the head.
unfoldable pub take_next : List Opener → ℕ → List ℕ → Chain → Chain × Chain → Progress → Progress
unfolding take_part take_run
take_next openers room h q ([], rest) d = take_part room h q d
take_next openers room h q (p ∷ run, rest) d = take_run openers (p ∷ run) rest d

unfoldable pub drain_turn : List Opener → ℕ → Chain → Progress → Option Progress
unfolding take_next whole_run
drain_turn openers room [] d = none
drain_turn openers room (h ∷ q) d = some (take_next openers room h q (whole_run room 0 (h ∷ q)) d)

-- One turn of the drain loop; `none` where its condition fails.
unfoldable pub drain_step : List Opener → ℕ → Progress → Option Progress
unfolding drain_turn
drain_step openers lim d =
    if ltb (length d.out) lim then drain_turn openers (lim - length d.out) d.sock.rxq d else none

unfoldable pub drain_loop : ℕ → List Opener → ℕ → Progress → Progress
unfolding drain_step
drain_loop zero openers lim d = d
drain_loop (suc fuel) openers lim d = elim (drain_step openers lim d) [
  | none ↦ d
  | some d' ↦ drain_loop fuel openers lim d'
]

-- The chunks in which a credit goes to `tcp_recved`; each is at least a byte, so that the credit
-- itself is fuel enough.
unfoldable pub chunks : ℕ → ℕ → List ℕ
chunks zero acked = []
chunks (suc fuel) acked =
    if acked == 0
    then []
    else if ltb 0xFFFF acked
    then 0xFFFF ∷ chunks fuel (acked - 0xFFFF)
    else acked ∷ []

unfoldable pub flush_credit : Progress → Progress
unfolding chunks
flush_credit d = record d {
  acked = 0;
  credits = if d.sock.pcb then d.credits ++ chunks d.acked d.acked else d.credits;
}

-- The pbufs that may still come while the lock is open, one for each pbuf of a delivery.
abbrev pub incoming : List Callback → ℕ
incoming [] = 0
incoming (Callback.received tcb (some p) ∷ cs) = length p + incoming cs
incoming (_ ∷ cs) = incoming cs

abbrev pub incoming_all : List (List Callback) → ℕ
incoming_all [] = 0
incoming_all (c ∷ cs) = incoming c + incoming_all cs

abbrev pub drain_fuel : Progress → ℕ
drain_fuel d = suc (length d.sock.rxq + incoming_all d.copies)
