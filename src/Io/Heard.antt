-- ===== src/Io/Heard.antt =====
-- What the callbacks that come while a read has the lock open leave of its socket.
use lwip_amiga.Base.{
  ℕ, zero, suc, ◌+◌, ◌-◌, ◌%◌, ◌<◌, ◌≤◌, ◌≡◌, refl, ap, Bool, true, false, Option, none, some, List,
  [], ◌∷◌, ◌++◌, length, arith, u32_mod,
}
use lwip_amiga.Sock.State.{Chain, Socket, Opener}
use lwip_amiga.Sock.Wake.{event, event_wake, fd_close}
use lwip_amiga.Sock.Recv.{
  Urgent, chain_len, remove_at, excise, tcp_recv_cb, enqueue, map_urgent, finish, Mapped,
}
use lwip_amiga.Sock.Recv.Stream.{finish-SameQueue, recv_event, IsCounted, tcp_recv_cb-IsCounted}
use lwip_amiga.Sock.Callbacks.{
  Callback, received, sent, failed, connected_to, datagram, callback, tcp_sent_cb, tcp_err_cb,
  tcp_connected_cb, dgram_queue,
}
use lwip_amiga.Io.{hear}
use lwip_amiga.Io.Drain.{at_mark}
use lwip_amiga.Io.Grows.{Kept, sent-Kept, failed-Kept, connected_to-Kept, datagram-Kept}

-- The pbufs of a chain are as long as a u16 tells.
abbrev pub IsPbufs : Chain → Type 0
IsPbufs [] = Unit {0}
IsPbufs (h ∷ q) = (length h ≤ 0xFFFF) × IsPbufs q

-- The bytes that the callbacks deliver, and that their pbufs are pbufs.
abbrev pub delivers : Callback → ℕ
delivers (received tcb (some p)) = chain_len p
delivers _ = 0

abbrev pub volume : List Callback → ℕ
volume [] = 0
volume (c ∷ cs) = delivers c + volume cs

abbrev pub IsDelivery : Callback → Type 0
IsDelivery (received tcb (some p)) = IsPbufs p
IsDelivery _ = Unit {0}

abbrev pub AreDeliveries : List Callback → Type 0
AreDeliveries [] = Unit {0}
AreDeliveries (c ∷ cs) = IsDelivery c × AreDeliveries cs

-- A mark lies within the queue, or right behind it.
abbrev pub IsMarked : Socket → Type 0
IsMarked s = at_mark s.oob_state ≡ true → s.oob_mark_dist ≤ s.rx_bytes

-- A step in which at most `n` bytes came.
pub record Next (s : Socket) (n : ℕ) (t : Socket) : Type 0 where
  pub pbufs : IsPbufs t.rxq
  pub counted : IsCounted t
  pub grown : chain_len t.rxq ≤ chain_len s.rxq + n
  pub pcb : t.pcb ≡ true → s.pcb ≡ true
  pub mark : IsMarked s → IsMarked t

remove_at_shorter : (i : ℕ) (xs : List ℕ) → length (remove_at i xs) ≤ length xs
unfolding remove_at
remove_at_shorter i [] = omega arith
remove_at_shorter zero (x ∷ xs) = omega arith
remove_at_shorter (suc i) (x ∷ xs) = omega (arith, remove_at_shorter i xs)

excise-IsPbufs : (off : ℕ) (c : Chain) → IsPbufs c → IsPbufs (excise off c).1
unfolding excise
excise-IsPbufs off [] h = tt
excise-IsPbufs off (x ∷ c) h =
    ground (arith, remove_at_shorter off x, excise-IsPbufs (off - length x) c h.1)

append-IsPbufs : (c d : Chain) → IsPbufs c → IsPbufs d → IsPbufs (c ++ d)
append-IsPbufs [] d h g = g
append-IsPbufs (x ∷ c) d h g = (h.0, append-IsPbufs c d h.1 g)

map_urgent-IsPbufs :
    (s : Socket) (tcb : Option Urgent) (p : Chain) → IsPbufs p → IsPbufs (map_urgent s tcb p).chain
unfolding map_urgent
map_urgent-IsPbufs s none p h = h
map_urgent-IsPbufs s (some u) p h =
    ground (arith, excise-IsPbufs ((u.rcv_up + u32_mod - s.rx_next_seq) % u32_mod) p h)

map_urgent-IsMarked :
    (s : Socket) (tcb : Option Urgent) (p : Chain)
    → IsMarked s
    → s.rx_bytes + chain_len p < u32_mod
    → at_mark (map_urgent s tcb p).sock.oob_state ≡ true
    → (map_urgent s tcb p).sock.oob_mark_dist + (map_urgent s tcb p).credit
      ≤ s.rx_bytes + chain_len p
unfolding map_urgent
map_urgent-IsMarked s none p h b a = omega (arith, h a)
map_urgent-IsMarked s (some u) p h b a = ground (arith, h)

map_urgent-pcb :
    (s : Socket) (tcb : Option Urgent) (p : Chain) → (map_urgent s tcb p).sock.pcb ≡ s.pcb
unfolding map_urgent
map_urgent-pcb s none p = refl
map_urgent-pcb s (some u) p = ground arith

pub map_urgent-rxq :
    (s : Socket) (tcb : Option Urgent) (p : Chain) → (map_urgent s tcb p).sock.rxq ≡ s.rxq
unfolding map_urgent
map_urgent-rxq s none p = refl
map_urgent-rxq s (some u) p = ground arith

enqueue-IsPbufs :
    (m : Mapped) (p : Chain) → IsPbufs m.sock.rxq → IsPbufs m.chain → IsPbufs (enqueue m p).rxq
unfolding enqueue
enqueue-IsPbufs m p h g = ground (arith, append-IsPbufs m.sock.rxq m.chain h g)

enqueue-state :
    (m : Mapped) (p : Chain)
    → ((enqueue m p).oob_state ≡ m.sock.oob_state)
      × ((enqueue m p).oob_mark_dist ≡ m.sock.oob_mark_dist)
      × ((enqueue m p).pcb ≡ m.sock.pcb)
unfolding enqueue
enqueue-state m p = ground arith

finish-pcb :
    (openers : List Opener) (s : Socket) (newoob : Bool) (ev : ℕ)
    → (finish openers s newoob ev).0.pcb ≡ s.pcb
unfolding finish event
finish-pcb openers s newoob ev = ground arith

delivery-Next :
    (openers : List Opener) (s : Socket) (tcb : Option Urgent) (p : Chain)
    → IsPbufs s.rxq
    → IsCounted s
    → IsPbufs p
    → chain_len s.rxq + chain_len p < u32_mod
    → Next s (chain_len p) (tcp_recv_cb openers s tcb (some p)).sock
unfolding tcp_recv_cb
delivery-Next openers s tcb p q c d b =
    let m = map_urgent s tcb p in
    let e = enqueue m p in
    let same = finish-SameQueue openers e m.newoob (recv_event m p) in
    let (counted, total, seq) = tcp_recv_cb-IsCounted openers s tcb p c (omega (arith, c)) in
    let (state, dist, pcb) = enqueue-state m p in
    let old : IsPbufs m.sock.rxq = rw (map_urgent-rxq s tcb p) q in
    record {
      pbufs = rw same.rxq (enqueue-IsPbufs m p old (map_urgent-IsPbufs s tcb p d));
      counted = counted;
      grown = omega (arith, c, counted, total);
      pcb =
          λ y. cc (finish-pcb openers e m.newoob (recv_event m p), pcb, map_urgent-pcb s tcb p, y);
      mark = λ k a.
          let a' : at_mark m.sock.oob_state ≡ true =
            cc (ap at_mark same.state, ap at_mark state, a) in
          omega
            (arith, map_urgent-IsMarked s tcb p k (omega (arith, c)) a', same.mark, dist, total);
    }

Kept-Next :
    (s t : Socket) (n : ℕ)
    → Kept s t
    → IsPbufs s.rxq
    → IsCounted s
    → (t.pcb ≡ true → s.pcb ≡ true)
    → Next s n t
Kept-Next s t n k q c p = record {
  pbufs = rw k.rxq q;
  counted = rw (k.rxq, k.rx_bytes) c;
  grown = omega (arith, ap chain_len k.rxq);
  pcb = p;
  mark = λ m a. omega (arith, m (cc (ap at_mark k.state, a)), k.mark, k.rx_bytes);
}

closed-Next :
    (openers : List Opener) (s : Socket) (tcb : Option Urgent) (n : ℕ)
    → IsPbufs s.rxq
    → IsCounted s
    → Next s n (tcp_recv_cb openers s tcb none).sock
unfolding tcp_recv_cb
closed-Next openers s tcb n q c =
    let s' : Socket = record s { rxeof = true } in
    let same = finish-SameQueue openers s' false fd_close in
    Kept-Next s (finish openers s' false fd_close).0 n
      (record { rxq = same.rxq; rx_bytes = same.rx_bytes; mark = same.mark; state = same.state }) q
      c (λ y. cc (finish-pcb openers s' false fd_close, y))

-- The callbacks that bring no bytes and no close.
abbrev is_other : Callback → Bool
is_other (received tcb p) = false
is_other _ = true

rest-pcb :
    (openers : List Opener) (s : Socket) (c : Callback)
    → is_other c ≡ true
    → (callback openers s c).0.pcb ≡ true
    → s.pcb ≡ true
unfolding callback tcp_sent_cb tcp_err_cb tcp_connected_cb dgram_queue event_wake event
rest-pcb openers s (received tcb p) h y = absurd (cc h)
rest-pcb openers s sent h y = ground arith
rest-pcb openers s (failed e) h y = ground arith
rest-pcb openers s (connected_to q l e) h y = ground arith
rest-pcb openers s (datagram q r d) h y = ground arith

callback-Next :
    (openers : List Opener) (s : Socket) (c : Callback)
    → IsPbufs s.rxq
    → IsCounted s
    → IsDelivery c
    → chain_len s.rxq + delivers c < u32_mod
    → Next s (delivers c) (callback openers s c).0
unfolding callback
callback-Next openers s (received tcb none) q k d b = closed-Next openers s tcb 0 q k
callback-Next openers s (received tcb (some p)) q k d b = delivery-Next openers s tcb p q k d b
callback-Next openers s sent q k d b =
    Kept-Next s _ 0 (sent-Kept openers s) q k (rest-pcb openers s sent refl)
callback-Next openers s (failed e) q k d b =
    Kept-Next s _ 0 (failed-Kept openers s e) q k (rest-pcb openers s (failed e) refl)
callback-Next openers s (connected_to n l e) q k d b =
    Kept-Next s _ 0 (connected_to-Kept openers s n l e) q k
      (rest-pcb openers s (connected_to n l e) refl)
callback-Next openers s (datagram n r x) q k d b =
    Kept-Next s _ 0 (datagram-Kept openers s n r x) q k (rest-pcb openers s (datagram n r x) refl)

pub hear-Next :
    (openers : List Opener) (s : Socket) (cs : List Callback)
    → IsPbufs s.rxq
    → IsCounted s
    → AreDeliveries cs
    → chain_len s.rxq + volume cs < u32_mod
    → Next s (volume cs) (hear openers s cs)
hear-Next openers s [] q k d b = record {
  pbufs = q;
  counted = k;
  grown = omega arith;
  pcb = λ y. y;
  mark = λ m. m;
}
hear-Next openers s (c ∷ cs) q k d b =
    let a = callback-Next openers s c q k d.0 (omega arith) in
    let r =
      hear-Next openers (callback openers s c).0 cs a.pbufs a.counted d.1
        (omega (arith, a.grown)) in
    record {
      pbufs = r.pbufs;
      counted = r.counted;
      grown = omega (arith, a.grown, r.grown);
      pcb = λ y. a.pcb (r.pcb y);
      mark = λ m. r.mark (a.mark m);
    }
