-- ===== src/Sock/Recv/Mark.antt =====
-- What a delivery does with the urgent byte: excised from the stream, or left in it.
use lwip_amiga.Base.{
  ℕ, ◌+◌, ◌-◌, ◌%◌, ◌^◌, ◌≤◌, ◌<◌, ◌≡◌, ◌⊎◌, refl, ap, ◌∙◌, true, false, Option, none, some, List,
  [], ◌∷◌, ◌++◌, length, get_or, u32_mod, arith, append-nil,
}
use lwip_amiga.Sock.State.{have, Chain, Socket, Opener}
use lwip_amiga.Sock.Recv.{
  Urgent, chain_len, remove_at, excise, Mapped, map_urgent, finish, enqueue, tcp_recv_cb,
}
use lwip_amiga.Sock.Recv.Stream.{
  bytes, length-bytes, bytes-append, excise-remove_at, chain_len-excise, SameQueue,
  finish-SameQueue, recv_event,
}

-- The distance from the next expected byte to the mark, in sequence space.
abbrev pub mark_offset : Socket → Urgent → ℕ
mark_offset s u = (u.rcv_up + u32_mod - s.rx_next_seq) % u32_mod

empty_of_length : (xs : List ℕ) → length xs ≡ 0 → xs ≡ []
empty_of_length [] h = refl
empty_of_length (x ∷ xs) h = absurd (omega arith)

-- Queueing appends the bytes that the mapping left, also where none are left.
pub bytes-enqueue :
    (m : Mapped) (p : Chain)
    → chain_len m.chain + m.credit ≡ chain_len p
    → bytes (enqueue m p).rxq ≡ bytes m.sock.rxq ++ bytes m.chain
unfolding enqueue
bytes-enqueue m p h = ground (
  arith,
  bytes-append m.sock.rxq m.chain,
  empty_of_length (bytes m.chain),
  length-bytes m.chain,
  append-nil (bytes m.sock.rxq),
)

-- The mapping of a mark inside the delivery that is to be excised.
abbrev cut_out : Socket → Urgent → Chain → Mapped
cut_out s u p = record {
  sock = record s {
    oob_mark_dist = (s.rx_bytes + mark_offset s u) % u32_mod;
    oob_state = have;
    oob_byte = (excise (mark_offset s u) p).0;
  };
  tcb = some (record u { urg_rcv = false });
  chain = (excise (mark_offset s u) p).1;
  credit = 1;
  newoob = true;
}

map_urgent_inside :
    (s : Socket) (u : Urgent) (p : Chain)
    → u.urg_rcv ≡ true
    → s.oob_inline ≡ false
    → mark_offset s u < 2 ^ 31
    → mark_offset s u < chain_len p
    → map_urgent s (some u) p ≡ cut_out s u p
unfolding map_urgent
map_urgent_inside s u p hu hi hd hl = ground arith

enqueue_mark :
    (m : Mapped) (p : Chain)
    → ((enqueue m p).oob_byte ≡ m.sock.oob_byte)
      × ((enqueue m p).oob_mark_dist ≡ m.sock.oob_mark_dist)
      × ((enqueue m p).oob_state ≡ m.sock.oob_state)
unfolding enqueue
enqueue_mark m p = ground arith

-- A mark inside the delivery, on a socket without SO_OOBINLINE: the stream gets every byte of the
-- delivery but the one at the mark; that byte is latched, its window credit returned, the distance
-- from the read point to the mark is the bytes queued in front of it, and the pcb's mark is cleared.
pub tcp_recv_cb_excises :
    (openers : List Opener) (s : Socket) (u : Urgent) (p : Chain)
    → u.urg_rcv ≡ true
    → s.oob_inline ≡ false
    → mark_offset s u < 2 ^ 31
    → mark_offset s u < chain_len p
    → s.rx_bytes + chain_len p < u32_mod
    → let r = tcp_recv_cb openers s (some u) (some p) in
      (bytes r.sock.rxq ≡ bytes s.rxq ++ remove_at (mark_offset s u) (bytes p))
      × (r.sock.oob_byte ≡ get_or (bytes p) (mark_offset s u) 0)
      × (r.sock.oob_mark_dist ≡ s.rx_bytes + mark_offset s u)
      × (r.sock.oob_state ≡ have)
      × (r.tcb ≡ some (record u { urg_rcv = false }))
      × (r.credit ≡ 1)
unfolding tcp_recv_cb
tcp_recv_cb_excises openers s u p hu hi hd hl hb =
    rw (map_urgent_inside s u p hu hi hd hl, same.rxq, same.byte, same.mark, same.state)
      (
        bytes-enqueue m p (chain_len-excise d p hl) ∙ ap (◌++◌ (bytes s.rxq)) cut.1,
        (enqueue_mark m p).0 ∙ cut.0,
        (enqueue_mark m p).1 ∙ omega arith,
        (enqueue_mark m p).2,
        refl,
        refl,
      )
  where
    d : ℕ
    d = mark_offset s u

    m : Mapped
    m = cut_out s u p

    same : SameQueue (enqueue m p) (finish openers (enqueue m p) m.newoob (recv_event m p)).0
    same = finish-SameQueue openers (enqueue m p) m.newoob (recv_event m p)

    cut : ((excise d p).0 ≡ get_or (bytes p) d 0) × (bytes (excise d p).1 ≡ remove_at d (bytes p))
    cut = excise-remove_at d p hl

-- There is no byte to excise: no pcb, SO_OOBINLINE, no latched mark, a stale mark below the data
-- already delivered, or a mark beyond the delivery.
abbrev pub InBand : Socket → Option Urgent → Chain → Type 0
InBand s none p = Unit {0}
InBand s (some u) p =
    (s.oob_inline ≡ true)
    ⊎ (u.urg_rcv ≡ false)
    ⊎ (2 ^ 31 ≤ mark_offset s u)
    ⊎ (chain_len p ≤ mark_offset s u)

map_urgent-InBand :
    (s : Socket) (tcb : Option Urgent) (p : Chain)
    → InBand s tcb p
    → ((map_urgent s tcb p).chain ≡ p)
      × ((map_urgent s tcb p).credit ≡ 0)
      × ((map_urgent s tcb p).sock.rxq ≡ s.rxq)
      × ((map_urgent s tcb p).sock.oob_byte ≡ s.oob_byte)
unfolding map_urgent
map_urgent-InBand s none p h = (refl, refl, refl, refl)
map_urgent-InBand s (some u) p h = ground arith

-- A delivery with no byte to excise: the stream gets every byte of it in order, the latched byte is
-- untouched, and no window credit is returned.
pub tcp_recv_cb-InBand :
    (openers : List Opener) (s : Socket) (tcb : Option Urgent) (p : Chain)
    → InBand s tcb p
    → let r = tcp_recv_cb openers s tcb (some p) in
      (bytes r.sock.rxq ≡ bytes s.rxq ++ bytes p) × (r.sock.oob_byte ≡ s.oob_byte) × (r.credit ≡ 0)
unfolding tcp_recv_cb
tcp_recv_cb-InBand openers s tcb p h =
    let (whole, credit, queue, byte) = map_urgent-InBand s tcb p h in
    rw (same.rxq, same.byte)
      (
        bytes-enqueue m p (omega (arith, ap chain_len whole, credit)) ∙ cc (whole, queue),
        (enqueue_mark m p).0 ∙ byte,
        credit,
      )
  where
    m : Mapped
    m = map_urgent s tcb p

    same : SameQueue (enqueue m p) (finish openers (enqueue m p) m.newoob (recv_event m p)).0
    same = finish-SameQueue openers (enqueue m p) m.newoob (recv_event m p)
