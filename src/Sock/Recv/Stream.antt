-- ===== src/Sock/Recv/Stream.antt =====
-- What a delivery leaves in the byte queue.
use lwip_amiga.Base.{
  ℕ, zero, suc, ◌+◌, ◌-◌, ◌%◌, ◌<◌, ◌≡◌, refl, ap, sym, ◌∙◌, Bool, Option, none, some, List, [],
  ◌∷◌, ◌++◌, ◌==◌, leb, if◌then◌else◌, length, get_or, length-append, u32_mod, arith, append_assoc,
}
use native.Mathlib.Nat.{sub-zero}
use lwip_amiga.Sock.State.{Chain, Socket, Opener}
use lwip_amiga.Sock.Wake.{event, fd_read}
use lwip_amiga.Sock.Recv.{
  Urgent, chain_len, remove_at, excise, Mapped, map_urgent, finish, enqueue, tcp_recv_cb,
}

-- The bytes of a chain as a stream.
abbrev pub bytes : Chain → List ℕ
bytes [] = []
bytes (h ∷ rest) = h ++ bytes rest

pub length-bytes : (c : Chain) → length (bytes c) ≡ chain_len c
length-bytes [] = refl
length-bytes (h ∷ rest) = omega (arith, length-append h (bytes rest), length-bytes rest)

pub bytes-append : (c d : Chain) → bytes (c ++ d) ≡ bytes c ++ bytes d
bytes-append [] d = refl
bytes-append (h ∷ rest) d =
    ap (◌++◌ h) (bytes-append rest d) ∙ sym (append_assoc h (bytes rest) (bytes d))

get_or-append :
    (h t : List ℕ) (i : ℕ)
    → get_or (h ++ t) i 0 ≡ (if leb (length h) i then get_or t (i - length h) 0 else get_or h i 0)
get_or-append [] t i = ground (arith, sub-zero i)
get_or-append (x ∷ h) t zero = ground arith
get_or-append (x ∷ h) t (suc i) = ground (arith, get_or-append h t i)

remove_at-append :
    (h t : List ℕ) (i : ℕ)
    → remove_at i (h ++ t)
      ≡ (if leb (length h) i then h ++ remove_at (i - length h) t else remove_at i h ++ t)
unfolding remove_at
remove_at-append [] t i = ground (arith, sub-zero i)
remove_at-append (x ∷ h) t zero = ground arith
remove_at-append (x ∷ h) t (suc i) = ground (arith, remove_at-append h t i)

pub excise-remove_at :
    (off : ℕ) (c : Chain)
    → off < chain_len c
    → ((excise off c).0 ≡ get_or (bytes c) off 0)
      × (bytes (excise off c).1 ≡ remove_at off (bytes c))
unfolding excise
excise-remove_at off [] h = absurd (omega arith)
excise-remove_at off (x ∷ rest) h = ground (
  arith,
  get_or-append x (bytes rest) off,
  remove_at-append x (bytes rest) off,
  excise-remove_at (off - length x) rest,
)

pub length-remove_at :
    (i : ℕ) (xs : List ℕ) → i < length xs → length (remove_at i xs) + 1 ≡ length xs
unfolding remove_at
length-remove_at i [] h = absurd (omega arith)
length-remove_at zero (x ∷ xs) h = omega arith
length-remove_at (suc i) (x ∷ xs) h = omega (arith, length-remove_at i xs (omega arith))

-- The end of the callback touches no field of the queue or of the mark.
pub record SameQueue (s t : Socket) : Type 0 where
  pub rxq : t.rxq ≡ s.rxq
  pub rx_bytes : t.rx_bytes ≡ s.rx_bytes
  pub seq : t.rx_next_seq ≡ s.rx_next_seq
  pub mark : t.oob_mark_dist ≡ s.oob_mark_dist
  pub state : t.oob_state ≡ s.oob_state
  pub byte : t.oob_byte ≡ s.oob_byte

pub finish-SameQueue :
    (openers : List Opener) (s : Socket) (newoob : Bool) (ev : ℕ)
    → SameQueue s (finish openers s newoob ev).0
unfolding finish event
finish-SameQueue openers s newoob ev = ground arith

chain_len-append : (c d : Chain) → chain_len (c ++ d) ≡ chain_len c + chain_len d
chain_len-append [] d = omega arith
chain_len-append (h ∷ rest) d = omega (arith, chain_len-append rest d)

pub chain_len-excise :
    (off : ℕ) (c : Chain) → off < chain_len c → chain_len (excise off c).1 + 1 ≡ chain_len c
chain_len-excise off c h =
    let cut = excise-remove_at off c h in
    omega (
      arith,
      ap length cut.1,
      length-bytes (excise off c).1,
      length-bytes c,
      length-remove_at off (bytes c) (omega (arith, length-bytes c)),
    )

-- What the mapping of the mark leaves of the accounting: the bytes queued and the credit returned
-- make up the delivery, and the queue fields are untouched.
pub record Accounts (s : Socket) (p : Chain) (m : Mapped) : Type 0 where
  pub split : chain_len m.chain + m.credit ≡ chain_len p
  pub queue : m.sock.rxq ≡ s.rxq
  pub count : m.sock.rx_bytes ≡ s.rx_bytes
  seq : m.sock.rx_next_seq ≡ s.rx_next_seq

pub map_urgent-Accounts :
    (s : Socket) (tcb : Option Urgent) (p : Chain) → Accounts s p (map_urgent s tcb p)
unfolding map_urgent
map_urgent-Accounts s none p = ground arith
map_urgent-Accounts s (some u) p =
    ground (arith, chain_len-excise ((u.rcv_up + u32_mod - s.rx_next_seq) % u32_mod) p)

-- The byte count of the socket is the length of its queue.
abbrev pub IsCounted : Socket → Type 0
IsCounted s = s.rx_bytes ≡ chain_len s.rxq

abbrev pub recv_event : Mapped → Chain → ℕ
recv_event m p = if chain_len p - m.credit == 0 then 0 else fd_read

enqueue_counts :
    (s : Socket) (p : Chain) (m : Mapped)
    → Accounts s p m
    → IsCounted s
    → s.rx_bytes + chain_len p < u32_mod
    → IsCounted (enqueue m p)
      × ((enqueue m p).rx_bytes + m.credit ≡ s.rx_bytes + chain_len p)
      × ((enqueue m p).rx_next_seq ≡ (s.rx_next_seq + chain_len p) % u32_mod)
unfolding enqueue
enqueue_counts s p m a v h = ground (arith, a.queue, chain_len-append s.rxq m.chain)

-- On every branch a delivery that fits the counters keeps the byte count equal to the length of the
-- queue; each of its bytes is either queued or returned as window credit; and the expected sequence
-- number moves on by the whole delivery, modulo 2 ^ 32.
pub tcp_recv_cb-IsCounted :
    (openers : List Opener) (s : Socket) (tcb : Option Urgent) (p : Chain)
    → IsCounted s
    → s.rx_bytes + chain_len p < u32_mod
    → let r = tcp_recv_cb openers s tcb (some p) in
      IsCounted r.sock
      × (r.sock.rx_bytes + r.credit ≡ s.rx_bytes + chain_len p)
      × (r.sock.rx_next_seq ≡ (s.rx_next_seq + chain_len p) % u32_mod)
unfolding tcp_recv_cb
tcp_recv_cb-IsCounted openers s tcb p v h =
    let m = map_urgent s tcb p in
    let same = finish-SameQueue openers (enqueue m p) m.newoob (recv_event m p) in
    rw (same.rxq, same.rx_bytes, same.seq) (enqueue_counts s p m (map_urgent-Accounts s tcb p) v h)
