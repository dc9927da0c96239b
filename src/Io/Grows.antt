-- ===== src/Io/Grows.antt =====
-- How the callbacks of an open lock change the byte queue.
use lwip_amiga.Base.{
  ℕ, zero, suc, ◌<◌, ◌≡◌, ◌⊎◌, ◌+◌, ◌-◌, ◌%◌, ◌^◌, ◌&&◌, not, u32_mod, inl, inr, length, Option,
  Bool-cases, leb, ltb, refl, ap, sym, ◌∙◌, Bool, true, false, none, some, List, [], ◌∷◌, ◌++◌,
  arith, append-nil, append_assoc,
}
use lwip_amiga.Sock.State.{Dgram, Chain, Socket, Opener}
use lwip_amiga.Sock.Wake.{event, event_wake, LwipErr, fd_close}
use lwip_amiga.Sock.Recv.{
  Urgent, chain_len, remove_at, excise, tcp_recv_cb, enqueue, map_urgent, finish,
}
use lwip_amiga.Sock.Recv.Stream.{
  bytes, length-bytes, excise-remove_at, finish-SameQueue, recv_event, Accounts,
  map_urgent-Accounts,
}
use lwip_amiga.Sock.Recv.Mark.{bytes-enqueue}
use lwip_amiga.Sock.Callbacks.{
  Callback, received, sent, failed, connected_to, datagram, callback, tcp_sent_cb, tcp_err_cb,
  tcp_connected_cb, dgram_queue,
}
use lwip_amiga.Io.{hear}

-- All of the bytes but one.
abbrev pub LacksOne : List ℕ → List ℕ → Type 0
LacksOne xs ys = (a b : List ℕ) × (y : ℕ) × (ys ≡ a ++ (y ∷ b)) × (xs ≡ a ++ b)

-- The bytes that a callback brings to the queue: those of a delivery, of which one may be missing where
-- there is an urgent mark; the end of the stream and the other callbacks bring none.
abbrev pub Brings : Callback → List ℕ → Type 0
Brings (received none (some p)) xs = xs ≡ bytes p
Brings (received (some u) (some p)) xs = (xs ≡ bytes p) ⊎ LacksOne xs (bytes p)
Brings _ xs = xs ≡ []

-- The bytes that callbacks bring, one after the other.
abbrev pub BringAll : List Callback → List ℕ → Type 0
BringAll [] xs = xs ≡ []
BringAll (c ∷ cs) xs = (a b : List ℕ) × Brings c a × BringAll cs b × (xs ≡ a ++ b)

pub BringAll-append :
    (cs ds : List Callback) (xs ys : List ℕ)
    → BringAll cs xs
    → BringAll ds ys
    → BringAll (cs ++ ds) (xs ++ ys)
BringAll-append [] ds xs ys h k = rw h k
BringAll-append (c ∷ cs) ds xs ys (a, b, h, k, e) l =
    (a, b ++ ys, h, BringAll-append cs ds b ys k l, ap (λ x. x ++ ys) e ∙ append_assoc a b ys)

-- A queue has grown by what callbacks bring.
abbrev pub Grows : List Callback → Socket → Socket → Type 0
Grows cs s t = (tail : List ℕ) × BringAll cs tail × (bytes t.rxq ≡ bytes s.rxq ++ tail)

-- The fields that a read counts with.
pub record Kept (s t : Socket) : Type 0 where
  pub rxq : t.rxq ≡ s.rxq
  pub rx_bytes : t.rx_bytes ≡ s.rx_bytes
  pub mark : t.oob_mark_dist ≡ s.oob_mark_dist
  pub state : t.oob_state ≡ s.oob_state

-- A queue has grown by what one callback brings.
abbrev GrowsBy : Callback → Socket → Socket → Type 0
GrowsBy c s t = (tail : List ℕ) × Brings c tail × (bytes t.rxq ≡ bytes s.rxq ++ tail)

-- A callback that brings nothing leaves the queue as it is.
keeps_queue : (c : Callback) (s t : Socket) → Brings c [] → t.rxq ≡ s.rxq → GrowsBy c s t
keeps_queue c s t h e = ([], h, ap bytes e ∙ sym (append-nil (bytes s.rxq)))

pub sent-Kept : (openers : List Opener) (s : Socket) → Kept s (callback openers s sent).0
unfolding callback tcp_sent_cb event_wake event
sent-Kept openers s = ground arith

pub failed-Kept :
    (openers : List Opener) (s : Socket) (e : LwipErr) → Kept s (callback openers s (failed e)).0
unfolding callback tcp_err_cb event_wake event
failed-Kept openers s e = ground arith

pub connected_to-Kept :
    (openers : List Opener) (s : Socket) (seq : ℕ) (local : Bool) (e : LwipErr)
    → Kept s (callback openers s (connected_to seq local e)).0
unfolding callback tcp_connected_cb event_wake event
connected_to-Kept openers s seq local e = ground arith

pub datagram-Kept :
    (openers : List Opener) (s : Socket) (drops : ℕ) (room : Bool) (d : Dgram)
    → Kept s (callback openers s (datagram drops room d)).0
unfolding callback dgram_queue event_wake event
datagram-Kept openers s drops room d = ground arith

remove_at-LacksOne : (i : ℕ) (xs : List ℕ) → i < length xs → LacksOne (remove_at i xs) xs
unfolding remove_at
remove_at-LacksOne i [] h = absurd (omega arith)
remove_at-LacksOne zero (x ∷ xs) h = ([], xs, x, refl, refl)
remove_at-LacksOne (suc i) (x ∷ xs) h =
    let (a, b, y, e, f) = remove_at-LacksOne i xs (omega arith) in
    (x ∷ a, b, y, ap (◌∷◌ x) e, ap (◌∷◌ x) f)

-- The mapping of a mark leaves the delivery, or all of it but one byte.
map_urgent-chain :
    (s : Socket) (u : Urgent) (p : Chain)
    → let m = map_urgent s (some u) p in
      (m.chain ≡ p) ⊎ ((i : ℕ) × (i < chain_len p) × (m.chain ≡ (excise i p).1))
unfolding map_urgent
map_urgent-chain s u p =
    let d : ℕ = (u.rcv_up + u32_mod - s.rx_next_seq) % u32_mod in
    elim (Bool-cases (u.urg_rcv && not (leb (2 ^ 31) d) && ltb d (chain_len p))) [
      | inr z ↦ inl (ground (arith, z))
      | inl z ↦ elim (Bool-cases s.oob_inline) [
        | inl y ↦ inl (ground (arith, z, y))
        | inr y ↦ inr (d, ground (arith, z), ground (arith, z, y))
      ]
    ]

map_urgent-Brings :
    (s : Socket) (tcb : Option Urgent) (p : Chain)
    → Brings (received tcb (some p)) (bytes (map_urgent s tcb p).chain)
unfolding map_urgent
map_urgent-Brings s none p = refl
map_urgent-Brings s (some u) p = elim (map_urgent-chain s u p) [
  | inl e ↦ inl (ap bytes e)
  | inr (i, l, e) ↦
      let (a, b, y, f, g) = remove_at-LacksOne i (bytes p) (omega (arith, l, length-bytes p)) in
      inr (a, b, y, f, ap bytes e ∙ (excise-remove_at i p l).1 ∙ g)
]

callback-GrowsBy :
    (openers : List Opener) (s : Socket) (c : Callback) → GrowsBy c s (callback openers s c).0
unfolding callback tcp_recv_cb
callback-GrowsBy openers s (received none none) =
    keeps_queue (received none none) s (finish openers (record s { rxeof = true }) false fd_close).0
      refl (finish-SameQueue openers (record s { rxeof = true }) false fd_close).rxq
callback-GrowsBy openers s (received (some u) none) =
    keeps_queue (received (some u) none) s
      (finish openers (record s { rxeof = true }) false fd_close).0 refl
      (finish-SameQueue openers (record s { rxeof = true }) false fd_close).rxq
callback-GrowsBy openers s (received tcb (some p)) =
    let m = map_urgent s tcb p in
    let a : Accounts s p m = map_urgent-Accounts s tcb p in
    let same = finish-SameQueue openers (enqueue m p) m.newoob (recv_event m p) in
    (
      bytes m.chain,
      map_urgent-Brings s tcb p,
      ap bytes same.rxq ∙ bytes-enqueue m p a.split ∙ ap (λ q. bytes q ++ bytes m.chain) a.queue,
    )
callback-GrowsBy openers s sent =
    keeps_queue sent s (callback openers s sent).0 refl (sent-Kept openers s).rxq
callback-GrowsBy openers s (failed e) =
    keeps_queue (failed e) s (callback openers s (failed e)).0 refl (failed-Kept openers s e).rxq
callback-GrowsBy openers s (connected_to q l e) =
    keeps_queue (connected_to q l e) s (callback openers s (connected_to q l e)).0 refl
      (connected_to-Kept openers s q l e).rxq
callback-GrowsBy openers s (datagram q r d) =
    keeps_queue (datagram q r d) s (callback openers s (datagram q r d)).0 refl
      (datagram-Kept openers s q r d).rxq

pub hear-Grows :
    (openers : List Opener) (s : Socket) (cs : List Callback) → Grows cs s (hear openers s cs)
hear-Grows openers s [] = ([], refl, sym (append-nil (bytes s.rxq)))
hear-Grows openers s (c ∷ cs) =
    let (a, h, e) = callback-GrowsBy openers s c in
    let (b, k, f) = hear-Grows openers (callback openers s c).0 cs in
    (a ++ b, (a, b, h, k, refl), f ∙ ap (λ x. x ++ b) e ∙ append_assoc (bytes s.rxq) a b)
