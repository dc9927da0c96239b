-- ===== src/Sock/Callbacks/Wakes.antt =====
-- Whom the callbacks signal.
use lwip_amiga.Base.{
  ℕ, ◌≡◌, ◌⊎◌, inl, inr, refl, Bool, true, false, Option, none, some, List, [], ◌∷◌, ◌++◌, ◌==◌,
  if◌then◌else◌, leb, ◌-◌, ◌^◌, ap, bit_or, bit_and, Option-cases, arith, get_elem?, Bool-cases,
}
use lwip_amiga.Sock.State.{Socket, Opener, Chain}
use lwip_amiga.Sock.Owners.{Slots}
use lwip_amiga.Sock.Wake.{
  Signals, fd_read, fd_close, fd_oob, fd_write, wake_urg, signal_owners, wake, wake_mask, event,
  event_wake, is_readable,
}
use lwip_amiga.Sock.Recv.{Urgent, map_urgent, enqueue, chain_len, tcp_recv_cb, finish}
use lwip_amiga.Sock.Callbacks.{
  is_err_ok, dgram_qmax, tcp_sent_cb, tcp_err_cb, tcp_connected_cb, dgram_queue, Callback, received,
  sent, failed, connected_to, datagram, callback,
}

-- A signal call is among those posted.
abbrev pub Posted : ℕ × ℕ → Signals → Type 0
Posted c [] = ⊥
Posted c (x ∷ rest) = (c ≡ x) ⊎ Posted c rest

-- An opener owns a descriptor of the socket.
abbrev pub Owns : ℕ → Slots → Type 0
Owns b [] = ⊥
Owns b (none ∷ rest) = Owns b rest
Owns b (some o ∷ rest) = (o.base ≡ b) ⊎ Owns b rest

Posted-append : (c : ℕ × ℕ) (xs ys : Signals) → Posted c ys → Posted c (xs ++ ys)
Posted-append c [] ys h = h
Posted-append c (x ∷ xs) ys h = inr (Posted-append c xs ys h)

pub signal_owners-Posted :
    (openers : List Opener) (mask : Opener → Option ℕ) (slots : Slots) (b m : ℕ) (o : Opener)
    → Owns b slots
    → get_elem? openers b ≡ some o
    → o.task ≡ true
    → mask o ≡ some m
    → Posted (b, m) (signal_owners openers mask slots)
unfolding signal_owners
signal_owners-Posted openers mask [] b m o h e t k = absurd h
signal_owners-Posted openers mask (none ∷ rest) b m o h e t k =
    signal_owners-Posted openers mask rest b m o h e t k
signal_owners-Posted openers mask (some r ∷ rest) b m o (inl h) e t k =
    grind (arith, signal_owners-Posted openers mask rest b m o)
signal_owners-Posted openers mask (some r ∷ rest) b m o (inr h) e t k =
    let rec = signal_owners-Posted openers mask rest b m o h e t k in
    elim (Option-cases (get_elem? openers r.base)) [
      | inl n ↦ ground (arith, rec)
      | inr (x, f) ↦ elim (Option-cases (mask x)) [
        | inl n ↦ elim (Bool-cases x.task) [
          | inl y ↦ ground (arith, rec)
          | inr y ↦ ground (arith, rec)
        ]
        | inr (y, g) ↦ elim (Bool-cases x.task) [
          | inl y ↦ ground (arith, rec)
          | inr y ↦ ground (arith, rec)
        ]
      ]
    ]

wake-Posted :
    (openers : List Opener) (s : Socket) (ev b : ℕ) (o : Opener)
    → Owns b s.owners
    → get_elem? openers b ≡ some o
    → o.task ≡ true
    → Posted (b, wake_mask s o) (wake openers (event openers s ev).0)
unfolding wake event
wake-Posted openers s ev b o h e t =
    let rec =
      signal_owners-Posted openers (λ x. some (wake_mask s x)) s.owners b (wake_mask s o) o h e t
        refl in
    elim (Bool-cases (bit_and ev s.event_mask == 0)) [
      | inl z ↦ ground (arith, rec)
      | inr z ↦ ground (arith, rec)
    ]

pub event_wake-Posted :
    (openers : List Opener) (s : Socket) (ev b : ℕ) (o : Opener)
    → Owns b s.owners
    → get_elem? openers b ≡ some o
    → o.task ≡ true
    → Posted (b, wake_mask s o) (event_wake openers s ev).1
unfolding event_wake
event_wake-Posted openers s ev b o h e t =
    Posted-append _ (event openers s ev).1 _ (wake-Posted openers s ev b o h e t)

finish-Posted :
    (openers : List Opener) (s : Socket) (newoob : Bool) (ev b : ℕ) (o : Opener)
    → Owns b s.owners
    → get_elem? openers b ≡ some o
    → o.task ≡ true
    → Posted (b, wake_mask s o) (finish openers s newoob ev).1
unfolding finish
finish-Posted openers s newoob ev b o h e t =
    let ev' = if newoob then bit_or ev fd_oob else ev in
    Posted-append _ ((if newoob then wake_urg openers s else []) ++ (event openers s ev').1) _
      (wake-Posted openers s ev' b o h e t)

map_urgent-owners :
    (s : Socket) (tcb : Option Urgent) (p : Chain)
    → ((enqueue (map_urgent s tcb p) p).owners ≡ s.owners)
      × ((enqueue (map_urgent s tcb p) p).async_io ≡ s.async_io)
unfolding map_urgent enqueue
map_urgent-owners s none p = ground arith
map_urgent-owners s (some u) p = ground arith

Posted-cast : {m m' : ℕ} (b : ℕ) (xs : Signals) → m ≡ m' → Posted (b, m) xs → Posted (b, m') xs
Posted-cast b xs e h = rw (← e) h

received-Posted :
    (openers : List Opener) (s : Socket) (tcb : Option Urgent) (p : Option Chain) (b : ℕ)
    (o : Opener)
    → Owns b s.owners
    → get_elem? openers b ≡ some o
    → o.task ≡ true
    → Posted (b, wake_mask s o) (tcp_recv_cb openers s tcb p).posted
unfolding tcp_recv_cb
received-Posted openers s tcb none b o h e t =
    finish-Posted openers (record s { rxeof = true }) false fd_close b o h e t
received-Posted openers s tcb (some p) b o h e t =
    let m = map_urgent s tcb p in
    let (f, g) = map_urgent-owners s tcb p in
    Posted-cast b _
      (ap (λ a. bit_or (bit_or (2 ^ o.sig_bit) (if a then o.sig_io_mask else 0)) o.sig_event_mask)
        g)
      (finish-Posted openers (enqueue m p) m.newoob
        (if chain_len p - m.credit == 0 then 0 else fd_read) b o (rw f h) e t)

-- Of the callbacks for received bytes, sent bytes, an error, a connection made and a datagram, one that
-- makes a socket readable signals each opener that owns one of the socket's slots and has a task, with
-- the mask of the socket's wake-ups.
pub callback-Posted :
    (openers : List Opener) (s : Socket) (c : Callback) (b : ℕ) (o : Opener)
    → Owns b s.owners
    → get_elem? openers b ≡ some o
    → o.task ≡ true
    → is_readable s ≡ false
    → is_readable (callback openers s c).0 ≡ true
    → Posted (b, wake_mask s o) (callback openers s c).1
unfolding callback tcp_sent_cb tcp_err_cb tcp_connected_cb dgram_queue
callback-Posted openers s (received tcb p) b o h e t x y = received-Posted openers s tcb p b o h e t
callback-Posted openers s sent b o h e t x y = event_wake-Posted openers s fd_write b o h e t
callback-Posted openers s (failed r) b o h e t x y = event_wake-Posted openers _ _ b o h e t
callback-Posted openers s (connected_to seq local r) b o h e t x y =
    elim (Bool-cases (is_err_ok r)) [
      | inl z ↦ rw z (event_wake-Posted openers _ _ b o h e t)
      | inr z ↦ rw z (event_wake-Posted openers _ _ b o h e t)
    ]
callback-Posted openers s (datagram drops room d) b o h e t x y =
    elim (Bool-cases (leb dgram_qmax s.ndgrams)) [
      | inl z ↦ absurd (ground (arith, x, y, z))
      | inr z ↦ elim (Bool-cases room) [
        | inl r ↦ rw (z, r) (event_wake-Posted openers _ fd_read b o h e t)
        | inr r ↦ absurd (ground (arith, x, y, z, r))
      ]
    ]
