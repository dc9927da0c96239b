-- ===== src/Sock/Accept/Owner.antt =====
-- The owner of an accepted socket, and whom its wake-ups reach.
use lwip_amiga.Base.{
  ℕ, ◌+◌, ◌-◌, ◌<◌, ◌≡◌, ◌≢◌, ◌⊎◌, inl, inr, bit_and, lt→ltb, if◌then◌else◌, ◌==◌, ◌∙◌, ap, Bool,
  true, Option, none, some, List, [], ◌∷◌, ◌++◌, arith, Bool-cases, ==→eq, Option-cases, length,
  get_elem?,
}
use lwip_amiga.Sock.State.{tcp, Socket, Opener}
use lwip_amiga.Sock.Owners.{Slots, owner_first}
use lwip_amiga.Sock.Wake.{
  fd_accept, is_readable, event, event_wake, signal_owners, wake, wake_urg, wake_mask,
}
use lwip_amiga.Sock.Callbacks.Wakes.{Posted, Owns, event_wake-Posted}
use lwip_amiga.Sock.Accept.{Store, live, fd_alloc, accept_cb, accepted, accept}
use lwip_amiga.Sock.Accept.Queue.{
  get_elem?-lt, get_elem?-set, get_elem?-set_ne, live-lt, accept_cb_queues,
}

signal_owners-Owns :
    (openers : List Opener) (mask : Opener → Option ℕ) (slots : Slots) (b m : ℕ)
    → Posted (b, m) (signal_owners openers mask slots)
    → Owns b slots
unfolding signal_owners
signal_owners-Owns openers mask [] b m h = h
signal_owners-Owns openers mask (none ∷ rest) b m h = signal_owners-Owns openers mask rest b m h
signal_owners-Owns openers mask (some r ∷ rest) b m h =
    let later = signal_owners-Owns openers mask rest b m in
    elim (Option-cases (get_elem? openers r.base)) [
      | inl n ↦ inr (later (ground (arith, h, n)))
      | inr (x, f) ↦ elim (Bool-cases x.task) [
        | inr t ↦ inr (later (ground (arith, h, f, t)))
        | inl t ↦ elim (Option-cases (mask x)) [
          | inl n ↦ inr (later (ground (arith, h, f, t, n)))
          | inr (y, g) ↦ elim (Bool-cases (r.base == b)) [
            | inl z ↦ inl (==→eq r.base b z)
            | inr z ↦ inr (later (ground (arith, h, f, t, g, z)))
          ]
        ]
      ]
    ]

-- A descriptor of `b` is given to the socket at the head of the queue, which stays as it was.
accept_takes :
    (root : ℕ) (st : Store) (b : ℕ) (o : Opener) (l : ℕ) (s : Socket) (nonblock : Bool) (q : ℕ)
    (rest : List ℕ) (r : ℕ × List (Option ℕ))
    → s.listening ≡ true
    → s.acceptq ≡ q ∷ rest
    → 0 < s.naccept
    → fd_alloc o.fd q ≡ some r
    → get_elem? st.openers b ≡ some o
    → l ≢ q
    → let (st', res) = accept root st b o l s nonblock in
      (res ≡ accepted r.0)
      × (get_elem? st'.openers b ≡ some (record o { fd = r.1 }))
      × (live st' q ≡ live st q)
unfolding accept
accept_takes root st b o l s nonblock q rest r e f n g h k =
    let s' = record s { acceptq = rest; naccept = s.naccept - 1 } in
    ground (
      arith,
      e,
      f,
      n,
      g,
      h,
      get_elem?-set st.openers b (record o { fd = r.1 }) (get_elem?-lt st.openers b o h),
      get_elem?-set_ne st.socks l q (some s') k,
    )

-- Whom any of a socket's signals reach: the wake-up, the signal for urgent data, and that for an event.
abbrev pub Signalled : List Opener → Socket → ℕ → ℕ → Type 0
Signalled openers s b m =
    Posted (b, m) (wake openers s)
    ⊎ Posted (b, m) (wake_urg openers s)
    ⊎ ((ev : ℕ) × Posted (b, m) (event openers s ev).1)

event-Owns :
    (openers : List Opener) (s : Socket) (ev b m : ℕ)
    → Posted (b, m) (event openers s ev).1
    → Owns b s.owners
unfolding event
event-Owns openers s ev b m h = elim (Bool-cases (bit_and ev s.event_mask == 0)) [
  | inl z ↦ absurd (ground (arith, h, z))
  | inr z ↦
      signal_owners-Owns openers
        (λ x. if x.sig_event_mask == 0 then none else some x.sig_event_mask) s.owners b m
        (ground (arith, h, z))
]

Signalled-Owns :
    (openers : List Opener) (s : Socket) (b m : ℕ) → Signalled openers s b m → Owns b s.owners
unfolding wake wake_urg
Signalled-Owns openers s b m (inl h) =
    signal_owners-Owns openers (λ x. some (wake_mask s x)) s.owners b m h
Signalled-Owns openers s b m (inr (inl h)) =
    signal_owners-Owns openers (λ x. if x.sig_urg_mask == 0 then none else some x.sig_urg_mask)
      s.owners b m h
Signalled-Owns openers s b m (inr (inr (ev, h))) = event-Owns openers s ev b m h

-- The owner slots of a socket that one opener has once, and nobody else.
abbrev pub sole : ℕ → Slots
sole a = some (record { base = a; fdrefs = 1 }) ∷ none ∷ none ∷ none ∷ []

-- A listener with an empty queue takes a connection, and an opener that is not its first owner accepts
-- it with a free descriptor: the call gives the lowest free descriptor, and the owner slots of the
-- socket behind it name the listener's first owner alone. No signal of any socket with these slots -
-- whatever its other fields, and the openers' state - goes to the opener that accepted.
pub accept-accept_cb :
    (root : ℕ) (st : Store) (l rcv a b : ℕ) (lst : Socket) (o : Opener) (nonblock : Bool)
    (r : ℕ × List (Option ℕ))
    → live st l ≡ some lst
    → lst.listening ≡ true
    → lst.acceptq ≡ []
    → lst.naccept ≡ 0
    → owner_first lst.owners ≡ some a
    → a ≢ b
    → get_elem? st.openers b ≡ some o
    → fd_alloc o.fd (length st.socks) ≡ some r
    → (lst' : Socket) × (live (accept_cb st l rcv true).0 l ≡ some lst')
      × (let (st', res) = accept root (accept_cb st l rcv true).0 b o l lst' nonblock in
          (res ≡ accepted r.0)
          × (get_elem? st'.openers b ≡ some (record o { fd = r.1 }))
          × ((s : Socket) × (live st' (length st.socks) ≡ some s) × (s.owners ≡ sole a)))
      × ((openers : List Opener) (s : Socket) (m : ℕ)
          → s.owners ≡ sole a
          → ¬ Signalled openers s b m)
accept-accept_cb root st l rcv a b lst o nonblock r e p q n w d g f =
    let ((lst', e1, p1, q1, n1, k1), (s, e2, w2), k) =
      accept_cb_queues st l rcv a lst e w (omega arith) in
    let (x, y, z) =
      accept_takes root (accept_cb st l rcv true).0 b o l lst' nonblock (length st.socks) [] r
        (p1 ∙ p) (q1 ∙ ap (λ t. t ++ (length st.socks ∷ [])) q) (omega arith) f
        (ap (λ t. get_elem? t b) k ∙ g) (λ j. ground (arith, j, live-lt st l lst e)) in
    (
      lst',
      e1,
      (x, y, (s, z ∙ e2, w2)),
      λ openers t m own h. ground (arith, d, own, Signalled-Owns openers t b m h),
    )

accept_cb_posts :
    (st : Store) (l rcv a : ℕ) (lst : Socket)
    → live st l ≡ some lst
    → owner_first lst.owners ≡ some a
    → lst.naccept < 16
    → (accept_cb st l rcv true).2
      ≡ (event_wake st.openers
          (record lst {
            acceptq = lst.acceptq ++ (length st.socks ∷ []);
            naccept = lst.naccept + 1;
          })
          fd_accept).1
unfolding accept_cb
accept_cb_posts st l rcv a lst e w n = ground (arith, e, w, lt→ltb lst.naccept 16 n)

readable_listener : (s : Socket) → s.kind ≡ tcp → (n : ℕ) → s.naccept ≡ n + 1 → is_readable s ≡ true
unfolding is_readable
readable_listener s t n e = ground (arith, t, e)

-- A listener that a base owns and whose queue has room takes a connection: it is readable afterwards,
-- and each opener that owns one of its slots and has a task is signalled with the mask of the
-- listener's wake-ups.
pub accept_cb-Posted :
    (st : Store) (l rcv a b : ℕ) (lst : Socket) (o : Opener)
    → live st l ≡ some lst
    → lst.kind ≡ tcp
    → owner_first lst.owners ≡ some a
    → lst.naccept < 16
    → Owns b lst.owners
    → get_elem? st.openers b ≡ some o
    → o.task ≡ true
    → ((lst' : Socket) × (live (accept_cb st l rcv true).0 l ≡ some lst')
        × (is_readable lst' ≡ true))
      × Posted (b, wake_mask lst o) (accept_cb st l rcv true).2
accept_cb-Posted st l rcv a b lst o e t w n h g f =
    let (lst', e1, p1, q1, n1, k1) = (accept_cb_queues st l rcv a lst e w n).0 in
    let new = record lst {
      acceptq = lst.acceptq ++ (length st.socks ∷ []);
      naccept = lst.naccept + 1;
    } in
    (
      (lst', e1, readable_listener lst' (k1 ∙ t) lst.naccept n1),
      rw (accept_cb_posts st l rcv a lst e w n)
          (event_wake-Posted st.openers new fd_accept b o h g f),
    )
