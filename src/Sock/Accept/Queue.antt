-- ===== src/Sock/Accept/Queue.antt =====
-- The accept queue of a listener.
use lwip_amiga.Base.{
  ltb, length-append, ◌≤◌, ◌⊎◌, ◌&&◌, ℕ, zero, suc, ◌+◌, ◌<◌, ◌≡◌, ◌≢◌, inl, inr, refl, sym, ◌∙◌,
  ap, Bool, true, false, none, some, List, [], ◌∷◌, ◌++◌, ◌==◌, bit_and, arith, Bool-cases, lt→ltb,
  Option-cases, length, get_elem?, set, length-set,
}
use lwip_amiga.Sock.State.{tcp, Socket, Opener}
use lwip_amiga.Sock.Owners.{owner_first}
use lwip_amiga.Sock.Wake.{event, event_wake, fd_accept}
use lwip_amiga.Sock.Accept.{Store, live, new_socket, accept_cb}

module _ {A : Type 0} where
  pub get_elem?-lt : (xs : List A) (i : ℕ) (x : A) → get_elem? xs i ≡ some x → i < length xs
  get_elem?-lt [] i x e = cc
  get_elem?-lt (y ∷ xs) zero x e = omega arith
  get_elem?-lt (y ∷ xs) (suc i) x e = omega (arith, get_elem?-lt xs i x e)

  pub get_elem?-set :
      (xs : List A) (i : ℕ) (x : A) → i < length xs → get_elem? (set xs i x) i ≡ some x
  get_elem?-set [] i x h = absurd (omega arith)
  get_elem?-set (y ∷ xs) zero x h = refl
  get_elem?-set (y ∷ xs) (suc i) x h = get_elem?-set xs i x (omega arith)

  pub get_elem?-set_ne :
      (xs : List A) (i j : ℕ) (x : A) → i ≢ j → get_elem? (set xs i x) j ≡ get_elem? xs j
  get_elem?-set_ne [] i j x h = refl
  get_elem?-set_ne (y ∷ xs) zero zero x h = absurd (h refl)
  get_elem?-set_ne (y ∷ xs) zero (suc j) x h = refl
  get_elem?-set_ne (y ∷ xs) (suc i) zero x h = refl
  get_elem?-set_ne (y ∷ xs) (suc i) (suc j) x h = get_elem?-set_ne xs i j x (λ e. h (ap suc e))

  get_elem?-append :
      (xs ys : List A) (i : ℕ) → i < length xs → get_elem? (xs ++ ys) i ≡ get_elem? xs i
  get_elem?-append [] ys i h = absurd (omega arith)
  get_elem?-append (x ∷ xs) ys zero h = refl
  get_elem?-append (x ∷ xs) ys (suc i) h = get_elem?-append xs ys i (omega arith)

  get_elem?-snoc : (xs : List A) (x : A) → get_elem? (xs ++ (x ∷ [])) (length xs) ≡ some x
  get_elem?-snoc [] x = refl
  get_elem?-snoc (y ∷ xs) x = get_elem?-snoc xs x

-- The fields of a listener that an event does not touch.
event_wake-queue :
    (openers : List Opener) (s : Socket) (ev : ℕ)
    → let s' = (event_wake openers s ev).0 in
      (s'.listening ≡ s.listening)
      × (s'.acceptq ≡ s.acceptq)
      × (s'.naccept ≡ s.naccept)
      × (s'.kind ≡ s.kind)
unfolding event_wake event
event_wake-queue openers s ev = elim (Bool-cases (bit_and ev s.event_mask == 0)) [
  | inl z ↦ ground (arith, z)
  | inr z ↦ ground (arith, z)
]

pub live-lt : (st : Store) (l : ℕ) (s : Socket) → live st l ≡ some s → l < length st.socks
live-lt st l s e = elim (Option-cases (get_elem? st.socks l)) [
  | inl n ↦ absurd (ground (arith, e, n))
  | inr (x, f) ↦ get_elem?-lt st.socks l x f
]

-- A listener of `a` that takes a connection: the socket at the end of the store, owned by `a`, stands
-- at the end of its queue.
pub accept_cb_queues :
    (st : Store) (l rcv a : ℕ) (lst : Socket)
    → live st l ≡ some lst
    → owner_first lst.owners ≡ some a
    → lst.naccept < 16
    → let st' = (accept_cb st l rcv true).0 in
      ((lst' : Socket) × (live st' l ≡ some lst')
        × (lst'.listening ≡ lst.listening)
        × (lst'.acceptq ≡ lst.acceptq ++ (length st.socks ∷ []))
        × (lst'.naccept ≡ lst.naccept + 1)
        × (lst'.kind ≡ lst.kind))
      × ((s : Socket) × (live st' (length st.socks) ≡ some s)
          × (s.owners ≡ (new_socket a tcp).owners))
      × (st'.openers ≡ st.openers)
unfolding accept_cb
accept_cb_queues st l rcv a lst e w n =
    let i = live-lt st l lst e in
    let new = record lst {
      acceptq = lst.acceptq ++ (length st.socks ∷ []);
      naccept = lst.naccept + 1;
    } in
    let lst' = (event_wake st.openers new fd_accept).0 in
    let (f, g, h, k) = event_wake-queue st.openers new fd_accept in
    let s = record (new_socket a tcp) { pcb = true; connected = true; rx_next_seq = rcv } in
    let xs = set st.socks l (some lst') in
    (
      (
        lst',
        ground (
          arith,
          e,
          w,
          lt→ltb lst.naccept 16 n,
          get_elem?-append xs (some s ∷ []) l
              (ground (arith, i, length-set st.socks l (some lst'))),
          get_elem?-set st.socks l (some lst') i,
        ),
        f,
        g,
        h,
        k,
      ),
      (
        s,
        ground (
          arith,
          e,
          w,
          lt→ltb lst.naccept 16 n,
          ap (λ k. get_elem? (xs ++ (some s ∷ [])) k) (sym (length-set st.socks l (some lst'))),
          get_elem?-snoc xs (some s),
        ),
        refl,
      ),
      ground (arith, e, w, lt→ltb lst.naccept 16 n),
    )

-- The count of a queue is its length, within the bound.
abbrev pub IsQueue : Socket → Type 0
IsQueue s = (s.naccept ≡ length s.acceptq) × (s.naccept ≤ 16)

refused :
    (st : Store) (l rcv : ℕ) (room : Bool) (lst : Socket)
    → live st l ≡ some lst
    → (owner_first lst.owners ≡ none) ⊎ ((ltb lst.naccept 16 && room) ≡ false)
    → (accept_cb st l rcv room).0 ≡ st
unfolding accept_cb
refused st l rcv room lst e (inl n) = ground (arith, e, n)
refused st l rcv room lst e (inr n) = elim (Option-cases (owner_first lst.owners)) [
  | inl f ↦ ground (arith, e, f)
  | inr (a, f) ↦ ground (arith, e, f, n)
]

-- Whether a connection is taken or refused, the listener's queue stays counted and within its bound.
accept_cb-IsQueue :
    (st : Store) (l rcv : ℕ) (room : Bool) (lst : Socket)
    → live st l ≡ some lst
    → IsQueue lst
    → (lst' : Socket) × (live (accept_cb st l rcv room).0 l ≡ some lst') × IsQueue lst'
accept_cb-IsQueue st l rcv room lst e q = elim (Option-cases (owner_first lst.owners)) [
  | inl n ↦ (lst, ap (λ t. live t l) (refused st l rcv room lst e (inl n)) ∙ e, q)
  | inr (a, w) ↦ elim (Bool-cases (ltb lst.naccept 16 && room)) [
    | inr z ↦ (lst, ap (λ t. live t l) (refused st l rcv room lst e (inr z)) ∙ e, q)
    | inl z ↦
        let room_is : room ≡ true = ground (arith, z) in
        let below : lst.naccept < 16 = ground (arith, z) in
        let (lst', e', p', q', n', k') = (accept_cb_queues st l rcv a lst e w below).0 in
        (
          lst',
          rw room_is e',
          ground (arith, q, q', n', below, length-append lst.acceptq (length st.socks ∷ [])),
        )
  ]
]
