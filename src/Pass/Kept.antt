-- ===== src/Pass/Kept.antt =====
-- The balance under Dup2Socket and CloseSocket.
use lwip_amiga.Base.{
  ℕ, ◌+◌, ◌-◌, ◌^◌, ◌<◌, ◌≡◌, inl, inr, refl, sym, ap, ◌∙◌, false, Option, none, some, List, ◌==◌,
  leb, length, get_elem?, set, arith, Bool-cases, Option-cases,
}
use lwip_amiga.Sock.Accept.{Store, live, sock_free}
use lwip_amiga.Sock.Accept.Queue.{get_elem?-lt}
use lwip_amiga.Pass.{
  minus_one, table_of, table, entry, fd_of, set_fd, alloc_fd, share, dup_lowest, dup_at, dup_from,
  dup2_socket, close_from, close_socket,
}
use lwip_amiga.Pass.Count.{
  one, is_at, held, queued, held-set_fd, with_table-socks, Allocated, alloc_fd-Allocated,
}
use lwip_amiga.Pass.Balance.{Balanced, Counted-eq, Sub}
use lwip_amiga.Pass.Share.{share-Moves, one_self}
use lwip_amiga.Pass.Free.{Flat, Flat-Sub, Freed, sock_free-Freed}

-- The references to a socket, with those of the parking lot given by `p`.
abbrev pub refs_in : Store → (ℕ → ℕ) → ℕ → ℕ
refs_in st p c = held c st.openers + queued c st.socks + p c

abbrev pub Sound : Store → (ℕ → ℕ) → Type 0
Sound st p = Balanced st (refs_in st p) × Flat st

pub live-socks : (st st' : Store) (c : ℕ) → st'.socks ≡ st.socks → live st' c ≡ live st c
live-socks st st' c e = ap (λ ss. live (record st { socks = ss }) c) e

pub socks-Sub : (st st' : Store) → st'.socks ≡ st.socks → Sub st' st
socks-Sub st st' e c s f = (s, sym (live-socks st st' c e) ∙ f, refl)

-- A store whose tables changed: `n` counts as before.
pub socks-Balanced :
    (st st' : Store) (n : ℕ → ℕ) → st'.socks ≡ st.socks → Balanced st n → Balanced st' n
socks-Balanced st st' n e h c = rw (live-socks st st' c e) (h c)

pub set_fd-socks : (st : Store) (b fd : ℕ) (v : Option ℕ) → (set_fd st b fd v).socks ≡ st.socks
set_fd-socks st b fd v = with_table-socks (get_elem? st.openers b) (set (table st b) fd v) st b

entry-lt : (t : List (Option ℕ)) (fd a : ℕ) → entry (get_elem? t fd) ≡ some a → fd < length t
entry-lt t fd a e = elim (Option-cases (get_elem? t fd)) [
  | inl n ↦ absurd (ground (arith, e, n))
  | inr (v, f) ↦ get_elem?-lt t fd v f
]

pub fd_of-lt : (st : Store) (b fd a : ℕ) → fd_of st b fd ≡ some a → fd < length (table st b)
fd_of-lt st b fd a e = entry-lt (table st b) fd a e

-- A descriptor counts.
pub fd_of-held :
    (st : Store) (b fd a c : ℕ)
    → fd_of st b fd ≡ some a
    → held c (set_fd st b fd none).openers + one c a ≡ held c st.openers
fd_of-held st b fd a c e =
    omega (arith, held-set_fd c st b fd none (fd_of-lt st b fd a e), ap (is_at c) e)

-- A taken descriptor that then shares its socket.
share-Sound :
    (st st1 : Store) (b a : ℕ) (p : ℕ → ℕ)
    → ((c : ℕ) → Allocated st a c st1)
    → Sound st p
    → 0 < refs_in st p a
    → refs_in st p a < 2 ^ 8 - 1
    → Sound (share st1 b a) p
share-Sound st st1 b a p al h low high =
    let same = (al 0).1 in
    let (bal, k) =
      share-Moves st1 b a (refs_in st p) (socks-Balanced st st1 (refs_in st p) same h.0) low high in
    let st2 = share st1 b a in
    (
      λ c.
          Counted-eq (live st2 c) (refs_in st p c + one c a) (refs_in st2 p c)
            (omega (arith, (al c).0, ap (held c) k.0, k.1 c, ap (queued c) same)) (bal c),
      Flat-Sub st1 st2 k.2 (Flat-Sub st st1 (socks-Sub st st1 same) h.1),
    )

freed :
    (root : ℕ) (st : Store) (b fd x : ℕ) (p : ℕ → ℕ)
    → fd_of st b fd ≡ some x
    → Sound st p
    → Freed st (λ c. held c (set_fd st b fd none).openers + p c) (sock_free root st b x)
freed root st b fd x p e h =
    let m : ℕ → ℕ = λ c. held c (set_fd st b fd none).openers + p c in
    sock_free-Freed root st b x m h.1 (λ c.
      Counted-eq (live st c) (refs_in st p c) (queued c st.socks + m c + one c x)
        (omega (arith, fd_of-held st b fd x c e)) (h.0 c))

table-openers : (st st' : Store) (b : ℕ) → st'.openers ≡ st.openers → table st' b ≡ table st b
table-openers st st' b e = ap (λ os. table_of (get_elem? os b)) e

-- A descriptor cleared counts the same in a store with the same tables.
cleared_held :
    (st st0 : Store) (b fd x c : ℕ)
    → st0.openers ≡ st.openers
    → fd_of st b fd ≡ some x
    → held c (set_fd st0 b fd none).openers ≡ held c (set_fd st b fd none).openers
cleared_held st st0 b fd x c t e =
    let e0 : fd_of st0 b fd ≡ some x =
      ap (λ u. entry (get_elem? u fd)) (table-openers st st0 b t) ∙ e in
    omega (arith, fd_of-held st b fd x c e, fd_of-held st0 b fd x c e0, ap (held c) t)

-- A socket freed, and its descriptor cleared.
pub cleared-Sound :
    (root : ℕ) (st : Store) (b fd x : ℕ) (p : ℕ → ℕ)
    → fd_of st b fd ≡ some x
    → Sound st p
    → Sound (set_fd (sock_free root st b x) b fd none) p
cleared-Sound root st b fd x p e h =
    let st0 = sock_free root st b x in
    let st1 = set_fd st0 b fd none in
    let (bal, tables, sub, fewer) = freed root st b fd x p e h in
    let n : ℕ → ℕ = λ c. queued c st0.socks + (held c (set_fd st b fd none).openers + p c) in
    let socks = set_fd-socks st0 b fd none in
    (
      λ c.
          Counted-eq (live st1 c) (n c) (refs_in st1 p c)
            (omega (arith, cleared_held st st0 b fd x c tables e, ap (queued c) socks))
            (socks-Balanced st0 st1 n socks bal c),
      Flat-Sub st0 st1 (socks-Sub st0 st1 socks) (Flat-Sub st st0 sub h.1),
    )

fill :
    (st : Store) (b new a c : ℕ) (v : Option ℕ)
    → new < length (table st b)
    → fd_of st b new ≡ v
    → held c (set_fd st b new (some a)).openers ≡ held c (set_fd st b new none).openers + one c a
fill st b new a c v h e =
    omega (arith, held-set_fd c st b new (some a) h, held-set_fd c st b new none h)

one_ne : (a x : ℕ) → (x == a) ≡ false → one a x ≡ 0
one_ne a x z = ground (arith, z)

-- Another socket stood at the descriptor.
replaced-Sound :
    (root : ℕ) (st : Store) (b a new x : ℕ) (p : ℕ → ℕ)
    → fd_of st b new ≡ some x
    → (x == a) ≡ false
    → Sound st p
    → 0 < held a st.openers
    → refs_in st p a < 2 ^ 8 - 1
    → Sound (share (set_fd (sock_free root st b x) b new (some a)) b a) p
replaced-Sound root st b a new x p e z h low high =
    let st0 = sock_free root st b x in
    let st1 = set_fd st0 b new none in
    let (bal, tables, sub, fewer) = freed root st b new x p e h in
    let n : new < length (table st0 b) =
      omega (arith, fd_of-lt st b new x e, ap length (table-openers st st0 b tables)) in
    let socks = set_fd-socks st0 b new none in
    share-Sound st1 (set_fd st0 b new (some a)) b a p
      (λ c.
        (fill st0 b new a c (fd_of st0 b new) n refl, set_fd-socks st0 b new (some a) ∙ sym socks))
      (cleared-Sound root st b new x p e h) (omega (arith, held_a))
      (omega (arith, held_a, fewer a, ap (queued a) socks))
  where
    held_a : held a (set_fd (sock_free root st b x) b new none).openers ≡ held a st.openers
    held_a = omega (
      arith,
      cleared_held st (sock_free root st b x) b new x a (freed root st b new x p e h).1 e,
      fd_of-held st b new x a e,
      one_ne a x z,
    )

dup_at-Sound :
    (root : ℕ) (st : Store) (b a new : ℕ) (v : Option ℕ) (p : ℕ → ℕ)
    → fd_of st b new ≡ v
    → new < length (table st b)
    → Sound st p
    → 0 < held a st.openers
    → refs_in st p a < 2 ^ 8 - 1
    → Sound (dup_at root st b a new v).0 p
unfolding dup_at
dup_at-Sound root st b a new none p e n h low high =
    let st1 = set_fd st b new (some a) in
    share-Sound st st1 b a p
      (λ c. (
        omega (arith, held-set_fd c st b new (some a) n, ap (is_at c) e),
        set_fd-socks st b new (some a),
      ))
      h (omega arith) high
dup_at-Sound root st b a new (some x) p e n h low high = elim (Bool-cases (x == a)) [
  | inl z ↦ rw z h
  | inr z ↦ rw z (replaced-Sound root st b a new x p e z h low high)
]

dup_from-Sound :
    (root : ℕ) (st : Store) (b new old : ℕ) (v : Option ℕ) (p : ℕ → ℕ)
    → fd_of st b old ≡ v
    → Sound st p
    → ((c : ℕ) → refs_in st p c < 2 ^ 8 - 1)
    → Sound (dup_from root st b new v).0 p
unfolding dup_from dup_lowest
dup_from-Sound root st b new old none p e h high = h
dup_from-Sound root st b new old (some a) p e h high =
    let low : 0 < held a st.openers = omega (arith, fd_of-held st b old a a e, one_self a) in
    elim (Bool-cases (new == minus_one)) [
      | inl z ↦ elim (Option-cases (alloc_fd st b a)) [
        | inl n ↦ rw (z, n) h
        | inr (r, f) ↦
            rw (z, f)
              (share-Sound st r.1 b a p (λ c. alloc_fd-Allocated c st b a r f) h (omega arith)
                (high a))
      ]
      | inr z ↦ elim (Bool-cases (leb (length (table st b)) new)) [
        | inl y ↦ rw (z, y) h
        | inr y ↦
            rw (z, y)
              (dup_at-Sound root st b a new (fd_of st b new) p refl (ground (arith, y)) h low
                (high a))
      ]
    ]

-- Dup2Socket.
pub dup2_socket-Sound :
    (root : ℕ) (st : Store) (b old new : ℕ) (p : ℕ → ℕ)
    → Sound st p
    → ((c : ℕ) → refs_in st p c < 2 ^ 8 - 1)
    → Sound (dup2_socket root st b old new).0 p
unfolding dup2_socket
dup2_socket-Sound root st b old new p h high =
    dup_from-Sound root st b new old (fd_of st b old) p refl h high

close_from-Sound :
    (root : ℕ) (st : Store) (b fd : ℕ) (v : Option ℕ) (p : ℕ → ℕ)
    → fd_of st b fd ≡ v
    → Sound st p
    → Sound (close_from root st b fd v).0 p
unfolding close_from
close_from-Sound root st b fd none p e h = h
close_from-Sound root st b fd (some a) p e h = cleared-Sound root st b fd a p e h

pub close_socket-Sound :
    (root : ℕ) (st : Store) (b fd : ℕ) (p : ℕ → ℕ)
    → Sound st p
    → Sound (close_socket root st b fd).0 p
unfolding close_socket
close_socket-Sound root st b fd p h = close_from-Sound root st b fd (fd_of st b fd) p refl h
