-- ===== src/Pass/Count.antt =====
-- The references to a socket: the descriptors that name it, its places in accept queues, and its
-- entries in the parking lot, counted over a store.
use lwip_amiga.Base.{
  ℕ, zero, suc, ◌+◌, ◌<◌, ◌≡◌, inl, inr, refl, Option, none, some, List, [], ◌∷◌, ◌++◌, ◌==◌,
  if◌then◌else◌, length, get_elem?, set, arith, Bool-cases, Option-cases,
}
use lwip_amiga.Sock.State.{Socket, Opener}
use lwip_amiga.Sock.Accept.{Store, fd_alloc}
use lwip_amiga.Pass.{
  Parked, table_of, table, entry, fd_of, with_table, set_table, set_fd, stored, alloc_fd,
}
use lwip_amiga.Pass.Release.{released_find, unpark}

abbrev pub one : ℕ → ℕ → ℕ
one c a = if a == c then 1 else 0

abbrev pub is_at : ℕ → Option ℕ → ℕ
is_at c none = 0
is_at c (some a) = one c a

abbrev pub in_table : ℕ → List (Option ℕ) → ℕ
in_table c [] = 0
in_table c (v ∷ t) = is_at c v + in_table c t

abbrev pub held : ℕ → List Opener → ℕ
held c [] = 0
held c (o ∷ os) = in_table c o.fd + held c os

abbrev pub in_queue : ℕ → List ℕ → ℕ
in_queue c [] = 0
in_queue c (a ∷ q) = one c a + in_queue c q

abbrev pub queue_of : ℕ → Option Socket → ℕ
queue_of c none = 0
queue_of c (some s) = in_queue c s.acceptq

abbrev pub queued : ℕ → List (Option Socket) → ℕ
queued c [] = 0
queued c (x ∷ xs) = queue_of c x + queued c xs

abbrev pub in_lot : ℕ → List Parked → ℕ
in_lot c [] = 0
in_lot c (r ∷ rs) = one c r.socket + in_lot c rs

in_table-set :
    (c : ℕ) (t : List (Option ℕ)) (i : ℕ) (v : Option ℕ)
    → i < length t
    → in_table c (set t i v) + is_at c (entry (get_elem? t i)) ≡ in_table c t + is_at c v
in_table-set c [] i v h = absurd (omega arith)
in_table-set c (x ∷ t) zero v h = omega arith
in_table-set c (x ∷ t) (suc i) v h = omega (arith, in_table-set c t i v (omega arith))

held-set :
    (c : ℕ) (os : List Opener) (b : ℕ) (o : Opener) (t : List (Option ℕ))
    → get_elem? os b ≡ some o
    → held c (set os b (record o { fd = t })) + in_table c o.fd ≡ held c os + in_table c t
held-set c [] b o t e = cc
held-set c (x ∷ os) zero o t e = ground (arith, e)
held-set c (x ∷ os) (suc b) o t e = omega (arith, held-set c os b o t e)

-- A table replaced changes the count by what the old one and the new one hold.
pub held-set_table :
    (c : ℕ) (st : Store) (b : ℕ) (t : List (Option ℕ)) (o : Option Opener)
    → get_elem? st.openers b ≡ o
    → 0 < length (table_of o)
    → held c (with_table o t st b).openers + in_table c (table_of o)
      ≡ held c st.openers + in_table c t
held-set_table c st b t none e h = absurd (omega arith)
held-set_table c st b t (some o) e h = held-set c st.openers b o t e

pub held-set_fd :
    (c : ℕ) (st : Store) (b fd : ℕ) (v : Option ℕ)
    → fd < length (table st b)
    → held c (set_fd st b fd v).openers + is_at c (fd_of st b fd) ≡ held c st.openers + is_at c v
held-set_fd c st b fd v h = omega (
  arith,
  held-set_table c st b (set (table st b) fd v) (get_elem? st.openers b) refl (omega arith),
  in_table-set c (table st b) fd v h,
)

pub in_table-fd_alloc :
    (c : ℕ) (t : List (Option ℕ)) (a : ℕ) (r : ℕ × List (Option ℕ))
    → fd_alloc t a ≡ some r
    → (in_table c r.1 ≡ in_table c t + one c a) × (r.0 < length t)
unfolding fd_alloc
in_table-fd_alloc c [] a r e = cc
in_table-fd_alloc c (none ∷ t) a r e = ground (arith, e)
in_table-fd_alloc c (some x ∷ t) a r e = elim (Option-cases (fd_alloc t a)) [
  | inl n ↦ ground (arith, e, n)
  | inr (r', f) ↦ ground (arith, e, f, in_table-fd_alloc c t a r' f)
]

pub with_table-socks :
    (o : Option Opener) (t : List (Option ℕ)) (st : Store) (b : ℕ)
    → (with_table o t st b).socks ≡ st.socks
with_table-socks none t st b = refl
with_table-socks (some o) t st b = refl

-- The store after a descriptor is taken.
abbrev pub Allocated : Store → ℕ → ℕ → Store → Type 0
Allocated st a c st' = (held c st'.openers ≡ held c st.openers + one c a) × (st'.socks ≡ st.socks)

stored-Allocated :
    (c : ℕ) (st : Store) (b a : ℕ) (o : Option (ℕ × List (Option ℕ))) (r : ℕ × Store)
    → fd_alloc (table st b) a ≡ o
    → stored st b o ≡ some r
    → Allocated st a c r.1
stored-Allocated c st b a none r f e = cc
stored-Allocated c st b a (some t) r f e =
    let (more, inside) = in_table-fd_alloc c (table st b) a t f in
    let kept = held-set_table c st b t.1 (get_elem? st.openers b) refl (omega (arith, inside)) in
    let same : set_table st b t.1 ≡ r.1 = ground (arith, e) in
    rw (← same) (omega (arith, more, kept), with_table-socks (get_elem? st.openers b) t.1 st b)

pub alloc_fd-Allocated :
    (c : ℕ) (st : Store) (b a : ℕ) (r : ℕ × Store) → alloc_fd st b a ≡ some r → Allocated st a c r.1
unfolding alloc_fd
alloc_fd-Allocated c st b a r e = stored-Allocated c st b a (fd_alloc (table st b) a) r refl e

pub queued-set :
    (c : ℕ) (ss : List (Option Socket)) (a : ℕ) (x y : Option Socket)
    → get_elem? ss a ≡ some x
    → queued c (set ss a y) + queue_of c x ≡ queued c ss + queue_of c y
queued-set c [] a x y e = cc
queued-set c (z ∷ ss) zero x y e = ground (arith, e)
queued-set c (z ∷ ss) (suc a) x y e = omega (arith, queued-set c ss a x y e)

pub in_lot-append : (c : ℕ) (xs ys : List Parked) → in_lot c (xs ++ ys) ≡ in_lot c xs + in_lot c ys
in_lot-append c [] ys = omega arith
in_lot-append c (x ∷ xs) ys = omega (arith, in_lot-append c xs ys)

pub in_lot-unpark :
    (c : ℕ) (rs : List Parked) (id : ℕ) (r : Parked)
    → released_find rs id ≡ some r
    → in_lot c (unpark rs id) + one c r.socket ≡ in_lot c rs
unfolding released_find unpark
in_lot-unpark c [] id r e = cc
in_lot-unpark c (x ∷ rs) id r e = elim (Bool-cases (x.id == id)) [
  | inl z ↦ ground (arith, e, z)
  | inr z ↦ ground (arith, e, z, in_lot-unpark c rs id r)
]
