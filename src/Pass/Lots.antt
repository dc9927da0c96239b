-- ===== src/Pass/Lots.antt =====
-- The balance under ReleaseSocket, ReleaseCopyOfSocket and ObtainSocket.
use lwip_amiga.Base.{
  ℕ, suc, ◌+◌, ◌-◌, ◌^◌, ◌<◌, ◌≡◌, inl, inr, refl, ap, ◌∙◌, Bool, true, false, ◌&&◌, Option, none,
  some, List, [], ◌∷◌, ◌==◌, ◌!=◌, length, get_elem?, arith, Bool-cases, Option-cases,
}
use lwip_amiga.Sock.State.{Socket, Opener}
use lwip_amiga.Sock.Accept.{Store, live, fd_alloc}
use lwip_amiga.Sock.Accept.Queue.{get_elem?-set, get_elem?-lt}
use lwip_amiga.Pass.{
  Parked, Lot, minus_one, table_of, table, entry, fd_of, with_table, set_table, set_fd, stored,
  alloc_fd, bump_refs, own, disown,
}
use lwip_amiga.Pass.Release.{
  released_find, is_some, unique_id, add_parked, park, park_unique, release_from, release_common,
  kind_code, unpark, obtain_own, obtain_fd, obtain_live, obtain_from, obtain_socket,
}
use lwip_amiga.Pass.Count.{
  one, held, queued, in_lot, in_lot-append, in_lot-unpark, Allocated, in_table-fd_alloc,
  alloc_fd-Allocated,
}
use lwip_amiga.Pass.Balance.{Counted-eq}
use lwip_amiga.Pass.Share.{bump_refs-Moves, own-Moves, disown-Moves, one_self}
use lwip_amiga.Pass.Free.{Flat-Sub}
use lwip_amiga.Pass.Kept.{refs_in, Sound, socks-Sub, socks-Balanced, set_fd-socks, fd_of-held}

-- The references to a socket.
abbrev pub refs_to : Lot → ℕ → ℕ
refs_to lot = refs_in lot.store (λ c. in_lot c lot.parked)

abbrev pub LotSound : Lot → Type 0
LotSound lot = Sound lot.store (λ c. in_lot c lot.parked)

park-Sound :
    (lot : Lot) (b sock a id : ℕ) (copy room : Bool)
    → fd_of lot.store b sock ≡ some a
    → LotSound lot
    → refs_to lot a < 2 ^ 8 - 1
    → LotSound (park lot b sock a id copy room).0
unfolding park
park-Sound lot b sock a id copy false e h high = h
park-Sound lot b sock a id true true e h high =
    let st = lot.store in
    let st' = bump_refs st a in
    let low : 0 < refs_to lot a = omega (arith, fd_of-held st b sock a a e, one_self a) in
    let (bal, k) = bump_refs-Moves st a (refs_to lot) h.0 low high in
    let lot' = add_parked lot st' id a in
    (
      λ c.
          Counted-eq (live st' c) (refs_to lot c + one c a) (refs_to lot' c)
            (omega (
              arith,
              ap (held c) k.0,
              k.1 c,
              in_lot-append c lot.parked (record { id = id; socket = a } ∷ []),
            ))
            (bal c),
      Flat-Sub st st' k.2 h.1,
    )
park-Sound lot b sock a id false true e h high =
    let st = lot.store in
    let st1 = set_fd st b sock none in
    let socks = set_fd-socks st b sock none in
    let (bal, k) =
      disown-Moves st1 b a (refs_to lot) (socks-Balanced st st1 (refs_to lot) socks h.0) in
    let st' = disown st1 b a in
    let lot' = add_parked lot st' id a in
    (
      λ c.
          Counted-eq (live st' c) (refs_to lot c) (refs_to lot' c)
            (omega (
              arith,
              ap (held c) k.0,
              k.1 c,
              ap (queued c) socks,
              fd_of-held st b sock a c e,
              in_lot-append c lot.parked (record { id = id; socket = a } ∷ []),
            ))
            (bal c),
      Flat-Sub st1 st' k.2 (Flat-Sub st st1 (socks-Sub st st1 socks) h.1),
    )

release_from-Sound :
    (lot : Lot) (b sock id : ℕ) (copy room : Bool) (v : Option ℕ)
    → fd_of lot.store b sock ≡ v
    → LotSound lot
    → ((c : ℕ) → refs_to lot c < 2 ^ 8 - 1)
    → LotSound (release_from lot b sock id copy room v).0
unfolding release_from park_unique
release_from-Sound lot b sock id copy room none e h high = h
release_from-Sound lot b sock id copy room (some a) e h high = elim (Bool-cases (id == minus_one)) [
  | inl z ↦ elim (Option-cases (unique_id (suc (length lot.parked)) lot.parked lot.next_id)) [
    | inl n ↦ rw (z, n) h
    | inr (u, f) ↦
        rw (z, f) (park-Sound (record lot { next_id = u.1 }) b sock a u.0 copy room e h (high a))
  ]
  | inr z ↦ elim (Bool-cases (is_some (released_find lot.parked id))) [
    | inl y ↦ rw (z, y) h
    | inr y ↦ rw (z, y) (park-Sound lot b sock a id copy room e h (high a))
  ]
]

-- Releasing a socket or a copy.
pub release_common-Sound :
    (lot : Lot) (b sock id : ℕ) (copy room : Bool)
    → LotSound lot
    → ((c : ℕ) → refs_to lot c < 2 ^ 8 - 1)
    → LotSound (release_common lot b sock id copy room).0
unfolding release_common
release_common-Sound lot b sock id copy room h high =
    release_from-Sound lot b sock id copy room (fd_of lot.store b sock) refl h high

-- The descriptor taken names the socket.
fd_alloc-entry :
    (t : List (Option ℕ)) (a : ℕ) (r : ℕ × List (Option ℕ))
    → fd_alloc t a ≡ some r
    → (get_elem? r.1 r.0 ≡ some (some a)) × (r.0 < length r.1)
unfolding fd_alloc
fd_alloc-entry [] a r e = cc
fd_alloc-entry (none ∷ t) a r e = ground (arith, e)
fd_alloc-entry (some x ∷ t) a r e = elim (Option-cases (fd_alloc t a)) [
  | inl n ↦ ground (arith, e, n)
  | inr (r', f) ↦ ground (arith, e, f, fd_alloc-entry t a r' f)
]

table-with_table :
    (st : Store) (b : ℕ) (t : List (Option ℕ)) (o : Option Opener)
    → get_elem? st.openers b ≡ o
    → 0 < length (table_of o)
    → table (with_table o t st b) b ≡ t
table-with_table st b t none e h = absurd (omega arith)
table-with_table st b t (some o) e h =
    ap table_of (get_elem?-set st.openers b (record o { fd = t }) (get_elem?-lt st.openers b o e))

stored-entry :
    (st : Store) (b a : ℕ) (o : Option (ℕ × List (Option ℕ))) (r : ℕ × Store)
    → fd_alloc (table st b) a ≡ o
    → stored st b o ≡ some r
    → fd_of r.1 b r.0 ≡ some a
stored-entry st b a none r f e = cc
stored-entry st b a (some t) r f e =
    let (there, inside) = fd_alloc-entry (table st b) a t f in
    let old = (in_table-fd_alloc 0 (table st b) a t f).1 in
    let new = table-with_table st b t.1 (get_elem? st.openers b) refl (omega (arith, old)) in
    let same : set_table st b t.1 ≡ r.1 = ground (arith, e) in
    let place : t.0 ≡ r.0 = ground (arith, e) in rw (← same, ← place) (rw new (ap entry there))

-- A descriptor that is taken names its socket.
pub alloc_fd-fd_of :
    (st : Store) (b a : ℕ) (r : ℕ × Store) → alloc_fd st b a ≡ some r → fd_of r.1 b r.0 ≡ some a
unfolding alloc_fd
alloc_fd-fd_of st b a r e = stored-entry st b a (fd_alloc (table st b) a) r refl e

obtain_own-Sound :
    (lot : Lot) (b id : ℕ) (r : Parked) (u : ℕ × Store) (o : Option Store)
    → released_find lot.parked id ≡ some r
    → alloc_fd lot.store b r.socket ≡ some u
    → own u.1 b r.socket ≡ o
    → LotSound lot
    → LotSound (obtain_own lot u.1 b id u.0 o).0
unfolding obtain_own
obtain_own-Sound lot b id r u none f g e h =
    let st = lot.store in
    let st' = set_fd u.1 b u.0 none in
    let a = r.socket in
    let named = alloc_fd-fd_of st b a u g in
    let al : (c : ℕ) → Allocated st a c u.1 = λ c. alloc_fd-Allocated c st b a u g in
    let socks : st'.socks ≡ st.socks = set_fd-socks u.1 b u.0 none ∙ (al 0).1 in
    (
      λ c.
          Counted-eq (live st' c) (refs_to lot c) (refs_in st' (λ d. in_lot d lot.parked) c)
            (omega (arith, fd_of-held u.1 b u.0 a c named, (al c).0, ap (queued c) socks))
            (socks-Balanced st st' (refs_to lot) socks h.0 c),
      Flat-Sub st st' (socks-Sub st st' socks) h.1,
    )
obtain_own-Sound lot b id r u (some st') f g e h =
    let st = lot.store in
    let a = r.socket in
    let al : (c : ℕ) → Allocated st a c u.1 = λ c. alloc_fd-Allocated c st b a u g in
    let socks : u.1.socks ≡ st.socks = (al 0).1 in
    let (bal, k) =
      own-Moves u.1 b a (refs_to lot) st' (socks-Balanced st u.1 (refs_to lot) socks h.0) e in
    (
      λ c.
          Counted-eq (live st' c) (refs_to lot c)
            (refs_in st' (λ d. in_lot d (unpark lot.parked id)) c)
            (omega (
              arith,
              ap (held c) k.0,
              (al c).0,
              k.1 c,
              ap (queued c) socks,
              in_lot-unpark c lot.parked id r f,
            ))
            (bal c),
      Flat-Sub u.1 st' k.2 (Flat-Sub st u.1 (socks-Sub st u.1 socks) h.1),
    )

obtain_live-Sound :
    (lot : Lot) (b id type : ℕ) (r : Parked) (o : Option Socket)
    → released_find lot.parked id ≡ some r
    → LotSound lot
    → LotSound (obtain_live lot b id type r.socket o).0
unfolding obtain_live obtain_fd
obtain_live-Sound lot b id type r none f h = h
obtain_live-Sound lot b id type r (some s) f h =
    elim (Bool-cases (type != 0 && kind_code s.kind != type)) [
      | inl z ↦ rw z h
      | inr z ↦ elim (Option-cases (alloc_fd lot.store b r.socket)) [
        | inl n ↦ rw (z, n) h
        | inr (u, g) ↦ rw (z, g) (obtain_own-Sound lot b id r u (own u.1 b r.socket) f g refl h)
      ]
    ]

obtain_from-Sound :
    (lot : Lot) (b id type : ℕ) (o : Option Parked)
    → released_find lot.parked id ≡ o
    → LotSound lot
    → LotSound (obtain_from lot b id type o).0
unfolding obtain_from
obtain_from-Sound lot b id type none f h = h
obtain_from-Sound lot b id type (some r) f h =
    obtain_live-Sound lot b id type r (live lot.store r.socket) f h

-- Obtaining.
pub obtain_socket-Sound :
    (lot : Lot) (b id type : ℕ) → LotSound lot → LotSound (obtain_socket lot b id type).0
unfolding obtain_socket
obtain_socket-Sound lot b id type h =
    obtain_from-Sound lot b id type (released_find lot.parked id) refl h
