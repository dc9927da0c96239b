-- ===== src/Pass/Handoff.antt =====
-- A socket released by one opener and obtained by another.
use lwip_amiga.Base.{
  ℕ, ◌-◌, ◌^◌, ◌<◌, ◌≡◌, inl, inr, refl, ap, ◌∙◌, Bool, true, false, some, List, [], ◌∷◌, ◌++◌,
  ◌==◌, length, get_elem?, arith, Bool-cases, Option-cases,
}
use lwip_amiga.Sock.State.{Socket}
use lwip_amiga.Sock.Accept.{Store, live}
use lwip_amiga.Pass.{Parked, Lot, gives, minus_one, entry, table_of, fd_of, alloc_fd, own}
use lwip_amiga.Pass.Release.{
  released_find, is_some, park, park_unique, release_from, release_common, unpark, obtain_own,
  obtain_fd, obtain_live, obtain_from, obtain_socket,
}
use lwip_amiga.Pass.Unique.{IsId, unique_id_found}
use lwip_amiga.Pass.Count.{in_lot, in_lot-append, alloc_fd-Allocated}
use lwip_amiga.Pass.Share.{one_self, own-Moves}
use lwip_amiga.Pass.Kept.{socks-Balanced}
use lwip_amiga.Pass.Lots.{refs_to, LotSound, release_common-Sound, alloc_fd-fd_of}

find-append :
    (rs : List Parked) (r : Parked)
    → is_some (released_find rs r.id) ≡ false
    → released_find (rs ++ (r ∷ [])) r.id ≡ some r
unfolding released_find
find-append [] r h = ground arith
find-append (x ∷ rs) r h = elim (Bool-cases (x.id == r.id)) [
  | inl z ↦ absurd (ground (arith, z, h))
  | inr z ↦ ground (arith, z, h, find-append rs r)
]

unpark-append :
    (rs : List Parked) (r : Parked)
    → is_some (released_find rs r.id) ≡ false
    → unpark (rs ++ (r ∷ [])) r.id ≡ rs
unfolding released_find unpark
unpark-append [] r h = ground arith
unpark-append (x ∷ rs) r h = elim (Bool-cases (x.id == r.id)) [
  | inl z ↦ absurd (ground (arith, z, h))
  | inr z ↦ ground (arith, z, h, unpark-append rs r)
]

-- The lot after a release that gives an id.
abbrev pub Parks : Lot → Lot → ℕ → ℕ → Type 0
Parks lot lot' a u =
    (lot'.parked ≡ lot.parked ++ (record { id = u; socket = a } ∷ []))
    × (is_some (released_find lot.parked u) ≡ false)

park-Parks :
    (lot : Lot) (b sock a id u : ℕ) (copy room : Bool)
    → is_some (released_find lot.parked id) ≡ false
    → (park lot b sock a id copy room).1 ≡ gives u
    → Parks lot (park lot b sock a id copy room).0 a u
unfolding park
park-Parks lot b sock a id u copy false n e = absurd (ground (arith, e))
park-Parks lot b sock a id u true true n e = ground (arith, e, n)
park-Parks lot b sock a id u false true n e = ground (arith, e, n)

-- A release with an id of the caller's or any, on a lot with a free id.
release_from-Parks :
    (lot : Lot) (b sock a id u : ℕ) (copy room : Bool)
    → IsId lot.next_id
    → length lot.parked < 2 ^ 31 - 1
    → (release_from lot b sock id copy room (some a)).1 ≡ gives u
    → Parks lot (release_from lot b sock id copy room (some a)).0 a u
unfolding release_from park_unique
release_from-Parks lot b sock a id u copy room i l e = elim (Bool-cases (id == minus_one)) [
  | inl z ↦
      let (v, f, free, p, q) = unique_id_found lot.next_id lot.parked i l in
      rw (z, f)
        (park-Parks (record lot { next_id = v.1 }) b sock a v.0 u copy room free (rw (z, f) at e))
  | inr z ↦ elim (Bool-cases (is_some (released_find lot.parked id))) [
    | inl y ↦ absurd (ground (arith, z, y, e))
    | inr y ↦ rw (z, y) (park-Parks lot b sock a id u copy room y (rw (z, y) at e))
  ]
]

release_common-Parks :
    (lot : Lot) (b sock id a u : ℕ) (copy room : Bool)
    → IsId lot.next_id
    → length lot.parked < 2 ^ 31 - 1
    → fd_of lot.store b sock ≡ some a
    → (release_common lot b sock id copy room).1 ≡ gives u
    → Parks lot (release_common lot b sock id copy room).0 a u
unfolding release_common
release_common-Parks lot b sock id a u copy room i l e g =
    rw e (release_from-Parks lot b sock a id u copy room i l (rw e at g))

obtain-Parks :
    (lot lot' : Lot) (a u b : ℕ) (s : Socket) (r : ℕ × Store) (st : Store)
    → Parks lot lot' a u
    → live lot'.store a ≡ some s
    → alloc_fd lot'.store b a ≡ some r
    → own r.1 b a ≡ some st
    → obtain_socket lot' b u 0 ≡ (record lot' { store = st; parked = lot.parked }, gives r.0)
unfolding obtain_socket obtain_from obtain_live obtain_fd obtain_own
obtain-Parks lot lot' a u b s r st p e f g =
    let it : Parked = record { id = u; socket = a } in
    let found : released_find lot'.parked u ≡ some it =
      ap (λ q. released_find q u) p.0 ∙ find-append lot.parked it p.1 in
    let left : unpark lot'.parked u ≡ lot.parked =
      ap (λ q. unpark q u) p.0 ∙ unpark-append lot.parked it p.1 in
    rw (found, e, f, g, left) refl

-- An entry of the lot names a live socket.
parked-live :
    (lot lot' : Lot) (a u : ℕ)
    → Parks lot lot' a u
    → LotSound lot'
    → (s : Socket) × (live lot'.store a ≡ some s)
parked-live lot lot' a u p h = elim (Option-cases (live lot'.store a)) [
  | inl n ↦
      let none_left : refs_to lot' a ≡ 0 = rw n at (h.0 a) in
      let here =
        ap (in_lot a) p.0 ∙ in_lot-append a lot.parked (record { id = u; socket = a } ∷ []) in
      absurd (omega (arith, here, one_self a))
  | inr (s, e) ↦ (s, e)
]

-- What a release gave an id for, an opener with a free descriptor and a free owner slot obtains by that
-- id: the call gives the lowest free descriptor, which then names the socket that was released, and the
-- parking lot is as it was before the release.
pub obtain_socket-release_common :
    (lot lot' : Lot) (b sock id a u c : ℕ) (copy room : Bool) (r : ℕ × Store) (st : Store)
    → LotSound lot
    → ((d : ℕ) → refs_to lot d < 2 ^ 8 - 1)
    → IsId lot.next_id
    → length lot.parked < 2 ^ 31 - 1
    → fd_of lot.store b sock ≡ some a
    → release_common lot b sock id copy room ≡ (lot', gives u)
    → alloc_fd lot'.store c a ≡ some r
    → own r.1 c a ≡ some st
    → (obtain_socket lot' c u 0 ≡ (record lot' { store = st; parked = lot.parked }, gives r.0))
      × (fd_of st c r.0 ≡ some a)
obtain_socket-release_common lot lot' b sock id a u c copy room r st h m i l e g f o =
    let after : (release_common lot b sock id copy room).0 ≡ lot' = ap (λ x. x.0) g in
    let sound : LotSound lot' = rw after at (release_common-Sound lot b sock id copy room h m) in
    let parks : Parks lot lot' a u =
      rw after at (release_common-Parks lot b sock id a u copy room i l e (ap (λ x. x.1) g)) in
    let (s, alive) = parked-live lot lot' a u parks sound in
    let same = (alloc_fd-Allocated a lot'.store c a r f).1 in
    let bal = socks-Balanced lot'.store r.1 (refs_to lot') same sound.0 in
    let tables = (own-Moves r.1 c a (refs_to lot') st bal o).1.0 in
    (
      obtain-Parks lot lot' a u c s r st parks alive f o,
      ap (λ os. entry (get_elem? (table_of (get_elem? os c)) r.0)) tables
          ∙ alloc_fd-fd_of lot'.store c a r f,
    )
