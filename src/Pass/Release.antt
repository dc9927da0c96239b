-- ===== src/Pass/Release.antt =====
-- The parking lot: `sb_released_find`, `sb_release_common`, `bsd_ObtainSocket`.
use lwip_amiga.Base.{
  ℕ, zero, suc, ◌+◌, ◌%◌, ◌^◌, Bool, true, false, not, ◌&&◌, Option, none, some, List, [], ◌∷◌,
  ◌++◌, ◌==◌, ◌!=◌, leb, if◌then◌else◌, length,
}
use lwip_amiga.Sock.State.{SockType, tcp, udp, raw, Socket}
use lwip_amiga.Sock.Accept.{Store, live}
use lwip_amiga.Pass.{
  Parked, Lot, PassResult, failed, gives, undefined, minus_one, fd_of, set_fd, alloc_fd, bump_refs,
  own, owned, disown, disowned,
}

unfoldable pub released_find : List Parked → ℕ → Option Parked
released_find [] id = none
released_find (r ∷ rs) id = let later = released_find rs id in if r.id == id then some r else later

abbrev pub is_some : Option Parked → Bool
is_some none = false
is_some (some r) = true

-- `nextSockId++`, and 1 where it gets negative.
abbrev pub next_of : ℕ → ℕ
next_of n = let n' = (n + 1) % 2 ^ 32 in if leb (2 ^ 31) n' then 1 else n'

-- The loop that looks for a unique id: the id and the `nextSockId` that it leaves.
unfoldable pub unique_id : ℕ → List Parked → ℕ → Option (ℕ × ℕ)
unfolding released_find
unique_id zero parked n = none
unique_id (suc fuel) parked n =
    let later = unique_id fuel parked (next_of n) in
    if is_some (released_find parked n) then later else some (n, next_of n)

abbrev pub add_parked : Lot → Store → ℕ → ℕ → Lot
add_parked lot st id a = record lot {
  store = st;
  parked = lot.parked ++ (record { id = id; socket = a } ∷ []);
}

-- `room` tells whether the pool has memory for the entry.
unfoldable pub park : Lot → ℕ → ℕ → ℕ → ℕ → Bool → Bool → Lot × PassResult
unfolding disowned
park lot b sock a id copy room =
    if not room
    then (lot, failed 55)
    else if copy
    then (add_parked lot (bump_refs lot.store a) id a, gives id)
    else (add_parked lot (disown (set_fd lot.store b sock none) b a) id a, gives id)

unfoldable pub park_unique : Lot → ℕ → ℕ → ℕ → Bool → Bool → Option (ℕ × ℕ) → Lot × PassResult
unfolding park
park_unique lot b sock a copy room none = (lot, undefined)
park_unique lot b sock a copy room (some u) =
    park (record lot { next_id = u.1 }) b sock a u.0 copy room

unfoldable pub release_from : Lot → ℕ → ℕ → ℕ → Bool → Bool → Option ℕ → Lot × PassResult
unfolding released_find unique_id park_unique park
release_from lot b sock id copy room none = (lot, failed 9)
release_from lot b sock id copy room (some a) =
    if id == minus_one
    then park_unique lot b sock a copy room
        (unique_id (suc (length lot.parked)) lot.parked lot.next_id)
    else if is_some (released_find lot.parked id)
    then (lot, failed 48)
    else park lot b sock a id copy room

-- `sb_release_common`
unfoldable pub release_common : Lot → ℕ → ℕ → ℕ → Bool → Bool → Lot × PassResult
unfolding release_from
release_common lot b sock id copy room =
    release_from lot b sock id copy room (fd_of lot.store b sock)

abbrev pub kind_code : SockType → ℕ
kind_code tcp = 1
kind_code udp = 2
kind_code raw = 3

-- `RemoveMinNode(&r->node)` of the entry that `sb_released_find` finds.
unfoldable pub unpark : List Parked → ℕ → List Parked
unpark [] id = []
unpark (r ∷ rs) id = let later = unpark rs id in if r.id == id then rs else r ∷ later

unfoldable pub obtain_own : Lot → Store → ℕ → ℕ → ℕ → Option Store → Lot × PassResult
unfolding unpark
obtain_own lot st b id fd none = (record lot { store = set_fd st b fd none }, failed 55)
obtain_own lot st b id fd (some st') =
    (record lot { store = st'; parked = unpark lot.parked id }, gives fd)

unfoldable pub obtain_fd : Lot → ℕ → ℕ → ℕ → Option (ℕ × Store) → Lot × PassResult
unfolding obtain_own owned
obtain_fd lot b id a none = (lot, failed 24)
obtain_fd lot b id a (some r) = obtain_own lot r.1 b id r.0 (own r.1 b a)

unfoldable pub obtain_live : Lot → ℕ → ℕ → ℕ → ℕ → Option Socket → Lot × PassResult
unfolding obtain_fd alloc_fd
obtain_live lot b id type a none = (lot, undefined)
obtain_live lot b id type a (some s) =
    if type != 0 && kind_code s.kind != type
    then (lot, failed 22)
    else obtain_fd lot b id a (alloc_fd lot.store b a)

unfoldable pub obtain_from : Lot → ℕ → ℕ → ℕ → Option Parked → Lot × PassResult
unfolding obtain_live
obtain_from lot b id type none = (lot, failed 22)
obtain_from lot b id type (some r) = obtain_live lot b id type r.socket (live lot.store r.socket)

-- `bsd_ObtainSocket`
unfoldable pub obtain_socket : Lot → ℕ → ℕ → ℕ → Lot × PassResult
unfolding obtain_from released_find
obtain_socket lot b id type = obtain_from lot b id type (released_find lot.parked id)
