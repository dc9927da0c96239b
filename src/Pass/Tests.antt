-- ===== src/Pass/Tests.antt =====
-- A TCP socket of opener 0 that goes to opener 1.
use lwip_amiga.Base.{
  ℕ, zero, suc, ◌-◌, ◌^◌, ◌<◌, ◌≡◌, refl, true, false, Option, none, some, List, [], ◌∷◌, arith,
}
use lwip_amiga.Sock.State.{tcp, Opener}
use lwip_amiga.Sock.Owners.{owner_incref, owner_decref, bump, claim}
use lwip_amiga.Sock.Accept.{Store, live, new_socket, drop_ref, drop_queue, sock_free, fd_alloc}
use lwip_amiga.Pass.{
  Lot, failed, gives, minus_one, fd_of, set_fd, or_same, alloc_fd, own, owned, disowned, share,
  dup_lowest, dup_from, dup2_socket, close_from, close_socket,
}
use lwip_amiga.Pass.Release.{
  released_find, is_some, unique_id, park, park_unique, release_from, release_common, obtain_socket,
}
use lwip_amiga.Pass.Balance.{Balanced}
use lwip_amiga.Pass.Free.{Flat}
use lwip_amiga.Pass.Lots.{refs_to, LotSound}
use lwip_amiga.Pass.Calls.{release, obtain, perform, Reaches, stays, calls, Reaches-LotSound}
use lwip_amiga.Pass.Unique.{IsId, unique_id_found}
use lwip_amiga.Pass.Handoff.{obtain_socket-release_common}

abbrev opener : List (Option ℕ) → Opener
opener fd = record {
  task = true;
  sig_bit = 4;
  sig_io_mask = 0;
  sig_urg_mask = 0;
  sig_event_mask = 0;
  break_mask = 0;
  fd = fd;
}

abbrev first : Lot
first = record {
  store = record {
    socks = some (new_socket 0 tcp) ∷ [];
    openers = opener (some 0 ∷ none ∷ []) ∷ opener (none ∷ []) ∷ [];
  };
  parked = [];
  next_id = 1;
}

first-Balanced : Balanced first.store (refs_to first)
first-Balanced zero = (refl, omega arith, omega arith)
first-Balanced (suc c) = ground arith

first-Flat : Flat first.store
first-Flat zero s e = let it : some (new_socket 0 tcp) ≡ some s = e in ground (arith, it)
first-Flat (suc l) s e = cc

first-LotSound : LotSound first
first-LotSound = (first-Balanced, first-Flat)

few : (c : ℕ) → refs_to first c < 2 ^ 8 - 1
few c = ground arith

-- Dup2Socket to the next free descriptor, and to a descriptor out of range.
dup_run : (dup2_socket 9 first.store 0 0 minus_one).1 ≡ gives 1
unfolding dup2_socket dup_from dup_lowest alloc_fd fd_alloc share
dup_run = refl

range_run : (dup2_socket 9 first.store 0 0 2).1 ≡ failed 9
unfolding dup2_socket dup_from
range_run = refl

abbrev copies : ℕ → Lot → Lot
copies zero lot = lot
copies (suc n) lot = copies n (release_common lot 0 0 minus_one true true).0

-- With 256 copies parked the count is one again: CloseSocket frees the socket that they name.
wraps_run : live (close_socket 9 (copies 256 first).store 0 0).0 0 ≡ none
unfolding close_socket close_from sock_free drop_ref drop_queue release_common release_from
    park_unique park unique_id released_find
wraps_run = refl

-- The lot after a copy is released under an id of its own, and after opener 1 obtained it.
abbrev second : Lot
second = (perform 9 first (release 0 0 minus_one true true)).0

second-few : (c : ℕ) → refs_to second c < 2 ^ 8 - 1
unfolding perform release_common release_from park_unique park unique_id released_find
second-few c = ground arith

abbrev third : Lot
third = (perform 9 second (obtain 1 1 1)).0

third-Reaches : Reaches 9 first third
third-Reaches =
    calls 9 first third (release 0 0 minus_one true true) few
      (calls 9 second third (obtain 1 1 1) second-few (stays 9 third))

Reaches-LotSound_example : LotSound third
Reaches-LotSound_example = Reaches-LotSound 9 first third first-LotSound third-Reaches

unique_id_found_example :
    (u : ℕ × ℕ) × (unique_id 2 (record { id = 1; socket = 0 } ∷ []) 1 ≡ some u)
    × (is_some (released_find (record { id = 1; socket = 0 } ∷ []) u.0) ≡ false)
    × IsId u.0
    × IsId u.1
unique_id_found_example =
    unique_id_found 1 (record { id = 1; socket = 0 } ∷ []) (omega arith, omega arith) (omega arith)

abbrev moved : Lot
moved = (release_common first 0 0 minus_one false true).0

moved_lem : release_common first 0 0 minus_one false true ≡ (moved, gives 1)
unfolding release_common release_from park_unique park unique_id released_find
moved_lem = refl

abbrev taken : ℕ × Store
taken = (0, set_fd moved.store 1 0 (some 0))

taken_lem : alloc_fd moved.store 1 0 ≡ some taken
unfolding alloc_fd fd_alloc release_common release_from park_unique park unique_id released_find
    disowned owner_decref
taken_lem = refl

abbrev arrived : Store
arrived = or_same (own taken.1 1 0) taken.1

arrived_lem : own taken.1 1 0 ≡ some arrived
unfolding owned owner_incref bump claim release_common release_from park_unique park unique_id
    released_find disowned owner_decref
arrived_lem = refl

obtain_socket-release_common_example :
    (obtain_socket moved 1 1 0 ≡ (record moved { store = arrived; parked = [] }, gives 0))
    × (fd_of arrived 1 0 ≡ some 0)
obtain_socket-release_common_example =
    obtain_socket-release_common first moved 0 0 minus_one 0 1 1 false true taken arrived
      first-LotSound few (omega arith, omega arith) (omega arith) refl moved_lem taken_lem
      arrived_lem
