-- ===== src/Sock/Accept/Tests.antt =====
-- A listener of opener 0 that opener 1 holds too, and the theorems on what it takes and the latter accepts.
use lwip_amiga.Base.{
  ℕ, ◌∷◌, ◌≡◌, inl, inr, refl, true, some, none, Option, List, [], arith, get_elem?,
}
use lwip_amiga.Sock.State.{tcp, Socket, Opener}
use lwip_amiga.Sock.Owners.{owner_first, owner_decref}
use lwip_amiga.Sock.Wake.{event, wake, event_wake, signal_owners, is_readable, wake_mask}
use lwip_amiga.Sock.Callbacks.Wakes.{Posted}
use lwip_amiga.Sock.Accept.{
  Store, live, new_socket, drop_ref, drop_queue, sock_free, fd_alloc, fd_get, accept_cb, accepted,
  failed, accept, accept_fd,
}
use lwip_amiga.Sock.Accept.Owner.{Signalled, sole, accept-accept_cb, accept_cb-Posted}

abbrev opener : ℕ → List (Option ℕ) → Opener
opener bit fd = record {
  task = true;
  sig_bit = bit;
  sig_io_mask = 0;
  sig_urg_mask = 0;
  sig_event_mask = 0;
  break_mask = 0;
  fd = fd;
}

abbrev listener : Socket
listener = record (new_socket 0 tcp) {
  owners =
      some (record { base = 0; fdrefs = 1 })
      ∷ some (record { base = 1; fdrefs = 1 })
      ∷ none
      ∷ none
      ∷ [];
  refs = 2;
  listening = true;
}

abbrev shared : Store
shared = record {
  socks = some listener ∷ [];
  openers = opener 4 (some 0 ∷ none ∷ []) ∷ opener 5 (some 0 ∷ none ∷ []) ∷ [];
}

abbrev after : Store
after = (accept_cb shared 0 77 true).0

accept_run : (accept_fd 9 after 1 0 true).1 ≡ accepted 1
unfolding accept_fd accept accept_cb fd_alloc fd_get owner_first event_wake event wake signal_owners
accept_run = refl

-- A second accept would block; a full table refuses the connection and frees its socket.
empty_run : (accept_fd 9 (accept_fd 9 after 1 0 true).0 1 0 true).1 ≡ failed 35
unfolding accept_fd accept accept_cb fd_alloc fd_get owner_first event_wake event wake signal_owners
empty_run = refl

full_run :
    let r =
      accept 9 after 1
        (opener 5 (some 0 ∷ []))
        0
        (record listener { acceptq = 1 ∷ []; naccept = 1 })
        true in
    (r.1 ≡ failed 24) × (live r.0 1 ≡ none)
unfolding accept accept_cb fd_alloc owner_first owner_decref event_wake event wake signal_owners
    sock_free drop_ref drop_queue
full_run = (refl, refl)

accept-accept_cb_example :
    (lst' : Socket) × (live after 0 ≡ some lst')
    × (let (st', res) = accept 9 after 1 (opener 5 (some 0 ∷ none ∷ [])) 0 lst' true in
        (res ≡ accepted 1)
        × (get_elem? st'.openers 1 ≡ some (opener 5 (some 0 ∷ some 1 ∷ [])))
        × ((s : Socket) × (live st' 1 ≡ some s) × (s.owners ≡ sole 0)))
    × ((openers : List Opener) (s : Socket) (m : ℕ) → s.owners ≡ sole 0 → ¬ Signalled openers s 1 m)
unfolding fd_alloc owner_first
accept-accept_cb_example =
    accept-accept_cb 9 shared 0 77 0 1 listener (opener 5 (some 0 ∷ none ∷ [])) true
      (1, some 0 ∷ some 1 ∷ []) refl refl refl refl refl (omega arith) refl refl

-- Opener 1 holds a slot of the listener, though not the first.
accept_cb-Posted_example :
    ((lst' : Socket) × (live after 0 ≡ some lst') × (is_readable lst' ≡ true))
    × Posted (1, wake_mask listener (opener 5 (some 0 ∷ none ∷ []))) (accept_cb shared 0 77 true).2
unfolding owner_first
accept_cb-Posted_example =
    accept_cb-Posted shared 0 77 0 1 listener (opener 5 (some 0 ∷ none ∷ [])) refl refl refl
      (omega arith) (inr (inl refl)) refl refl
