-- ===== src/Pass.antt =====
-- Descriptors and the passing of sockets: src/bsdsocket/sb_sockpass.c, and CloseSocket of sb_api.c
-- without its wait for the data of a lingering socket. The store is that of Sock/Accept. Names of
-- descriptors, ids and types are ULONG patterns, so that -1 is 2 ^ 32 - 1; the root opener is `root`.
pub mod Release
pub mod Count
pub mod Balance
pub mod Share
pub mod Free
pub mod Kept
pub mod Lots
pub mod Calls
pub mod Unique
pub mod Handoff
mod Tests
use lwip_amiga.Base.{
  ℕ, zero, suc, ◌+◌, ◌-◌, ◌%◌, ◌^◌, Bool, true, false, not, ◌&&◌, Option, none, some, List, [], ◌∷◌,
  ◌++◌, ◌==◌, ◌!=◌, ltb, leb, if◌then◌else◌, length, get_elem?, set,
}
use lwip_amiga.Sock.State.{SockType, tcp, udp, raw, Socket, Opener}
use lwip_amiga.Sock.Owners.{Slots, owner_incref, owner_decref}
use lwip_amiga.Sock.Accept.{Store, live, put, sock_free, fd_alloc, fd_get}

-- `struct SbReleased`: a parked socket.
pub record Parked : Type 0 where
  pub id : ℕ
  pub socket : ℕ

-- The store, the root's list of parked sockets, and its `nextSockId`.
pub record Lot : Type 0 where
  pub store : Store
  pub parked : List Parked
  pub next_id : ℕ

-- An errno, or what the call returns; `undefined` where a socket that was freed is used.
pub data PassResult : Type 0 where
  failed gives : ℕ → PassResult
  undefined : PassResult

abbrev pub minus_one : ℕ
minus_one = 2 ^ 32 - 1

-- The descriptor table of an opener.
abbrev pub table_of : Option Opener → List (Option ℕ)
table_of none = []
table_of (some o) = o.fd

abbrev pub table : Store → ℕ → List (Option ℕ)
table st b = table_of (get_elem? st.openers b)

abbrev pub entry : Option (Option ℕ) → Option ℕ
entry none = none
entry (some v) = v

-- `sb_fd_get`
abbrev pub fd_of : Store → ℕ → ℕ → Option ℕ
fd_of st b fd = entry (get_elem? (table st b) fd)

abbrev pub with_table : Option Opener → List (Option ℕ) → Store → ℕ → Store
with_table none t st b = st
with_table (some o) t st b = record st { openers = set st.openers b (record o { fd = t }) }

abbrev pub set_table : Store → ℕ → List (Option ℕ) → Store
set_table st b t = with_table (get_elem? st.openers b) t st b

-- `base->fd[fd] = v`
abbrev pub set_fd : Store → ℕ → ℕ → Option ℕ → Store
set_fd st b fd v = set_table st b (set (table st b) fd v)

abbrev pub stored : Store → ℕ → Option (ℕ × List (Option ℕ)) → Option (ℕ × Store)
stored st b none = none
stored st b (some r) = some (r.0, set_table st b r.1)

-- `sb_fd_alloc`
unfoldable pub alloc_fd : Store → ℕ → ℕ → Option (ℕ × Store)
unfolding fd_alloc
alloc_fd st b a = stored st b (fd_alloc (table st b) a)

abbrev pub one_more : Store → ℕ → Option Socket → Store
one_more st a none = st
one_more st a (some s) = put st a (some (record s { refs = (s.refs + 1) % 2 ^ 8 }))

-- `s->refs++`
abbrev pub bump_refs : Store → ℕ → Store
bump_refs st a = one_more st a (live st a)

abbrev pub with_owners : Store → ℕ → Socket → Option Slots → Option Store
with_owners st a s none = none
with_owners st a s (some o) = some (put st a (some (record s { owners = o })))

unfoldable pub owned : Store → ℕ → ℕ → Option Socket → Option Store
unfolding owner_incref
owned st b a none = none
owned st b a (some s) = with_owners st a s (owner_incref s.owners b)

-- `sb_owner_incref`; `none` is FALSE.
abbrev pub own : Store → ℕ → ℕ → Option Store
own st b a = owned st b a (live st a)

unfoldable pub disowned : Store → ℕ → ℕ → Option Socket → Store
unfolding owner_decref
disowned st b a none = st
disowned st b a (some s) = put st a (some (record s { owners = owner_decref s.owners b }))

-- `sb_owner_decref`
abbrev pub disown : Store → ℕ → ℕ → Store
disown st b a = disowned st b a (live st a)

abbrev pub or_same : Option Store → Store → Store
or_same none st = st
or_same (some st') st = st'

-- The end of `bsd_Dup2Socket`, which does not ask what `sb_owner_incref` returns.
unfoldable pub share : Store → ℕ → ℕ → Store
unfolding owned
share st b a = let st' = bump_refs st a in or_same (own st' b a) st'

unfoldable pub dup_lowest : Store → ℕ → ℕ → Option (ℕ × Store) → Store × PassResult
unfolding share
dup_lowest st b a none = (st, failed 24)
dup_lowest st b a (some r) = (share r.1 b a, gives r.0)

-- With what stands at the new descriptor.
unfoldable pub dup_at : ℕ → Store → ℕ → ℕ → ℕ → Option ℕ → Store × PassResult
unfolding share sock_free
dup_at root st b a new none = (share (set_fd st b new (some a)) b a, gives new)
dup_at root st b a new (some x) =
    if x == a
    then (st, gives new)
    else (share (set_fd (sock_free root st b x) b new (some a)) b a, gives new)

unfoldable pub dup_from : ℕ → Store → ℕ → ℕ → Option ℕ → Store × PassResult
unfolding dup_lowest dup_at alloc_fd
dup_from root st b new none = (st, failed 9)
dup_from root st b new (some a) =
    if new == minus_one
    then dup_lowest st b a (alloc_fd st b a)
    else if leb (length (table st b)) new
    then (st, failed 9)
    else dup_at root st b a new (fd_of st b new)

-- `bsd_Dup2Socket`
unfoldable pub dup2_socket : ℕ → Store → ℕ → ℕ → ℕ → Store × PassResult
unfolding dup_from
dup2_socket root st b old new = dup_from root st b new (fd_of st b old)

unfoldable pub close_from : ℕ → Store → ℕ → ℕ → Option ℕ → Store × PassResult
unfolding sock_free
close_from root st b fd none = (st, failed 9)
close_from root st b fd (some a) = (set_fd (sock_free root st b a) b fd none, gives 0)

-- `bsd_CloseSocket`
unfoldable pub close_socket : ℕ → Store → ℕ → ℕ → Store × PassResult
unfolding close_from
close_socket root st b fd = close_from root st b fd (fd_of st b fd)
