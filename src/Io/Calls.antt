-- ===== src/Io/Calls.antt =====
-- The calls of sb_io.c over the receive paths: `bsd_recvfrom` and `bsd_recvmsg` on a stream. The
-- descriptor is looked up by the caller of these; a buffer that is NULL is `none`.
use lwip_amiga.Base.{ℕ, Bool, true, false, List, [], ◌∷◌, ◌++◌, ◌==◌, if◌then◌else◌, length, bit_or}
use lwip_amiga.Sock.State.{Socket, Opener}
use lwip_amiga.Sock.Callbacks.{Callback}
use lwip_amiga.Io.{Pause, Outcome, returned, refused, asleep}
use lwip_amiga.Io.Read.{Read, is_empty, tcp_recv}

-- A buffer of `recvmsg`, with the schedule of the read into it.
pub record Iov : Type 0 where
  pub len : ℕ
  pub copies : List (List Callback)
  pub waits : List Pause

abbrev pub merged : List ℕ → Outcome → Outcome
merged out (returned xs) = returned (out ++ xs)
merged out (refused e) = if is_empty out then refused e else returned out
merged out (asleep xs) = asleep (out ++ xs)

-- Whether a read filled its buffer, so that the next buffer is read into.
abbrev pub fills : ℕ → Outcome → Bool
fills len (returned xs) = len == length xs
fills len _ = false

abbrev pub later_flags : ℕ → List ℕ → ℕ
later_flags flags out = if is_empty out then flags else bit_or flags 0x80

abbrev pub bytes_in : Outcome → List ℕ
bytes_in (returned xs) = xs
bytes_in _ = []

abbrev pub answered : Socket → Outcome → List ℕ → Read
answered s o cs = record { sock = s; outcome = o; credits = cs; copies = [] }

-- The loop over the buffers; `out` is what the buffers before have.
unfoldable pub recvmsg_loop : List Opener → ℕ → List Iov → List ℕ → List ℕ → Socket → Read
unfolding tcp_recv
recvmsg_loop openers flags [] out credits s = answered s (returned out) credits
recvmsg_loop openers flags (v ∷ vs) out credits s =
    let r = tcp_recv openers s v.len (later_flags flags out) v.copies v.waits in
    elim (v.len == 0) [
      | true ↦ recvmsg_loop openers flags vs out credits s
      | false ↦ elim (fills v.len r.outcome) [
        | true ↦
            recvmsg_loop openers flags vs (out ++ bytes_in r.outcome) (credits ++ r.credits) r.sock
        | false ↦ answered r.sock (merged out r.outcome) (credits ++ r.credits)
      ]
    ]

unfoldable pub stream_recvmsg : List Opener → Socket → List Iov → ℕ → Read
unfolding recvmsg_loop
stream_recvmsg openers s vs flags = recvmsg_loop openers flags vs [] [] s
