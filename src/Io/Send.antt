-- ===== src/Io/Send.antt =====
-- `sb_tcp_send` of sb_io.c. What lwIP answers, and what happens while the lock is open, is a list
-- with an entry for each turn of the loop; a call whose list is at its end is `unfinished`. The
-- opener's flag `txSinceBlock` is a part of the hint of `sb_rx_awaiting`.
use lwip_amiga.Base.{
  ℕ, zero, suc, ◌+◌, ◌⊎◌, inl, inr, Bool, true, false, ◌&&◌, ◌||◌, not, List, [], ◌∷◌, ◌++◌, ◌==◌,
  ◌!=◌, ltb, if◌then◌else◌, length, take, drop, min, bit_and,
}
use lwip_amiga.Sock.State.{Socket, Opener}
use lwip_amiga.Sock.Wake.{LwipErr, err_ok, err_mem, map_err}
use lwip_amiga.Sock.Callbacks.{Callback}
use lwip_amiga.Io.{hear}

-- `tcp_sndbuf`, the answer of `tcp_write`, whether a task waits for the lock; and where the lock is
-- opened: the callbacks, whether another opener shuts the socket down, and the wait's verdict.
pub record Turn : Type 0 where
  pub avail : ℕ
  pub written : LwipErr
  pub contended : Bool
  pub heard : List Callback
  pub shut : Bool
  pub verdict : ℕ

-- A chunk that `tcp_write` took, with TCP_WRITE_FLAG_MORE and TCP_WRITE_FLAG_URG.
pub record Chunk : Type 0 where
  pub bytes : List ℕ
  pub more : Bool
  pub urg : Bool

-- The loop's state: `left` is what of the buffer has not been sent.
pub record Sending : Type 0 where
  pub sock : Socket
  pub sent : ℕ
  pub left : List ℕ
  pub wrote : List Chunk
  pub outputs : ℕ

pub data SendResult : Type 0 where
  accepted : ℕ → SendResult
  rejected : ℕ → SendResult
  unfinished : ℕ → SendResult

pub record Sent : Type 0 where
  pub sock : Socket
  pub verdict : SendResult
  pub wrote : List Chunk
  pub outputs : ℕ

abbrev pub finish_with : SendResult → Sending → Sent
finish_with v d = record { sock = d.sock; verdict = v; wrote = d.wrote; outputs = d.outputs }

-- A count where bytes were sent, and else the error.
abbrev pub or_sent : ℕ → Sending → Sent
or_sent e d = finish_with (if d.sent == 0 then rejected e else accepted d.sent) d

abbrev pub output : Sending → Sending
output d = record d { outputs = d.outputs + 1 }

-- The lock is open.
abbrev pub unlocked : List Opener → Turn → Sending → Sending
unlocked openers t d =
    let s = hear openers d.sock t.heard in
    record d { sock = record s { shut_wr = s.shut_wr || t.shut } }

abbrev pub after_block : ℕ → Sending → Sent ⊎ Sending
after_block zero d = inr d
after_block (suc v) d = inl (or_sent (suc v) d)

unfoldable pub send_block : List Opener → Bool → Turn → Sending → Sent ⊎ Sending
send_block openers dontwait t d =
    if dontwait then inl (or_sent 35 d) else after_block t.verdict (unlocked openers t d)

-- The chunk of a turn, capped by the send buffer and by 16 KB.
abbrev pub chunk_size : Turn → Sending → ℕ
chunk_size t d = min (min (length d.left) t.avail) 16384

abbrev pub chunk : Bool → Turn → Sending → Chunk
chunk oob t d =
    let last = chunk_size t d == length d.left in
    record { bytes = take (chunk_size t d) d.left; more = not last; urg = last && oob }

abbrev pub with_chunk : Bool → Turn → Sending → Sending
with_chunk oob t d = record d {
  sent = d.sent + chunk_size t d;
  left = drop (chunk_size t d) d.left;
  wrote = d.wrote ++ (chunk oob t d ∷ []);
}

-- Between two chunks the lock is opened where a task waits for it.
unfoldable pub wrote_chunk : List Opener → Bool → Turn → Sending → Sending
wrote_chunk openers oob t d =
    if t.contended && ltb (chunk_size t d) (length d.left)
    then unlocked openers t (output (with_chunk oob t d))
    else with_chunk oob t d

unfoldable pub write_turn : List Opener → Bool → Bool → Turn → Sending → Sent ⊎ Sending
unfolding send_block wrote_chunk
write_turn openers oob dontwait t d = elim t.written [
  | err_ok ↦ inr (wrote_chunk openers oob t d)
  | err_mem ↦ send_block openers dontwait t (output d)
  | e ↦ inl (or_sent (map_err e) d)
]

unfoldable pub send_turn : List Opener → Bool → Bool → Turn → Sending → Sent ⊎ Sending
unfolding send_block write_turn
send_turn openers oob dontwait t d =
    if not d.sock.pcb || d.sock.err != 0
    then inl (or_sent (if d.sock.err != 0 then d.sock.err else 32) d)
    else if d.sock.shut_wr
    then inl (finish_with (rejected 58) d)
    else if d.sock.connecting
    then send_block openers dontwait t d
    else if not d.sock.connected
    then inl (or_sent 57 d)
    else if t.avail == 0
    then send_block openers dontwait t (output d)
    else write_turn openers oob dontwait t d

abbrev pub is_done : List ℕ → Bool
is_done [] = true
is_done (_ ∷ _) = false

-- Past the loop.
abbrev pub flushed : Sending → Sent
flushed d = finish_with (accepted d.sent) (if d.sock.pcb then output d else d)

abbrev pub go_on : Sent ⊎ Sending → (Sending → Sent) → Sent
go_on (inl r) rest = r
go_on (inr d) rest = rest d

unfoldable pub send_loop : List Opener → Bool → Bool → List Turn → Sending → Sent
unfolding send_turn
send_loop openers oob dontwait [] d =
    if is_done d.left then flushed d else finish_with (unfinished d.sent) d
send_loop openers oob dontwait (t ∷ ts) d = elim (is_done d.left) [
  | true ↦ flushed d
  | false ↦ go_on (send_turn openers oob dontwait t d) (send_loop openers oob dontwait ts)
]

unfoldable pub tcp_send : List Opener → Socket → List ℕ → ℕ → List Turn → Sent
unfolding send_loop
tcp_send openers s buf flags ts =
    send_loop openers (bit_and flags 0x01 != 0 && not (is_done buf))
      (s.nonblock || bit_and flags 0x80 != 0) ts
      (record { sock = s; sent = 0; left = buf; wrote = []; outputs = 0 })
