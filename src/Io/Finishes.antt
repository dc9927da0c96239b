-- ===== src/Io/Finishes.antt =====
-- `sb_tcp_send` where lwIP takes what it is given.
use lwip_amiga.Base.{
  ℕ, ◌+◌, ◌-◌, ◌<◌, ◌≤◌, ◌≡◌, inl, inr, ap, ◌∙◌, Bool, true, false, ◌&&◌, ◌||◌, ◌!=◌, List, [], ◌∷◌,
  ltb, length, drop, arith, Bool-cases, bit_and,
}
use lwip_amiga.Sock.State.{Socket, Opener}
use lwip_amiga.Sock.Wake.{err_ok}
use lwip_amiga.Io.Send.{
  Turn, Sending, accepted, chunk_size, wrote_chunk, write_turn, send_turn, is_done, send_loop,
  tcp_send,
}
use lwip_amiga.Io.Sound.{length-drop}
use lwip_amiga.Io.{hear}
use lwip_amiga.Io.Told.{nothing_left, send_loop_done, send_loop_turn, is_urgent}

-- A turn at which lwIP takes bytes, and the socket stays what it is while the lock is open.
pub record Takes (t : Turn) : Type 0 where
  pub room : 0 < t.avail
  pub ok : t.written ≡ err_ok
  pub quiet : t.heard ≡ []
  pub open_for : t.shut ≡ false

abbrev pub AllTake : List Turn → Type 0
AllTake [] = Unit {0}
AllTake (t ∷ ts) = Takes t × AllTake ts

-- A connected socket that can send.
pub record IsReady (s : Socket) : Type 0 where
  pub pcb : s.pcb ≡ true
  pub err : s.err ≡ 0
  pub shut_wr : s.shut_wr ≡ false
  pub connecting : s.connecting ≡ false
  pub connected : s.connected ≡ true

turn-Takes :
    (openers : List Opener) (oob dontwait : Bool) (t : Turn) (d : Sending)
    → Takes t
    → IsReady d.sock
    → send_turn openers oob dontwait t d ≡ inr (wrote_chunk openers oob t d)
unfolding send_turn write_turn
turn-Takes openers oob dontwait t d k r =
    ground (arith, k.room, k.ok, r.pcb, r.err, r.shut_wr, r.connecting, r.connected)

not_empty : (xs : List ℕ) → is_done xs ≡ false → 0 < length xs
not_empty [] h = absurd (cc h)
not_empty (x ∷ xs) h = omega arith

-- The two counts of what is left do not depend on the lock.
wrote_chunk-fields :
    (openers : List Opener) (oob : Bool) (t : Turn) (d : Sending)
    → let e = wrote_chunk openers oob t d in
      (e.left ≡ drop (chunk_size t d) d.left) × (e.sent ≡ d.sent + chunk_size t d)
unfolding wrote_chunk
wrote_chunk-fields openers oob t d = ground arith

wrote_chunk-Takes :
    (openers : List Opener) (oob : Bool) (t : Turn) (d : Sending)
    → Takes t
    → is_done d.left ≡ false
    → let e = wrote_chunk openers oob t d in
      (length e.left < length d.left) × (e.sent + length e.left ≡ d.sent + length d.left)
wrote_chunk-Takes openers oob t d k e =
    let (left, sent) = wrote_chunk-fields openers oob t d in
    let long : length (wrote_chunk openers oob t d).left ≡ length d.left - chunk_size t d =
      ap length left ∙ length-drop (chunk_size t d) d.left in
    let some : 0 < length d.left = not_empty d.left e in
    (omega (arith, long, some, k.room), omega (arith, long, sent))

wrote_chunk-IsReady :
    (openers : List Opener) (oob : Bool) (t : Turn) (d : Sending)
    → Takes t
    → IsReady d.sock
    → IsReady (wrote_chunk openers oob t d).sock
unfolding wrote_chunk
wrote_chunk-IsReady openers oob t d k r =
    let still : hear openers d.sock t.heard ≡ d.sock = ap (hear openers d.sock) k.quiet in
    elim (Bool-cases (t.contended && ltb (chunk_size t d) (length d.left))) [
      | inl y ↦
          rw (y, still, k.open_for)
            record {
              pcb = r.pcb;
              err = r.err;
              shut_wr = ground (arith, r.shut_wr);
              connecting = r.connecting;
              connected = r.connected;
            }
      | inr y ↦ rw y r
    ]

send_loop_finishes :
    (openers : List Opener) (oob dontwait : Bool) (ts : List Turn) (d : Sending)
    → AllTake ts
    → IsReady d.sock
    → length d.left ≤ length ts
    → (send_loop openers oob dontwait ts d).verdict ≡ accepted (d.sent + length d.left)
unfolding send_loop
send_loop_finishes openers oob dontwait [] d a r b = ground (arith, r.pcb, not_empty d.left)
send_loop_finishes openers oob dontwait (t ∷ ts) d a r b = elim (Bool-cases (is_done d.left)) [
  | inl y ↦
      rw (send_loop_done openers oob dontwait t ts d y)
        (ap accepted (omega (arith, ap length (nothing_left d.left y))))
  | inr y ↦
      rw (send_loop_turn openers oob dontwait t ts d y, turn-Takes openers oob dontwait t d a.0 r)
        (send_loop_finishes openers oob dontwait ts (wrote_chunk openers oob t d) a.1
            (wrote_chunk-IsReady openers oob t d a.0 r)
            (omega (arith, (wrote_chunk-Takes openers oob t d a.0 y).0))
          ∙ ap accepted (wrote_chunk-Takes openers oob t d a.0 y).1)
]

-- On a connected socket that can send, with lwIP taking bytes at every turn and nothing befalling the
-- socket, a stream send of a buffer comes to its end within as many turns as the buffer has bytes,
-- and returns the buffer's length, whether or not other tasks wait for the lock.
pub tcp_send_finishes :
    (openers : List Opener) (s : Socket) (buf : List ℕ) (flags : ℕ) (ts : List Turn)
    → AllTake ts
    → IsReady s
    → length buf ≤ length ts
    → (tcp_send openers s buf flags ts).verdict ≡ accepted (length buf)
unfolding tcp_send
tcp_send_finishes openers s buf flags ts a r b =
    send_loop_finishes openers (is_urgent buf flags) (s.nonblock || bit_and flags 0x80 != 0) ts
      start a r b
    ∙ ap accepted (omega arith)
  where
    start : Sending
    start = record { sock = s; sent = 0; left = buf; wrote = []; outputs = 0 }
