-- ===== src/Io/Told.antt =====
-- What `sb_tcp_send` tells its caller.
use lwip_amiga.Base.{
  ℕ, zero, suc, ◌≡◌, ◌⊎◌, inl, inr, refl, ap, sym, ◌∙◌, Bool, true, false, ◌&&◌, ◌||◌, ◌!=◌, not,
  List, [], ◌∷◌, ◌++◌, ◌==◌, if◌then◌else◌, length, append-nil, arith, Bool-cases, bit_and,
}
use lwip_amiga.Sock.State.{Socket, Opener}
use lwip_amiga.Sock.Wake.{LwipErr, err_ok, err_mem, map_err}
use lwip_amiga.Io.Send.{
  Turn, Chunk, Sending, SendResult, accepted, rejected, unfinished, Sent, finish_with, or_sent,
  output, unlocked, after_block, send_block, wrote_chunk, write_turn, send_turn, is_done, flushed,
  go_on, send_loop, tcp_send,
}
use lwip_amiga.Io.Sending.{all_bytes, AreMore, AreWhole, InOrder, same-InOrder, wrote_chunk-InOrder}

-- What a call tells: the count of the bytes handed over; an error where there are none, but for the
-- error of a socket that is shut down.
abbrev pub Tells : List Chunk → SendResult → Type 0
Tells cs (accepted n) = length (all_bytes cs) ≡ n
Tells cs (rejected e) = (all_bytes cs ≡ []) ⊎ (e ≡ 58)
Tells cs (unfinished n) = length (all_bytes cs) ≡ n

-- What a call has handed over: a prefix of the buffer, with bytes to follow or to its end.
pub record Handed (oob : Bool) (buf : List ℕ) (r : Sent) : Type 0 where
  pub prefix : (rest : List ℕ) × (all_bytes r.wrote ++ rest ≡ buf)
  pub tells : Tells r.wrote r.verdict
  pub flags : AreMore r.wrote ⊎ ((all_bytes r.wrote ≡ buf) × AreWhole oob r.wrote)

pub no_bytes : (xs : List ℕ) → length xs ≡ 0 → xs ≡ []
no_bytes [] h = refl
no_bytes (x ∷ xs) h = absurd (omega arith)

pub nothing_left : (xs : List ℕ) → is_done xs ≡ true → xs ≡ []
nothing_left [] h = refl
nothing_left (x ∷ xs) h = absurd (cc h)

pub send_loop_done :
    (openers : List Opener) (oob dontwait : Bool) (t : Turn) (ts : List Turn) (d : Sending)
    → is_done d.left ≡ true
    → send_loop openers oob dontwait (t ∷ ts) d ≡ flushed d
unfolding send_loop
send_loop_done openers oob dontwait t ts d y = ground arith

pub send_loop_turn :
    (openers : List Opener) (oob dontwait : Bool) (t : Turn) (ts : List Turn) (d : Sending)
    → is_done d.left ≡ false
    → send_loop openers oob dontwait (t ∷ ts) d
      ≡ go_on (send_turn openers oob dontwait t d) (send_loop openers oob dontwait ts)
unfolding send_loop
send_loop_turn openers oob dontwait t ts d y = ground arith

module _ (oob : Bool) (buf : List ℕ) where
  exit-Handed :
      (v : SendResult) (d : Sending)
      → is_done d.left ≡ false
      → InOrder oob buf d
      → Tells d.wrote v
      → Handed oob buf (finish_with v d)
  exit-Handed v d e s t = record {
    prefix = (d.left, s.bytes);
    tells = t;
    flags = inl (s.some_left e);
  }

  or_sent-Handed :
      (v : ℕ) (d : Sending)
      → is_done d.left ≡ false
      → InOrder oob buf d
      → Handed oob buf (or_sent v d)
  or_sent-Handed v d e s = elim (Bool-cases (d.sent == 0)) [
    | inl y ↦ rw y (
        exit-Handed (rejected v) d e s
          (inl (no_bytes (all_bytes d.wrote) (ground (arith, s.count)))))
    | inr y ↦ rw y (exit-Handed (accepted d.sent) d e s (sym s.count))
  ]

  flushed-Handed :
      (d : Sending) → is_done d.left ≡ true → InOrder oob buf d → Handed oob buf (flushed d)
  flushed-Handed d e s =
      let none : d.left ≡ [] = nothing_left d.left e in
      let all : all_bytes d.wrote ≡ buf =
        sym (append-nil (all_bytes d.wrote)) ∙ ap (◌++◌ (all_bytes d.wrote)) (sym none) ∙ s.bytes in
      elim (Bool-cases d.sock.pcb) [
        | inl y ↦ rw y record {
          prefix = ([], append-nil (all_bytes d.wrote) ∙ all);
          tells = sym s.count;
          flags = inr (all, s.none_left e);
        }
        | inr y ↦ rw y record {
          prefix = ([], append-nil (all_bytes d.wrote) ∙ all);
          tells = sym s.count;
          flags = inr (all, s.none_left e);
        }
      ]

  abbrev GoesTo : Sent ⊎ Sending → Type 0
  GoesTo (inl r) = Handed oob buf r
  GoesTo (inr d) = InOrder oob buf d

  after_block-GoesTo :
      (v : ℕ) (d : Sending) → is_done d.left ≡ false → InOrder oob buf d → GoesTo (after_block v d)
  after_block-GoesTo zero d e s = s
  after_block-GoesTo (suc v) d e s = or_sent-Handed (suc v) d e s

  send_block-GoesTo :
      (openers : List Opener) (dontwait : Bool) (t : Turn) (d : Sending)
      → is_done d.left ≡ false
      → InOrder oob buf d
      → GoesTo (send_block openers dontwait t d)
  unfolding send_block
  send_block-GoesTo openers true t d e s = or_sent-Handed 35 d e s
  send_block-GoesTo openers false t d e s =
      after_block-GoesTo t.verdict (unlocked openers t d) e
        (same-InOrder oob buf d (unlocked openers t d) refl refl refl s)

  write_turn-GoesTo :
      (openers : List Opener) (dontwait : Bool) (t : Turn) (d : Sending)
      → is_done d.left ≡ false
      → InOrder oob buf d
      → GoesTo (write_turn openers oob dontwait t d)
  unfolding write_turn
  write_turn-GoesTo openers dontwait t d e s =
      let out =
        send_block-GoesTo openers dontwait t (output d) e
          (same-InOrder oob buf d (output d) refl refl refl s) in
      go t.written out
    where
      go :
          (w : LwipErr)
          → GoesTo (send_block openers dontwait t (output d))
          → GoesTo (elim w [
            | err_ok ↦ inr (wrote_chunk openers oob t d)
            | err_mem ↦ send_block openers dontwait t (output d)
            | x ↦ inl (or_sent (map_err x) d)
          ])
      go err_ok out = wrote_chunk-InOrder oob buf openers t d e s
      go err_mem out = out
      go w out = or_sent-Handed (map_err w) d e s

  send_turn-GoesTo :
      (openers : List Opener) (dontwait : Bool) (t : Turn) (d : Sending)
      → is_done d.left ≡ false
      → InOrder oob buf d
      → GoesTo (send_turn openers oob dontwait t d)
  unfolding send_turn
  send_turn-GoesTo openers dontwait t d e s = ground (
    arith,
    or_sent-Handed (if d.sock.err != 0 then d.sock.err else 32) d e s,
    exit-Handed (rejected 58) d e s (inr refl),
    send_block-GoesTo openers dontwait t d e s,
    or_sent-Handed 57 d e s,
    send_block-GoesTo openers dontwait t (output d) e
        (same-InOrder oob buf d (output d) refl refl refl s),
    write_turn-GoesTo openers dontwait t d e s,
  )

  go_on-Handed :
      (x : Sent ⊎ Sending) (rest : Sending → Sent)
      → GoesTo x
      → ((d : Sending) → InOrder oob buf d → Handed oob buf (rest d))
      → Handed oob buf (go_on x rest)
  go_on-Handed (inl r) rest h f = h
  go_on-Handed (inr d) rest h f = f d h

  send_loop-Handed :
      (openers : List Opener) (dontwait : Bool) (ts : List Turn) (d : Sending)
      → InOrder oob buf d
      → Handed oob buf (send_loop openers oob dontwait ts d)
  unfolding send_loop
  send_loop-Handed openers dontwait [] d s = elim (Bool-cases (is_done d.left)) [
    | inl y ↦ rw y (flushed-Handed d y s)
    | inr y ↦ rw y (exit-Handed (unfinished d.sent) d y s (sym s.count))
  ]
  send_loop-Handed openers dontwait (t ∷ ts) d s = elim (Bool-cases (is_done d.left)) [
    | inl y ↦ rw (send_loop_done openers oob dontwait t ts d y) (flushed-Handed d y s)
    | inr y ↦ rw (send_loop_turn openers oob dontwait t ts d y) (
        go_on-Handed (send_turn openers oob dontwait t d) (send_loop openers oob dontwait ts)
          (send_turn-GoesTo openers dontwait t d y s) (send_loop-Handed openers dontwait ts))
  ]

-- MSG_OOB on a write that is not empty.
abbrev pub is_urgent : List ℕ → ℕ → Bool
is_urgent buf flags = bit_and flags 0x01 != 0 && not (is_done buf)

-- Whatever lwIP answers and whatever happens while the lock is open, the chunks that a stream send
-- hands over are of 16 KB at most and make up a prefix of the buffer; the count it returns is their
-- length, and it returns an error only where there are none or the socket was shut down; only the
-- chunk that ends the buffer bears the urgent mark or lacks the flag for more.
pub tcp_send-Handed :
    (openers : List Opener) (s : Socket) (buf : List ℕ) (flags : ℕ) (ts : List Turn)
    → Handed (is_urgent buf flags) buf (tcp_send openers s buf flags ts)
unfolding tcp_send
tcp_send-Handed openers s buf flags ts =
    send_loop-Handed (is_urgent buf flags) buf openers (s.nonblock || bit_and flags 0x80 != 0) ts
      start (record { bytes = refl; count = refl; some_left = λ y. tt; none_left = λ y. tt })
  where
    start : Sending
    start = record { sock = s; sent = 0; left = buf; wrote = []; outputs = 0 }
