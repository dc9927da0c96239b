-- ===== src/Io/Ends.antt =====
-- The drain loop comes to its end within its fuel.
use lwip_amiga.Base.{
  ℕ, zero, suc, ◌+◌, ◌-◌, ◌%◌, ◌<◌, ◌≤◌, ◌≡◌, ◌⊎◌, inl, inr, refl, ap, sym, ◌∙◌, true, false,
  Option, none, some, List, [], ◌∷◌, ltb, length, take, length-append, arith, u32_mod, Bool-cases,
  Option-cases,
}
use lwip_amiga.Sock.State.{Chain, Socket, Opener}
use lwip_amiga.Sock.Wake.{fd_close}
use lwip_amiga.Sock.Recv.{Urgent, chain_len, excise, tcp_recv_cb, enqueue, map_urgent, Mapped}
use lwip_amiga.Sock.Recv.Stream.{finish-SameQueue, recv_event}
use lwip_amiga.Sock.Callbacks.{Callback, received, sent, failed, connected_to, datagram, callback}
use lwip_amiga.Io.{hear}
use lwip_amiga.Io.Drain.{
  Progress, whole_run, consume, take_part, take_run, next_copy, take_next, drain_turn, drain_step,
  drain_loop, incoming, incoming_all,
}
use lwip_amiga.Io.Heard.{IsPbufs, map_urgent-rxq}
use lwip_amiga.Io.Grows.{sent-Kept, failed-Kept, connected_to-Kept, datagram-Kept}
use lwip_amiga.Io.Loop.{drain_none, drain_some}
use lwip_amiga.Io.Sound.{
  Sound, IsRun, whole_run-IsRun, whole_run-nothing, length-take, drain_step-turn, drain_step-Sound,
}

length-excise : (off : ℕ) (c : Chain) → length (excise off c).1 ≡ length c
unfolding excise
length-excise off [] = refl
length-excise off (x ∷ c) = ground (arith, length-excise (off - length x) c)

length-map_urgent :
    (s : Socket) (tcb : Option Urgent) (p : Chain) → length (map_urgent s tcb p).chain ≡ length p
unfolding map_urgent
length-map_urgent s none p = refl
length-map_urgent s (some u) p =
    ground (arith, length-excise ((u.rcv_up + u32_mod - s.rx_next_seq) % u32_mod) p)

length-enqueue :
    (m : Mapped) (p : Chain) → length (enqueue m p).rxq ≤ length m.sock.rxq + length m.chain
unfolding enqueue
length-enqueue m p = ground (arith, length-append m.sock.rxq m.chain)

callback-incoming :
    (openers : List Opener) (s : Socket) (c : Callback)
    → length (callback openers s c).0.rxq ≤ length s.rxq + incoming (c ∷ [])
unfolding callback tcp_recv_cb
callback-incoming openers s (received tcb none) =
    omega
      (arith, ap length (finish-SameQueue openers (record s { rxeof = true }) false fd_close).rxq)
callback-incoming openers s (received tcb (some p)) =
    let m = map_urgent s tcb p in
    omega (
      arith,
      ap length (finish-SameQueue openers (enqueue m p) m.newoob (recv_event m p)).rxq,
      length-enqueue m p,
      length-map_urgent s tcb p,
      ap length (map_urgent-rxq s tcb p),
    )
callback-incoming openers s sent = omega (arith, ap length (sent-Kept openers s).rxq)
callback-incoming openers s (failed e) = omega (arith, ap length (failed-Kept openers s e).rxq)
callback-incoming openers s (connected_to q l e) =
    omega (arith, ap length (connected_to-Kept openers s q l e).rxq)
callback-incoming openers s (datagram q r d) =
    omega (arith, ap length (datagram-Kept openers s q r d).rxq)

incoming_cons :
    (c : Callback) (cs : List Callback) → incoming (c ∷ cs) ≡ incoming (c ∷ []) + incoming cs
incoming_cons (received tcb none) cs = omega arith
incoming_cons (received tcb (some p)) cs = omega arith
incoming_cons sent cs = omega arith
incoming_cons (failed e) cs = omega arith
incoming_cons (connected_to q l e) cs = omega arith
incoming_cons (datagram q r d) cs = omega arith

hear-incoming :
    (openers : List Opener) (s : Socket) (cs : List Callback)
    → length (hear openers s cs).rxq ≤ length s.rxq + incoming cs
hear-incoming openers s [] = omega arith
hear-incoming openers s (c ∷ cs) = omega (
  arith,
  incoming_cons c cs,
  callback-incoming openers s c,
  hear-incoming openers (callback openers s c).0 cs,
)

-- The pbufs that a drain may still meet.
abbrev pub ahead : Progress → ℕ
ahead d = length d.sock.rxq + incoming_all d.copies

ahead-take_run :
    (openers : List Opener) (p : List ℕ) (run q : Chain) (d : Progress)
    → length (p ∷ run) + length q ≡ length d.sock.rxq
    → ahead (take_run openers (p ∷ run) q d) < ahead d
unfolding take_run consume
ahead-take_run openers p run q d e = omega (
  arith,
  hear-incoming openers (consume d.sock (chain_len (p ∷ run)) q) (next_copy d.copies).0,
  next_copy_incoming d.copies,
)
  where
    next_copy_incoming :
        (cs : List (List Callback))
        → incoming (next_copy cs).0 + incoming_all (next_copy cs).1 ≡ incoming_all cs
    next_copy_incoming [] = omega arith
    next_copy_incoming (c ∷ cs) = refl

-- A turn leaves fewer pbufs ahead, or has copied all it may.
ahead-take_next :
    (openers : List Opener) (room : ℕ) (h : List ℕ) (q : Chain) (run : Chain × Chain) (d : Progress)
    → d.sock.rxq ≡ h ∷ q
    → whole_run room 0 (h ∷ q) ≡ run
    → length h ≤ 0xFFFF
    → let e = take_next openers room h q run d in
      (ahead e < ahead d) ⊎ (length d.out + room ≤ length e.out)
unfolding take_next take_part
ahead-take_next openers room h q ([], r) d e f b =
    let n = whole_run-nothing room h q r b f in
    inr (omega (arith, length-append d.out (take room h), length-take room h (omega arith)))
ahead-take_next openers room h q (p ∷ run, r) d e f b =
    let w : IsRun room 0 (h ∷ q) (p ∷ run, r) = rw f at (whole_run-IsRun room 0 (h ∷ q)) in
    inl (ahead-take_run openers p run r d (w.count ∙ ap length (sym e)))

ahead-drain_turn :
    (openers : List Opener) (room : ℕ) (q : Chain) (d e : Progress)
    → d.sock.rxq ≡ q
    → drain_turn openers room q d ≡ some e
    → IsPbufs d.sock.rxq
    → (ahead e < ahead d) ⊎ (length d.out + room ≤ length e.out)
unfolding drain_turn
ahead-drain_turn openers room [] d e s t b = absurd (cc t)
ahead-drain_turn openers room (h ∷ q) d e s t b =
    let b' : IsPbufs (h ∷ q) = rw s at b in
    let c = ahead-take_next openers room h q (whole_run room 0 (h ∷ q)) d s refl b'.0 in
    let same : take_next openers room h q (whole_run room 0 (h ∷ q)) d ≡ e = cc t in rw same at c

drain_step_ends :
    (openers : List Opener) (lim : ℕ) (d : Progress)
    → drain_step openers lim d ≡ none
    → (lim ≤ length d.out) ⊎ (d.sock.rxq ≡ [])
unfolding drain_step
drain_step_ends openers lim d h = elim (Bool-cases (ltb (length d.out) lim)) [
  | inl y ↦ inr (drain_turn_ends openers (lim - length d.out) d.sock.rxq d (ground arith))
  | inr y ↦ inl (ground arith)
]
  where
    drain_turn_ends :
        (openers : List Opener) (room : ℕ) (q : Chain) (d : Progress)
        → drain_turn openers room q d ≡ none
        → q ≡ []
    drain_turn_ends openers room [] d t = refl
    drain_turn_ends openers room (h ∷ q) d t = absurd (cc t)

drain_stays :
    (fuel : ℕ) (openers : List Opener) (lim : ℕ) (d : Progress)
    → lim ≤ length d.out
    → drain_loop fuel openers lim d ≡ d
unfolding drain_loop drain_step
drain_stays zero openers lim d h = refl
drain_stays (suc fuel) openers lim d h = ground arith

-- With more fuel than there are pbufs queued and on their way, the drain loop copies all that it
-- may, or empties the queue.
pub drain_done :
    (rest fuel : ℕ) (openers : List Opener) (lim : ℕ) (d : Progress)
    → Sound rest d
    → ahead d < fuel
    → let e = drain_loop fuel openers lim d in (lim ≤ length e.out) ⊎ (e.sock.rxq ≡ [])
drain_done rest zero openers lim d s h = absurd (omega arith)
drain_done rest (suc fuel) openers lim d s h = elim (Option-cases (drain_step openers lim d)) [
  | inl n ↦ rw (drain_none fuel openers lim d n) (drain_step_ends openers lim d n)
  | inr (e, g) ↦
      rw (drain_some fuel openers lim d e g)
        (elim (ahead-drain_turn openers (lim - length d.out) d.sock.rxq d e refl
          (drain_step-turn openers lim d e g) s.pbufs) [
            | inl a ↦
                drain_done rest fuel openers lim e (drain_step-Sound rest openers lim d e g s)
                  (omega arith)
            | inr a ↦ rw (drain_stays fuel openers lim e (omega arith)) (inl (omega arith))
          ])
]
