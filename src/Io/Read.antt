-- ===== src/Io/Read.antt =====
-- `sb_tcp_recv` of sb_io.c: the outer loop, its waits, and MSG_OOB.
use lwip_amiga.Base.{
  ℕ, zero, suc, ◌+◌, ◌-◌, ◌⊎◌, inl, inr, Bool, true, false, ◌&&◌, ◌||◌, not, Option, none, some,
  List, [], ◌∷◌, ◌++◌, ◌==◌, ◌!=◌, ltb, leb, if◌then◌else◌, length, take, min,
}
use lwip_amiga.Sock.State.{none_marked, have, marked, taken, Socket, Opener}
use lwip_amiga.Sock.Recv.Stream.{bytes}
use lwip_amiga.Sock.Callbacks.{Callback}
use lwip_amiga.Io.{Pause, Outcome, returned, refused, asleep, hear}
use lwip_amiga.Io.Drain.{Mode, mode, Progress, at_mark, drain_loop, drain_fuel, flush_credit}

-- The end of a call, with what is left of the schedule of its copies.
pub record Read : Type 0 where
  pub sock : Socket
  pub outcome : Outcome
  pub credits : List ℕ
  pub copies : List (List Callback)

abbrev pub ends : Progress → Outcome → Read
ends d o = record { sock = d.sock; outcome = o; credits = d.credits; copies = d.copies }

-- Where bytes have been copied they are returned, and an error code is not.
abbrev pub or_copied : Progress → ℕ → Read
or_copied d e = elim d.out [ [] ↦ ends d (refused e) | _ ∷ _ ↦ ends d (returned d.out) ]

abbrev pub is_empty {ℓ} : {A : Type ℓ} → List A → Bool
is_empty [] = true
is_empty (_ ∷ _) = false

-- What a call does about an empty queue; `none` where it sleeps. An error stays on the socket where
-- bytes are returned.
unfoldable pub idle_exit : Mode → Progress → Option Read
idle_exit k d =
    if d.sock.rxeof || d.sock.shut_rd
    then some (ends d (returned d.out))
    else if d.sock.err != 0
    then some (elim d.out [
      | [] ↦ ends (record d { sock = record d.sock { err = 0 } }) (refused d.sock.err)
      | _ ∷ _ ↦ ends d (returned d.out)
    ])
    else if not d.sock.pcb
    then some (ends d (returned d.out))
    else if not d.sock.connected && not d.sock.connecting
    then some (or_copied d 57)
    else if not (is_empty d.out) && not k.waitall
    then some (ends d (returned d.out))
    else if k.dontwait
    then some (or_copied d 35)
    else none

-- How far a pass may go, and whether the mark stops it.
unfoldable pub clamp : Bool → ℕ → ℕ → Socket → ℕ × Bool
clamp peek len copied s =
    if at_mark s.oob_state
      && (ltb 0 s.oob_mark_dist || not peek)
      && leb s.oob_mark_dist (len - copied)
    then (copied + s.oob_mark_dist, true)
    else (len, false)

-- A non-destructive copy, of at most a u16 of bytes.
abbrev peek_at : ℕ → Progress → Progress
peek_at lim d = record d {
  out = d.out ++ take (min (min (lim - length d.out) d.sock.rx_bytes) 0xFFFF) (bytes d.sock.rxq);
}

-- The turn of the outer loop on a queue that is not empty: the call's end, or what the next turn
-- starts from.
unfoldable pub pass : List Opener → Mode → ℕ → Progress → Read ⊎ Progress
unfolding clamp drain_loop flush_credit
pass openers k len d =
    if k.peek
    then inl (peeked (peek_at c.0 d))
    else (if stops then inl (peeked drained) else inr drained)
  where
    c : ℕ × Bool
    c = clamp k.peek len (length d.out) d.sock

    peeked : Progress → Read
    peeked e = ends e (returned e.out)

    drained : Progress
    drained = flush_credit (drain_loop (drain_fuel d) openers c.0 d)

    stops : Bool
    stops = (c.1 && leb c.0 (length drained.out)) || leb len (length drained.out) || not k.waitall

abbrev pub or_wait : Progress → Option Read → Read ⊎ Progress
or_wait e none = inr e
or_wait e (some r) = inl r

-- The head of the loop, after a pass that did not end it: such a pass has emptied the queue.
unfoldable pub after_pass : Mode → Read ⊎ Progress → Read ⊎ Progress
unfolding idle_exit
after_pass k (inl r) = inl r
after_pass k (inr e) = or_wait e (idle_exit k e)

-- One turn of the outer loop up to its wait.
unfoldable pub turn : List Opener → Mode → ℕ → Progress → Read ⊎ Progress
unfolding pass after_pass
turn openers k len d = after_pass k (if is_empty d.sock.rxq then inr d else pass openers k len d)

abbrev pub woken : List Opener → Pause → Progress → Progress
woken openers w d = record d { sock = hear openers d.sock w.heard }

-- The wait, by its verdict; `rest` is the loop after a wait that was not cut short.
unfoldable pub after_wait : ℕ → Progress → (Progress → Read) → Read
after_wait zero d rest = rest d
after_wait (suc v) d rest = or_copied d (suc v)

abbrev pub settle : Read ⊎ Progress → (Progress → Read) → Read
settle (inl r) rest = r
settle (inr d) rest = rest d

unfoldable pub recv_loop : List Opener → Mode → ℕ → List Pause → Progress → Read
unfolding turn after_wait
recv_loop openers k len [] d = settle (turn openers k len d) (λ e. ends e (asleep e.out))
recv_loop openers k len (w ∷ ws) d =
    settle (turn openers k len d)
      (λ e. after_wait w.verdict (woken openers w e) (recv_loop openers k len ws))

abbrev answer : Socket → Outcome → Read
answer s o = record { sock = s; outcome = o; credits = []; copies = [] }

-- The turn of the loop for MSG_OOB; `none` where it sleeps.
unfoldable pub oob_turn : Mode → Socket → Option Read
oob_turn k s = elim s.oob_state [
  | have ↦
      some
        (answer (if k.peek then s else record s { oob_state = taken }) (returned (s.oob_byte ∷ [])))
  | marked ↦
      if s.err != 0
      then some (answer (record s { err = 0 }) (refused s.err))
      else if s.rxeof || s.shut_rd || not s.pcb
      then some (answer s (refused 22))
      else if k.dontwait
      then some (answer s (refused 35))
      else none
  | _ ↦ some (answer s (refused 22))
]

unfoldable pub recv_oob : List Opener → Mode → List Pause → Socket → Read
unfolding oob_turn
recv_oob openers k [] s = elim (oob_turn k s) [ some r ↦ r | none ↦ answer s (asleep []) ]
recv_oob openers k (w ∷ ws) s = elim (oob_turn k s) [
  | some r ↦ r
  | none ↦ elim w.verdict [
    | zero ↦ recv_oob openers k ws (hear openers s w.heard)
    | suc v ↦ answer (hear openers s w.heard) (refused (suc v))
  ]
]

-- A consuming read that starts at the mark passes it.
unfoldable pub pass_mark : Bool → Socket → Socket
pass_mark peek s =
    if not peek && s.oob_mark_dist == 0 && at_mark s.oob_state
    then record s { oob_state = none_marked }
    else s

unfoldable pub tcp_recv : List Opener → Socket → ℕ → ℕ → List (List Callback) → List Pause → Read
unfolding recv_oob recv_loop pass_mark mode
tcp_recv openers s len flags copies ws =
    if k.oob
    then (if s.oob_inline || ltb len 1 then answer s (refused 22) else recv_oob openers k ws s)
    else recv_loop openers k len ws
        (record { sock = pass_mark k.peek s; out = []; acked = 0; credits = []; copies = copies })
  where
    k : Mode
    k = mode s flags
