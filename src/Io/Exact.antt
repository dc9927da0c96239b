-- ===== src/Io/Exact.antt =====
-- A read from a queue that holds bytes, with no callback while it copies.
use lwip_amiga.Base.{
  ℕ, ◌≡◌, inr, Bool, false, ◌&&◌, List, [], leb, ltb, if◌then◌else◌, length, arith,
}
use lwip_amiga.Sock.State.{Socket, Opener}
use lwip_amiga.Io.Drain.{Mode, Progress, at_mark, drain_loop, drain_fuel, flush_credit}
use lwip_amiga.Io.Read.{Read, clamp, pass}
use lwip_amiga.Io.Sound.{Sound}
use lwip_amiga.Io.Quiet.{Quiet}
use lwip_amiga.Io.Ends.{drain_done}

-- A pass after which the outer loop goes on has emptied the queue: the loop's next turn begins with
-- an empty queue and waits or returns, so that no pass follows another without a wait.
pass_empties :
    (rest : ℕ) (openers : List Opener) (k : Mode) (len : ℕ) (d e : Progress)
    → Sound rest d
    → pass openers k len d ≡ inr e
    → e.sock.rxq ≡ []
unfolding pass flush_credit clamp
pass_empties rest openers k len d e s h =
    let done =
      drain_done rest (drain_fuel d) openers (clamp k.peek len (length d.out) d.sock).0 d s
        (omega arith) in
    ground (arith, h, done)

-- How far a read may go from a socket: the mark stops it, unless it starts there.
abbrev pub read_limit : Socket → ℕ → ℕ
read_limit s len =
    if at_mark s.oob_state && ltb 0 s.oob_mark_dist && leb s.oob_mark_dist len
    then s.oob_mark_dist
    else len

abbrev drained : List Opener → ℕ → Progress → Progress
drained openers len d =
    flush_credit (drain_loop (drain_fuel d) openers (clamp false len (length d.out) d.sock).0 d)

-- There is a mark ahead.
abbrev pub has_mark : Socket → Bool
has_mark s = at_mark s.oob_state && ltb 0 s.oob_mark_dist
