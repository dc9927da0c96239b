-- ===== src/Io/Stream.antt =====
-- The order of the bytes through a read.
use lwip_amiga.Base.{ℕ, ◌≡◌, ◌⊎◌, false, List, [], ◌++◌, arith}
use lwip_amiga.Sock.State.{Socket, Opener}
use lwip_amiga.Sock.Recv.Stream.{bytes}
use lwip_amiga.Sock.Callbacks.{Callback}
use lwip_amiga.Io.{Pause, Outcome, returned, refused, asleep}
use lwip_amiga.Io.Drain.{mode, Progress}
use lwip_amiga.Io.Course.{Merged}
use lwip_amiga.Io.Loop.{TurnsTo}
use lwip_amiga.Io.Grows.{BringAll}
use lwip_amiga.Io.Conserves.{flat, Conserves}
use lwip_amiga.Io.Read.{Read, recv_loop, pass_mark, tcp_recv}

-- The bytes that a call gives its caller; those of a sleeping call are in its buffer.
abbrev pub bytes_of : Outcome → List ℕ
bytes_of (returned xs) = xs
bytes_of (refused e) = []
bytes_of (asleep xs) = xs

abbrev EndsFrom : Progress → Read → Type 0
EndsFrom d r =
    (cs : List (List Callback)) × (tail : List ℕ) × (d.copies ≡ cs ++ r.copies)
    × BringAll (flat cs) tail
    × (bytes_of r.outcome ++ bytes r.sock.rxq ≡ (d.out ++ bytes d.sock.rxq) ++ tail)

abbrev TurnsFrom : Progress → Read ⊎ Progress → Type 0
TurnsFrom d = TurnsTo (Conserves d) (EndsFrom d)

-- What a read that is not for the urgent byte starts from.
abbrev pub begin : Socket → ℕ → List (List Callback) → Progress
begin s flags copies = record {
  sock = pass_mark (mode s flags).peek s;
  out = [];
  acked = 0;
  credits = [];
  copies = copies;
}

pub tcp_recv-recv_loop :
    (openers : List Opener) (s : Socket) (len flags : ℕ) (copies : List (List Callback))
    (ws : List Pause)
    → (mode s flags).oob ≡ false
    → tcp_recv openers s len flags copies ws
      ≡ recv_loop openers (mode s flags) len ws (begin s flags copies)
unfolding tcp_recv
tcp_recv-recv_loop openers s len flags copies ws o = ground (arith, o)

-- A read that went through pauses: what it gives and leaves has grown by what was brought by the
-- callbacks met, those of the copies that its schedule has no more and those of the pauses.
abbrev pub Follows : Progress → List Pause → Read → Type 0
Follows d ws r =
    (cs : List (List Callback)) × (met : List Callback) × (tail : List ℕ) × (d.copies
      ≡ cs ++ r.copies)
    × Merged cs ws met
    × BringAll met tail
    × (bytes_of r.outcome ++ bytes r.sock.rxq ≡ (d.out ++ bytes d.sock.rxq) ++ tail)
