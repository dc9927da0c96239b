-- ===== src/Io.antt =====
-- The data path of sb_io.c: what its calls share. A call that lets the core lock go meets the
-- callbacks that lwIP makes meanwhile; `sb_wait_to` also returns 0 or an error code. What the
-- timers and the tasks do is the schedule that a call is given. `sb_fail` sets errno and gives -1,
-- here `refused`; a call whose schedule ends in a wait is `asleep`. The performance counters and
-- the hint of `sb_rx_awaiting` to the stack task touch no socket and are left out.
pub mod Drain
pub mod Read
pub mod Heard
pub mod Loop
pub mod Sound
pub mod Grows
pub mod Conserves
pub mod Course
pub mod Stream
pub mod Window
pub mod Exact
pub mod Quiet
pub mod Dgram
pub mod Sendmsg
pub mod Scatter
pub mod Calls
pub mod Send
pub mod Sending
pub mod Told
pub mod Finishes
pub mod Ends
pub mod Accounts
mod Tests
mod CallTests
use lwip_amiga.Base.{ℕ, List, [], ◌∷◌}
use lwip_amiga.Sock.State.{Socket, Opener}
use lwip_amiga.Sock.Callbacks.{Callback, callback}

-- One `sb_wait_to`.
pub record Pause : Type 0 where
  pub heard : List Callback
  pub verdict : ℕ

pub data Outcome : Type 0 where
  returned : List ℕ → Outcome
  refused : ℕ → Outcome
  asleep : List ℕ → Outcome

-- The lock is open, and the stack calls back.
abbrev pub hear : List Opener → Socket → List Callback → Socket
hear openers s [] = s
hear openers s (c ∷ cs) = hear openers (callback openers s c).0 cs
