-- ===== src/Io/Accounts.antt =====
-- The accounts of a whole read.
use lwip_amiga.Base.{ℕ, ◌+◌, ◌<◌, ◌≤◌, ◌≡◌, ◌⊎◌, refl, false, List, [], ◌∷◌, length, arith, u32_mod}
use lwip_amiga.Sock.State.{Socket}
use lwip_amiga.Sock.Recv.{chain_len}
use lwip_amiga.Sock.Recv.Stream.{IsCounted}
use lwip_amiga.Sock.Callbacks.{Callback}
use lwip_amiga.Io.{Pause}
use lwip_amiga.Io.Read.{Read, pass_mark}
use lwip_amiga.Io.Stream.{bytes_of, begin}
use lwip_amiga.Io.Heard.{IsPbufs, volume, AreDeliveries}
use lwip_amiga.Io.Sound.{volume_all, AreAllDeliveries, sum}
use lwip_amiga.Io.Window.{AreCredits, Settled}

-- What the waits of a schedule bring.
abbrev pub volume_of : List Pause → ℕ
volume_of [] = 0
volume_of (w ∷ ws) = volume w.heard + volume_of ws

abbrev pub AreWaits : List Pause → Type 0
AreWaits [] = Unit {0}
AreWaits (w ∷ ws) = AreDeliveries w.heard × AreWaits ws

-- The accounts of a read that has come to its end.
pub record Accounted (r : Read) : Type 0 where
  pub counted : IsCounted r.sock
  pub credits : AreCredits r.credits
  pub most : sum r.credits ≤ length (bytes_of r.outcome)
  pub paid : (r.sock.pcb ≡ false) ⊎ (sum r.credits ≡ length (bytes_of r.outcome))

pub begin-Settled :
    (rest : ℕ) (s : Socket) (flags : ℕ) (copies : List (List Callback))
    → IsPbufs s.rxq
    → IsCounted s
    → AreAllDeliveries copies
    → chain_len s.rxq + volume_all copies + rest < u32_mod
    → Settled rest (begin s flags copies)
unfolding pass_mark
begin-Settled rest s flags copies q c h b = record {
  sound = record {
    pbufs = ground (arith, q);
    counted = ground (arith, c);
    copies = h;
    room = ground (arith, b);
    most = omega arith;
    paid = λ y. omega arith;
  };
  credits = tt;
  none_due = refl;
}
