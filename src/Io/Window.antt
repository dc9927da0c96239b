-- ===== src/Io/Window.antt =====
-- The window credit of a read.
use lwip_amiga.Base.{
  ℕ, zero, suc, ◌+◌, ◌-◌, ◌<◌, ◌≤◌, ◌≡◌, refl, ◌∙◌, some, List, [], ◌∷◌, ◌++◌, length, arith,
}
use lwip_amiga.Sock.State.{Chain, Opener}
use lwip_amiga.Io.Drain.{
  Progress, drain_loop, chunks, take_next, take_part, take_run, drain_turn, drain_step, whole_run,
  flush_credit,
}
use lwip_amiga.Io.Loop.{drain_induct}
use lwip_amiga.Io.Sound.{sum, Sound, drain_step-turn}

-- A credit that `tcp_recved` takes: a u16, and not nothing.
abbrev pub AreCredits : List ℕ → Type 0
AreCredits [] = Unit {0}
AreCredits (c ∷ cs) = (0 < c) × (c ≤ 0xFFFF) × AreCredits cs

sum-append : (xs ys : List ℕ) → sum (xs ++ ys) ≡ sum xs + sum ys
sum-append [] ys = omega arith
sum-append (x ∷ xs) ys = omega (arith, sum-append xs ys)

AreCredits-append : (xs ys : List ℕ) → AreCredits xs → AreCredits ys → AreCredits (xs ++ ys)
AreCredits-append [] ys h g = g
AreCredits-append (x ∷ xs) ys h g = (h.0, h.1, AreCredits-append xs ys h.2 g)

chunks-sum : (fuel n : ℕ) → n ≤ fuel → sum (chunks fuel n) ≡ n
unfolding chunks
chunks-sum zero n h = omega arith
chunks-sum (suc fuel) n h = ground (arith, chunks-sum fuel (n - 0xFFFF))

chunks-AreCredits : (fuel n : ℕ) → AreCredits (chunks fuel n)
unfolding chunks
chunks-AreCredits zero n = tt
chunks-AreCredits (suc fuel) n = ground (arith, chunks-AreCredits fuel (n - 0xFFFF))

-- Between the passes: no credit is due, and those given are credits.
pub record Settled (rest : ℕ) (d : Progress) : Type 0 where
  pub sound : Sound rest d
  pub credits : AreCredits d.credits
  pub none_due : d.acked ≡ 0

pub flush_credit-Settled :
    (rest : ℕ) (d : Progress) → Sound rest d → AreCredits d.credits → Settled rest (flush_credit d)
unfolding flush_credit
flush_credit-Settled rest d s h = record {
  sound = record {
    pbufs = s.pbufs;
    counted = s.counted;
    copies = s.copies;
    room = s.room;
    most = ground (arith, s.most, sum-append d.credits (chunks d.acked d.acked), all);
    paid = λ y. ground (arith, s.paid y, sum-append d.credits (chunks d.acked d.acked), all);
  };
  credits = ground (
    arith,
    h,
    AreCredits-append d.credits (chunks d.acked d.acked) h (chunks-AreCredits d.acked d.acked),
  );
  none_due = refl;
}
  where
    all : sum (chunks d.acked d.acked) ≡ d.acked
    all = chunks-sum d.acked d.acked (omega arith)

take_next-credits :
    (openers : List Opener) (room : ℕ) (h : List ℕ) (q : Chain) (run : Chain × Chain) (d : Progress)
    → (take_next openers room h q run d).credits ≡ d.credits
unfolding take_next take_part take_run
take_next-credits openers room h q ([], r) d = refl
take_next-credits openers room h q (p ∷ run, r) d = refl

drain_turn-credits :
    (openers : List Opener) (room : ℕ) (q : Chain) (d e : Progress)
    → drain_turn openers room q d ≡ some e
    → e.credits ≡ d.credits
unfolding drain_turn
drain_turn-credits openers room [] d e t = absurd (cc t)
drain_turn-credits openers room (h ∷ q) d e t =
    cc (t, take_next-credits openers room h q (whole_run room 0 (h ∷ q)) d)

drain_step-credits :
    (openers : List Opener) (lim : ℕ) (d e : Progress)
    → drain_step openers lim d ≡ some e
    → e.credits ≡ d.credits
drain_step-credits openers lim d e h =
    drain_turn-credits openers (lim - length d.out) d.sock.rxq d e
      (drain_step-turn openers lim d e h)

pub drain_loop-credits :
    (fuel : ℕ) (openers : List Opener) (lim : ℕ) (d : Progress)
    → (drain_loop fuel openers lim d).credits ≡ d.credits
drain_loop-credits fuel openers lim d =
    drain_induct (λ e. e.credits ≡ d.credits) fuel openers lim
      (λ e f h c. drain_step-credits openers lim e f h ∙ c) d refl
