-- ===== src/Io/Quiet.antt =====
-- The drain loop with no callback while it copies.
use lwip_amiga.Base.{
  ℕ, ◌+◌, ◌-◌, ◌<◌, ◌≤◌, ◌≡◌, inl, inr, refl, ap, sym, ◌∙◌, true, false, some, List, [], ◌∷◌, ◌++◌,
  length, take, drop, length-append, append_assoc, arith, u32_mod,
}
use lwip_amiga.Sock.State.{Chain, Socket, Opener}
use lwip_amiga.Sock.Recv.{chain_len}
use lwip_amiga.Sock.Recv.Stream.{bytes}
use lwip_amiga.Io.{hear}
use lwip_amiga.Io.Drain.{
  Progress, at_mark, whole_run, consume, take_part, take_run, next_copy, take_next, drain_turn,
  drain_step, drain_loop,
}
use lwip_amiga.Io.Heard.{IsPbufs}
use lwip_amiga.Io.Conserves.{take_part-bytes, whole_run-bytes}
use lwip_amiga.Io.Loop.{drain_induct}
use lwip_amiga.Io.Sound.{
  Sound, IsRun, whole_run-IsRun, whole_run-nothing, length-take, drain_step-turn, drain_step-Sound,
  out-longer,
}

-- What a drain up to `lim`, from `o` on, has done: the bytes moved in order, and the mark with them.
pub record Quiet (lim : ℕ) (o d : Progress) : Type 0 where
  pub copies : d.copies ≡ []
  pub stream : d.out ++ bytes d.sock.rxq ≡ o.out ++ bytes o.sock.rxq
  pub below : length d.out ≤ lim
  pub state : d.sock.oob_state ≡ o.sock.oob_state
  pub mark :
      at_mark o.sock.oob_state ≡ true
      → d.sock.oob_mark_dist + length d.out ≡ o.sock.oob_mark_dist + length o.out
  pub unmarked : at_mark o.sock.oob_state ≡ false → d.sock.oob_mark_dist ≡ o.sock.oob_mark_dist

-- The mark is no nearer than the limit.
abbrev pub Clamped : ℕ → Progress → Type 0
Clamped lim o =
    at_mark o.sock.oob_state ≡ true
    → (lim ≤ o.sock.oob_mark_dist + length o.out) × (o.sock.oob_mark_dist + length o.out < u32_mod)

drain_step-lt :
    (openers : List Opener) (lim : ℕ) (d e : Progress)
    → drain_step openers lim d ≡ some e
    → length d.out < lim
unfolding drain_step
drain_step-lt openers lim d e h = ground arith

module _ (lim : ℕ) (o : Progress) (clamped : Clamped lim o) where
  consume-mark :
      (s : Socket) (n m : ℕ) (q : Chain)
      → s.oob_state ≡ o.sock.oob_state
      → (at_mark o.sock.oob_state ≡ true
          → s.oob_mark_dist + m ≡ o.sock.oob_mark_dist + length o.out)
      → m + n ≤ lim
      → at_mark o.sock.oob_state ≡ true
      → (consume s n q).oob_mark_dist + (m + n) ≡ o.sock.oob_mark_dist + length o.out
  unfolding consume
  consume-mark s n m q e k b y = ground (arith, ap at_mark e, k y, clamped y)

  consume-unmarked :
      (s : Socket) (n : ℕ) (q : Chain)
      → s.oob_state ≡ o.sock.oob_state
      → (at_mark o.sock.oob_state ≡ false → s.oob_mark_dist ≡ o.sock.oob_mark_dist)
      → at_mark o.sock.oob_state ≡ false
      → (consume s n q).oob_mark_dist ≡ o.sock.oob_mark_dist
  unfolding consume
  consume-unmarked s n q e k y = ground (arith, ap at_mark e, k y)

  take_part-Quiet :
      (h : List ℕ) (q : Chain) (d : Progress)
      → d.sock.rxq ≡ h ∷ q
      → lim - length d.out < length h
      → Quiet lim o d
      → Quiet lim o (take_part (lim - length d.out) h q d)
  unfolding take_part consume
  take_part-Quiet h q d e b s = record {
    copies = s.copies;
    stream = take_part-bytes (lim - length d.out) h q d e ∙ s.stream;
    below = omega (arith, long, s.below);
    state = s.state;
    mark = λ y. omega (
      arith,
      long,
      consume-mark d.sock n (length d.out) (drop n h ∷ q) s.state s.mark (omega (arith, s.below)) y,
    );
    unmarked =
        consume-unmarked d.sock (lim - length d.out) (drop (lim - length d.out) h ∷ q) s.state
          s.unmarked;
  }
    where
      n : ℕ
      n = lim - length d.out

      long : length (d.out ++ take n h) ≡ length d.out + n
      long = omega (arith, length-append d.out (take n h), length-take n h (omega arith))

  take_run-Quiet :
      (openers : List Opener) (run q : Chain) (d : Progress)
      → bytes run ++ bytes q ≡ bytes d.sock.rxq
      → length d.out + chain_len run ≤ lim
      → Quiet lim o d
      → Quiet lim o (take_run openers run q d)
  unfolding take_run
  take_run-Quiet openers run q d e b s =
      let c = consume d.sock (chain_len run) q in
      let still : hear openers c (next_copy d.copies).0 ≡ c =
        ap (λ x. hear openers c (next_copy x).0) s.copies in
      rw still record {
        copies = ap (λ x. (next_copy x).1) s.copies;
        stream = append_assoc d.out (bytes run) (bytes q) ∙ ap (◌++◌ d.out) e ∙ s.stream;
        below = omega (arith, out-longer run d.out, b);
        state = s.state;
        mark = λ y. omega (
          arith,
          out-longer run d.out,
          consume-mark d.sock (chain_len run) (length d.out) q s.state s.mark b y,
        );
        unmarked = consume-unmarked d.sock (chain_len run) q s.state s.unmarked;
      }

  take_next-Quiet :
      (openers : List Opener) (h : List ℕ) (q : Chain) (run : Chain × Chain) (d : Progress)
      → d.sock.rxq ≡ h ∷ q
      → length d.out < lim
      → IsPbufs (h ∷ q)
      → whole_run (lim - length d.out) 0 (h ∷ q) ≡ run
      → Quiet lim o d
      → Quiet lim o (take_next openers (lim - length d.out) h q run d)
  unfolding take_next
  take_next-Quiet openers h q ([], r) d e b p f s =
      take_part-Quiet h q d e (whole_run-nothing (lim - length d.out) h q r p.0 f) s
  take_next-Quiet openers h q (x ∷ run, r) d e b p f s =
      let w : IsRun (lim - length d.out) 0 (h ∷ q) (x ∷ run, r) =
        rw f at (whole_run-IsRun (lim - length d.out) 0 (h ∷ q)) in
      let all = whole_run-bytes (lim - length d.out) 0 (h ∷ q) in
      let same : bytes (x ∷ run) ++ bytes r ≡ bytes (h ∷ q) = rw f at all in
      take_run-Quiet openers (x ∷ run) r d (same ∙ ap bytes (sym e))
        (elim w.fits [ inl n ↦ absurd (cc n) | inr n ↦ omega arith ]) s

  drain_turn-Quiet :
      (openers : List Opener) (q : Chain) (d e : Progress)
      → d.sock.rxq ≡ q
      → length d.out < lim
      → IsPbufs d.sock.rxq
      → drain_turn openers (lim - length d.out) q d ≡ some e
      → Quiet lim o d
      → Quiet lim o e
  unfolding drain_turn
  drain_turn-Quiet openers [] d e s b p t w = absurd (cc t)
  drain_turn-Quiet openers (h ∷ q) d e s b p t w =
      let run = whole_run (lim - length d.out) 0 (h ∷ q) in
      let p' : IsPbufs (h ∷ q) = rw s at p in
      let c = take_next-Quiet openers h q run d s b p' refl w in
      let same : take_next openers (lim - length d.out) h q run d ≡ e = cc t in rw same at c

  pub drain_loop-Quiet :
      (rest fuel : ℕ) (openers : List Opener) (d : Progress)
      → Sound rest d
      → Quiet lim o d
      → Quiet lim o (drain_loop fuel openers lim d)
  drain_loop-Quiet rest fuel openers d s w =
      (drain_induct (λ e. Sound rest e × Quiet lim o e) fuel openers lim
        (λ e f h x. (
          drain_step-Sound rest openers lim e f h x.0,
          drain_turn-Quiet openers e.sock.rxq e f refl (drain_step-lt openers lim e f h) x.0.pbufs
              (drain_step-turn openers lim e f h) x.1,
        ))
        d (s, w)).1
