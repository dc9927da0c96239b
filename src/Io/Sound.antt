-- ===== src/Io/Sound.antt =====
-- The accounts of a read while it drains: the queue's byte count, and the window credit.
use lwip_amiga.Base.{
  ℕ, zero, suc, ◌+◌, ◌-◌, ◌<◌, ◌≤◌, ◌≡◌, ◌⊎◌, inl, inr, refl, ap, sym, ◌∙◌, true, ◌&&◌, some, List,
  [], ◌∷◌, ◌++◌, leb, ltb, length, take, drop, length-append, arith, u32_mod, Bool-cases,
}
use lwip_amiga.Sock.State.{Chain, Socket, Opener}
use lwip_amiga.Sock.Recv.{chain_len}
use lwip_amiga.Sock.Recv.Stream.{IsCounted, bytes, length-bytes}
use lwip_amiga.Sock.Callbacks.{Callback}
use lwip_amiga.Io.Drain.{
  Progress, whole_run, consume, take_part, take_run, next_copy, take_next, drain_turn, drain_step,
  drain_loop,
}
use lwip_amiga.Io.Heard.{IsPbufs, volume, AreDeliveries, hear-Next}
use lwip_amiga.Io.Loop.{drain_induct}

abbrev pub volume_all : List (List Callback) → ℕ
volume_all [] = 0
volume_all (c ∷ cs) = volume c + volume_all cs

abbrev pub AreAllDeliveries : List (List Callback) → Type 0
AreAllDeliveries [] = Unit {0}
AreAllDeliveries (c ∷ cs) = AreDeliveries c × AreAllDeliveries cs

abbrev pub sum : List ℕ → ℕ
sum [] = 0
sum (x ∷ xs) = x + sum xs

-- The accounts, with room for `rest` more bytes in the counters.
pub record Sound (rest : ℕ) (d : Progress) : Type 0 where
  pub pbufs : IsPbufs d.sock.rxq
  pub counted : IsCounted d.sock
  pub copies : AreAllDeliveries d.copies
  pub room : chain_len d.sock.rxq + volume_all d.copies + rest < u32_mod
  pub most : sum d.credits + d.acked ≤ length d.out
  pub paid : d.sock.pcb ≡ true → sum d.credits + d.acked ≡ length d.out

pub length-drop : (n : ℕ) (xs : List ℕ) → length (drop n xs) ≡ length xs - n
length-drop zero xs = omega arith
length-drop (suc n) [] = omega arith
length-drop (suc n) (x ∷ xs) = omega (arith, length-drop n xs)

pub length-take : (n : ℕ) (xs : List ℕ) → n ≤ length xs → length (take n xs) ≡ n
length-take zero xs h = refl
length-take (suc n) [] h = absurd (omega arith)
length-take (suc n) (x ∷ xs) h = ap suc (length-take n xs (omega arith))

-- What a detached run is: it fits, and it and the rest make up the queue.
pub record IsRun (room so_far : ℕ) (q : Chain) (run : Chain × Chain) : Type 0 where
  pub split : chain_len run.0 + chain_len run.1 ≡ chain_len q
  pub fits : run.0 ≡ [] ⊎ (so_far + chain_len run.0 ≤ room)
  pub rest : IsPbufs q → IsPbufs run.1
  pub count : length run.0 + length run.1 ≡ length q

pub whole_run-IsRun : (room n : ℕ) (q : Chain) → IsRun room n q (whole_run room n q)
unfolding whole_run
whole_run-IsRun room n [] = record {
  split = omega arith;
  fits = inl refl;
  rest = λ h. h;
  count = omega arith;
}
whole_run-IsRun room n (h ∷ q) =
    let r = whole_run-IsRun room (n + length h) q in
    elim (Bool-cases (leb (n + length h) room && leb (n + length h) 0xFFFF)) [
      | inl y ↦ rw y record {
        split = omega (arith, r.split);
        fits = inr (fits (whole_run room (n + length h) q).0 r.fits y);
        rest = λ p. r.rest p.1;
        count = omega (arith, r.count);
      }
      | inr y ↦
          rw y record { split = omega arith; fits = inl refl; rest = λ p. p; count = omega arith }
    ]
  where
    fits :
        (r : Chain)
        → (r ≡ []) ⊎ (n + length h + chain_len r ≤ room)
        → (leb (n + length h) room && leb (n + length h) 0xFFFF) ≡ true
        → n + chain_len (h ∷ r) ≤ room
    fits r (inl e) y = ground (arith, e, y)
    fits r (inr e) y = omega arith

-- Where no whole pbuf fits, the head holds more than the room.
pub whole_run-nothing :
    (room : ℕ) (h : List ℕ) (q rest : Chain)
    → length h ≤ 0xFFFF
    → whole_run room 0 (h ∷ q) ≡ ([], rest)
    → room < length h
unfolding whole_run
whole_run-nothing room h q rest p e = ground (arith, e)

pub drain_step-turn :
    (openers : List Opener) (lim : ℕ) (d e : Progress)
    → drain_step openers lim d ≡ some e
    → drain_turn openers (lim - length d.out) d.sock.rxq d ≡ some e
unfolding drain_step
drain_step-turn openers lim d e h = elim (Bool-cases (ltb (length d.out) lim)) [
  | inl y ↦ ground arith
  | inr y ↦ absurd (ground arith)
]

pub out-longer :
    (run : Chain) (out : List ℕ) → length (out ++ bytes run) ≡ length out + chain_len run
out-longer run out = omega (arith, length-append out (bytes run), length-bytes run)

module _ (rest : ℕ) where
  take_part-Sound :
      (n : ℕ) (h : List ℕ) (q : Chain) (d : Progress)
      → d.sock.rxq ≡ h ∷ q
      → n < length h
      → Sound rest d
      → Sound rest (take_part n h q d)
  unfolding take_part consume
  take_part-Sound n h q d e b s =
      let p : IsPbufs (h ∷ q) = rw e at s.pbufs in
      let c : d.sock.rx_bytes ≡ length h + chain_len q = s.counted ∙ ap chain_len e in
      let r : chain_len d.sock.rxq ≡ length h + chain_len q = ap chain_len e in
      record {
        pbufs = (omega (arith, p.0, length-drop n h), p.1);
        counted = omega (arith, c, s.room, r, length-drop n h);
        copies = s.copies;
        room = omega (arith, s.room, r, length-drop n h);
        most = omega (arith, s.most, length-append d.out (take n h), length-take n h (omega arith));
        paid = λ y.
            omega (arith, s.paid y, length-append d.out (take n h), length-take n h (omega arith));
      }

  consume-IsCounted :
      (s : Socket) (n : ℕ) (q : Chain)
      → IsCounted s
      → n + chain_len q ≡ chain_len s.rxq
      → chain_len s.rxq < u32_mod
      → IsCounted (consume s n q)
  unfolding consume
  consume-IsCounted s n q c e b = omega (arith, c)

  next_copy-AreAllDeliveries :
      (cs : List (List Callback))
      → AreAllDeliveries cs
      → AreDeliveries (next_copy cs).0
        × AreAllDeliveries (next_copy cs).1
        × (volume (next_copy cs).0 + volume_all (next_copy cs).1 ≡ volume_all cs)
  next_copy-AreAllDeliveries [] h = (tt, tt, refl)
  next_copy-AreAllDeliveries (c ∷ cs) h = (h.0, h.1, refl)

  take_run-Sound :
      (openers : List Opener) (run q : Chain) (d : Progress)
      → chain_len run + chain_len q ≡ chain_len d.sock.rxq
      → IsPbufs q
      → Sound rest d
      → Sound rest (take_run openers run q d)
  unfolding take_run consume
  take_run-Sound openers run q d e p s =
      let (h, hs, v) = next_copy-AreAllDeliveries d.copies s.copies in
      let c = consume d.sock (chain_len run) q in
      let n =
        hear-Next openers c (next_copy d.copies).0 p
          (consume-IsCounted d.sock (chain_len run) q s.counted e (omega (arith, s.room))) h
          (omega (arith, s.room)) in
      let len = out-longer run d.out in
      record {
        pbufs = n.pbufs;
        counted = n.counted;
        copies = hs;
        room = omega (arith, s.room, n.grown);
        most = omega (arith, s.most, len);
        paid = λ y. omega (arith, s.paid (n.pcb y), len);
      }

  take_next-Sound :
      (openers : List Opener) (room : ℕ) (h : List ℕ) (q : Chain) (run : Chain × Chain)
      (d : Progress)
      → d.sock.rxq ≡ h ∷ q
      → whole_run room 0 (h ∷ q) ≡ run
      → Sound rest d
      → Sound rest (take_next openers room h q run d)
  unfolding take_next
  take_next-Sound openers room h q ([], r) d e f s =
      let p : IsPbufs (h ∷ q) = rw e at s.pbufs in
      take_part-Sound room h q d e (whole_run-nothing room h q r p.0 f) s
  take_next-Sound openers room h q (p ∷ run, r) d e f s =
      let w : IsRun room 0 (h ∷ q) (p ∷ run, r) = rw f at (whole_run-IsRun room 0 (h ∷ q)) in
      let b : IsPbufs (h ∷ q) = rw e at s.pbufs in
      take_run-Sound openers (p ∷ run) r d (w.split ∙ ap chain_len (sym e)) (w.rest b) s

  drain_turn-Sound :
      (openers : List Opener) (room : ℕ) (q : Chain) (d e : Progress)
      → d.sock.rxq ≡ q
      → drain_turn openers room q d ≡ some e
      → Sound rest d
      → Sound rest e
  unfolding drain_turn
  drain_turn-Sound openers room [] d e s t h = absurd (cc t)
  drain_turn-Sound openers room (h ∷ q) d e s t w =
      let run = whole_run room 0 (h ∷ q) in
      let c = take_next-Sound openers room h q run d s refl w in
      let same : take_next openers room h q run d ≡ e = cc t in rw same at c

  pub drain_step-Sound :
      (openers : List Opener) (lim : ℕ) (d e : Progress)
      → drain_step openers lim d ≡ some e
      → Sound rest d
      → Sound rest e
  drain_step-Sound openers lim d e h s =
      drain_turn-Sound openers (lim - length d.out) d.sock.rxq d e refl
        (drain_step-turn openers lim d e h) s

  pub drain_loop-Sound :
      (fuel : ℕ) (openers : List Opener) (lim : ℕ) (d : Progress)
      → Sound rest d
      → Sound rest (drain_loop fuel openers lim d)
  drain_loop-Sound fuel openers lim =
      drain_induct (Sound rest) fuel openers lim (drain_step-Sound openers lim)
