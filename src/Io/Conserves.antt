-- ===== src/Io/Conserves.antt =====
-- The bytes of a read while it drains the queue, and the callbacks that its copies meet.
use lwip_amiga.Base.{
  ℕ, zero, suc, ◌+◌, ◌-◌, ◌≡◌, inl, inr, refl, ap, sym, ◌∙◌, some, List, [], ◌∷◌, ◌++◌, ltb, length,
  take, drop, arith, append-nil, append_assoc, Bool-cases,
}
use lwip_amiga.Sock.State.{Chain, Opener}
use lwip_amiga.Sock.Recv.{chain_len}
use lwip_amiga.Sock.Recv.Stream.{bytes}
use lwip_amiga.Sock.Callbacks.{Callback}
use lwip_amiga.Io.Drain.{
  Progress, whole_run, consume, take_part, take_run, next_copy, take_next, drain_turn, drain_step,
  drain_loop,
}
use lwip_amiga.Io.Loop.{drain_induct}
use lwip_amiga.Io.Grows.{BringAll, BringAll-append, hear-Grows}

pub whole_run-bytes :
    (room sum : ℕ) (q : Chain)
    → bytes (whole_run room sum q).0 ++ bytes (whole_run room sum q).1 ≡ bytes q
unfolding whole_run
whole_run-bytes room sum [] = refl
whole_run-bytes room sum (h ∷ q) = ground (
  arith,
  whole_run-bytes room (sum + length h) q,
  append_assoc h (bytes (whole_run room (sum + length h) q).0)
      (bytes (whole_run room (sum + length h) q).1),
)

pub take-drop : (n : ℕ) (xs : List ℕ) → take n xs ++ drop n xs ≡ xs
take-drop zero xs = refl
take-drop (suc n) [] = refl
take-drop (suc n) (x ∷ xs) = ap (◌∷◌ x) (take-drop n xs)

-- The callbacks of several copies, in their order.
abbrev pub flat : List (List Callback) → List Callback
flat [] = []
flat (c ∷ cs) = c ++ flat cs

flat-append : (cs ds : List (List Callback)) → flat (cs ++ ds) ≡ flat cs ++ flat ds
flat-append [] ds = refl
flat-append (c ∷ cs) ds = ap (◌++◌ c) (flat-append cs ds) ∙ sym (append_assoc c (flat cs) (flat ds))

pub BringAll-cast :
    (cs ds : List Callback) (xs : List ℕ) → cs ≡ ds → BringAll cs xs → BringAll ds xs
BringAll-cast cs ds xs e h = rw (← e) h

-- What a read has copied, followed by what is queued, has grown by what the callbacks of its copies
-- brought: `cs` of them, off the front of the schedule.
abbrev pub Conserves : Progress → Progress → Type 0
Conserves d e =
    (cs : List (List Callback)) × (tail : List ℕ) × (d.copies ≡ cs ++ e.copies)
    × BringAll (flat cs) tail
    × (e.out ++ bytes e.sock.rxq ≡ (d.out ++ bytes d.sock.rxq) ++ tail)

pub Conserves-refl : (d : Progress) → Conserves d d
Conserves-refl d = ([], [], refl, refl, sym (append-nil (d.out ++ bytes d.sock.rxq)))

Conserves-trans : (d e f : Progress) → Conserves d e → Conserves e f → Conserves d f
Conserves-trans d e f (cs, a, x, h, p) (ds, b, y, k, q) = (
  cs ++ ds,
  a ++ b,
  x ∙ ap (◌++◌ cs) y ∙ sym (append_assoc cs ds f.copies),
  BringAll-cast (flat cs ++ flat ds) (flat (cs ++ ds)) (a ++ b) (sym (flat-append cs ds))
      (BringAll-append (flat cs) (flat ds) a b h k),
  q ∙ ap (λ x. x ++ b) p ∙ append_assoc (d.out ++ bytes d.sock.rxq) a b,
)

-- The callbacks that the next copy meets, if the schedule has one.
next_copy-flat :
    (xs : List (List Callback))
    → (cs : List (List Callback)) × (xs ≡ cs ++ (next_copy xs).1) × ((next_copy xs).0 ≡ flat cs)
next_copy-flat [] = ([], refl, refl)
next_copy-flat (c ∷ xs) = (c ∷ [], refl, sym (append-nil c))

pub take_part-bytes :
    (n : ℕ) (h : List ℕ) (q : Chain) (d : Progress)
    → d.sock.rxq ≡ h ∷ q
    → (d.out ++ take n h) ++ (drop n h ++ bytes q) ≡ d.out ++ bytes d.sock.rxq
take_part-bytes n h q d e =
    append_assoc d.out (take n h) (drop n h ++ bytes q)
    ∙ ap (◌++◌ d.out) (
        sym (append_assoc (take n h) (drop n h) (bytes q))
        ∙ ap (λ x. x ++ bytes q) (take-drop n h)
        ∙ ap bytes (sym e))

take_part-Conserves :
    (n : ℕ) (h : List ℕ) (q : Chain) (d : Progress)
    → d.sock.rxq ≡ h ∷ q
    → Conserves d (take_part n h q d)
unfolding take_part consume
take_part-Conserves n h q d e =
    ([], [], refl, refl, take_part-bytes n h q d e ∙ sym (append-nil (d.out ++ bytes d.sock.rxq)))

take_run-Conserves :
    (openers : List Opener) (run q : Chain) (d : Progress)
    → bytes run ++ bytes q ≡ bytes d.sock.rxq
    → Conserves d (take_run openers run q d)
unfolding take_run consume
take_run-Conserves openers run q d e =
    let (cs, x, y) = next_copy-flat d.copies in
    let (a, g, f) = hear-Grows openers (consume d.sock (chain_len run) q) (next_copy d.copies).0 in
    (
      cs,
      a,
      x,
      BringAll-cast (next_copy d.copies).0 (flat cs) a y g,
      ap (◌++◌ (d.out ++ bytes run)) f
          ∙ append_assoc d.out (bytes run) (bytes q ++ a)
          ∙ ap (◌++◌ d.out) (sym (append_assoc (bytes run) (bytes q) a) ∙ ap (λ x. x ++ a) e)
          ∙ sym (append_assoc d.out (bytes d.sock.rxq) a),
    )

take_next-Conserves :
    (openers : List Opener) (room : ℕ) (h : List ℕ) (q : Chain) (run : Chain × Chain) (d : Progress)
    → d.sock.rxq ≡ h ∷ q
    → bytes run.0 ++ bytes run.1 ≡ bytes d.sock.rxq
    → Conserves d (take_next openers room h q run d)
unfolding take_next
take_next-Conserves openers room h q ([], rest) d e f = take_part-Conserves room h q d e
take_next-Conserves openers room h q (p ∷ run, rest) d e f =
    take_run-Conserves openers (p ∷ run) rest d f

drain_turn-Conserves :
    (openers : List Opener) (room : ℕ) (q : Chain) (d e : Progress)
    → d.sock.rxq ≡ q
    → drain_turn openers room q d ≡ some e
    → Conserves d e
unfolding drain_turn
drain_turn-Conserves openers room [] d e s h = absurd (cc h)
drain_turn-Conserves openers room (h ∷ q) d e s t =
    let run = whole_run room 0 (h ∷ q) in
    let c =
      take_next-Conserves openers room h q run d s
        (whole_run-bytes room 0 (h ∷ q) ∙ ap bytes (sym s)) in
    let same : take_next openers room h q run d ≡ e = cc t in rw same at c

drain_step-Conserves :
    (openers : List Opener) (lim : ℕ) (d e : Progress)
    → drain_step openers lim d ≡ some e
    → Conserves d e
unfolding drain_step
drain_step-Conserves openers lim d e h = elim (Bool-cases (ltb (length d.out) lim)) [
  | inl y ↦ drain_turn-Conserves openers (lim - length d.out) d.sock.rxq d e refl (ground arith)
  | inr y ↦ absurd (ground arith)
]

pub drain_loop-Conserves :
    (fuel : ℕ) (openers : List Opener) (lim : ℕ) (d e : Progress)
    → Conserves d e
    → Conserves d (drain_loop fuel openers lim e)
drain_loop-Conserves fuel openers lim d =
    drain_induct (Conserves d) fuel openers lim
      (λ e f s c. Conserves-trans d e f c (drain_step-Conserves openers lim e f s))
