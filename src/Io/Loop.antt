-- ===== src/Io/Loop.antt =====
-- The induction principles of a read's loops.
use lwip_amiga.Base.{
  ℕ, zero, suc, ◌≡◌, ◌⊎◌, inl, inr, none, some, List, [], ◌∷◌, arith, Option-cases,
}
use lwip_amiga.Sock.State.{Opener}
use lwip_amiga.Io.{Pause, asleep}
use lwip_amiga.Io.Drain.{Mode, Progress, drain_step, drain_loop}
use lwip_amiga.Io.Read.{Read, ends, or_copied, turn, woken, after_wait, settle, recv_loop}

pub drain_none :
    (fuel : ℕ) (openers : List Opener) (lim : ℕ) (d : Progress)
    → drain_step openers lim d ≡ none
    → drain_loop (suc fuel) openers lim d ≡ d
unfolding drain_loop
drain_none fuel openers lim d h = ground arith

pub drain_some :
    (fuel : ℕ) (openers : List Opener) (lim : ℕ) (d e : Progress)
    → drain_step openers lim d ≡ some e
    → drain_loop (suc fuel) openers lim d ≡ drain_loop fuel openers lim e
unfolding drain_loop
drain_some fuel openers lim d e h = ground arith

-- What a turn keeps, the loop keeps.
pub drain_induct :
    (P : Progress → Type 0) (fuel : ℕ) (openers : List Opener) (lim : ℕ)
    → ((d e : Progress) → drain_step openers lim d ≡ some e → P d → P e)
    → (d : Progress) → P d
    → P (drain_loop fuel openers lim d)
unfolding drain_loop
drain_induct P zero openers lim f d h = h
drain_induct P (suc fuel) openers lim f d h = elim (Option-cases (drain_step openers lim d)) [
  | inl n ↦ rw (drain_none fuel openers lim d n) h
  | inr (e, g) ↦
      rw (drain_some fuel openers lim d e g) (drain_induct P fuel openers lim f e (f d e g h))
]

-- A turn that ends the read with `Q`, or goes on with `P`.
abbrev pub TurnsTo : (Progress → Type 0) → (Read → Type 0) → Read ⊎ Progress → Type 0
TurnsTo P Q (inl r) = Q r
TurnsTo P Q (inr d) = P d

module _ (P : List Pause → Progress → Type 0) (Q : Read → Type 0) where
  module _ (openers : List Opener) (k : Mode) (len : ℕ)
      (turned : (ws : List Pause) (d : Progress) → P ws d → TurnsTo (P ws) Q (turn openers k len d))
      (waits : (w : Pause) (ws : List Pause) (d : Progress)
        → P (w ∷ ws) d
        → P ws (woken openers w d))
      (sleeps : (d : Progress) → P [] d → Q (ends d (asleep d.out)))
      (fails : (ws : List Pause) (d : Progress) (v : ℕ) → P ws d → Q (or_copied d v)) where
    settled-ends :
        (x : Read ⊎ Progress) → TurnsTo (P []) Q x → Q (settle x (λ e. ends e (asleep e.out)))
    settled-ends (inl r) h = h
    settled-ends (inr d) h = sleeps d h

    after :
        (ws : List Pause) (v : ℕ) (d : Progress) (rest : Progress → Read)
        → ((e : Progress) → P ws e → Q (rest e))
        → P ws d
        → Q (after_wait v d rest)
    unfolding after_wait
    after ws zero d rest f h = f d h
    after ws (suc v) d rest f h = fails ws d (suc v) h

    settled-waits :
        (w : Pause) (ws : List Pause) (rest : Progress → Read)
        → ((e : Progress) → P ws e → Q (rest e))
        → (x : Read ⊎ Progress) → TurnsTo (P (w ∷ ws)) Q x
        → Q (settle x (λ e. after_wait w.verdict (woken openers w e) rest))
    settled-waits w ws rest f (inl r) h = h
    settled-waits w ws rest f (inr d) h =
        after ws w.verdict (woken openers w d) rest f (waits w ws d h)

    -- What a turn and a wait keep, a read that starts with it ends with.
    pub recv_loop_induct :
        (ws : List Pause) (d : Progress) → P ws d → Q (recv_loop openers k len ws d)
    unfolding recv_loop
    recv_loop_induct [] d h = settled-ends (turn openers k len d) (turned [] d h)
    recv_loop_induct (w ∷ ws) d h =
        settled-waits w ws (recv_loop openers k len ws) (recv_loop_induct ws) (turn openers k len d)
          (turned (w ∷ ws) d h)
