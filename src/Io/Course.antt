-- ===== src/Io/Course.antt =====
-- What a read meets of its schedule, and in what order.
use lwip_amiga.Base.{ℕ, zero, suc, ◌≡◌, ◌⊎◌, inl, inr, sym, List, [], ◌∷◌, ◌++◌, append_assoc}
use lwip_amiga.Sock.State.{Opener}
use lwip_amiga.Sock.Callbacks.{Callback}
use lwip_amiga.Io.{Pause}
use lwip_amiga.Io.Drain.{Mode, Progress}
use lwip_amiga.Io.Read.{Read, woken, turn}
use lwip_amiga.Io.Conserves.{flat}

-- Callbacks in the order in which they were met: those of copies and of pauses, each in its turn.
pub data Merged : List (List Callback) → List Pause → List Callback → Type 0 where
  done : Merged [] [] []
  copied :
      {cs : List (List Callback)} {ws : List Pause} {met : List Callback}
      → (c : List Callback) → Merged cs ws met
      → Merged (c ∷ cs) ws (c ++ met)
  waited :
      {cs : List (List Callback)} {ws : List Pause} {met : List Callback}
      → (w : Pause) → Merged cs ws met
      → Merged cs (w ∷ ws) (w.heard ++ met)

Merged-cast :
    (cs : List (List Callback)) (ws : List Pause) (met met' : List Callback)
    → met ≡ met'
    → Merged cs ws met
    → Merged cs ws met'
Merged-cast cs ws met met' e h = rw (← e) h

pub Merged-flat :
    (cs ds : List (List Callback)) (ws : List Pause) (met : List Callback)
    → Merged ds ws met
    → Merged (cs ++ ds) ws (flat cs ++ met)
Merged-flat [] ds ws met h = h
Merged-flat (c ∷ cs) ds ws met h =
    Merged-cast (c ∷ (cs ++ ds)) ws (c ++ (flat cs ++ met)) ((c ++ flat cs) ++ met)
      (sym (append_assoc c (flat cs) met)) (copied c (Merged-flat cs ds ws met h))

pub copies-Merged : (cs : List (List Callback)) → Merged cs [] (flat cs)
copies-Merged [] = done
copies-Merged (c ∷ cs) = copied c (copies-Merged cs)

-- The pauses that a read goes through: each before which a turn neither ends the read, nor the pause
-- before it was cut short.
abbrev pub after_sleep : ℕ → Progress → (Progress → List Pause) → List Pause
after_sleep zero d rest = rest d
after_sleep (suc v) d rest = []

abbrev pub sleeps : List Opener → Pause → (Progress → List Pause) → Read ⊎ Progress → List Pause
sleeps openers w rest (inl r) = []
sleeps openers w rest (inr e) = w ∷ after_sleep w.verdict (woken openers w e) rest

abbrev pub slept : List Opener → Mode → ℕ → List Pause → Progress → List Pause
slept openers k len [] d = []
slept openers k len (w ∷ ws) d = sleeps openers w (slept openers k len ws) (turn openers k len d)
