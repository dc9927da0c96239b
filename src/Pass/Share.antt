-- ===== src/Pass/Share.antt =====
-- The balance under a reference that is taken, an owner that is counted, and a table that changes.
use lwip_amiga.Base.{
  ℕ, ◌+◌, ◌-◌, ◌%◌, ◌^◌, ◌<◌, ◌≡◌, inl, inr, refl, Option, none, some, arith, Option-cases,
}
use lwip_amiga.Sock.State.{Socket}
use lwip_amiga.Sock.Owners.{owner_incref, owner_decref, Slots}
use lwip_amiga.Sock.Accept.{Store, live, put}
use lwip_amiga.Pass.{one_more, bump_refs, with_owners, owned, own, disowned, disown, share}
use lwip_amiga.Pass.Count.{one}
use lwip_amiga.Pass.Balance.{
  Counted, Balanced, Keeps, Keeps-refl, Keeps-trans, put-Keeps, put-Balanced,
}

pub one_self : (a : ℕ) → one a a ≡ 1
one_self a = ground arith

-- A change that takes references `m` in place of `n`.
abbrev pub Moves : Store → Store → (ℕ → ℕ) → Type 0
Moves st st' m = Balanced st' m × Keeps st st'

one_more-Moves :
    (st : Store) (a : ℕ) (o : Option Socket) (n : ℕ → ℕ)
    → live st a ≡ o
    → Balanced st n
    → 0 < n a
    → n a < 2 ^ 8 - 1
    → Moves st (one_more st a o) (λ c. n c + one c a)
one_more-Moves st a none n e h p b = let k : n a ≡ 0 = rw e at (h a) in absurd (omega arith)
one_more-Moves st a (some s) n e h p b =
    let s' = record s { refs = (s.refs + 1) % 2 ^ 8 } in
    let old : Counted (some s) (n a) = rw e at (h a) in
    let new : Counted (some s') (n a + one a a) =
      rw (one_self a) (omega (arith, old.0), omega arith, omega arith) in
    (
      put-Balanced st a s (some s') n (λ c. n c + one c a) e h new (λ c z. ground (arith, z)),
      put-Keeps st a s s' e refl,
    )

pub bump_refs-Moves :
    (st : Store) (a : ℕ) (n : ℕ → ℕ)
    → Balanced st n
    → 0 < n a
    → n a < 2 ^ 8 - 1
    → Moves st (bump_refs st a) (λ c. n c + one c a)
bump_refs-Moves st a n h p b = one_more-Moves st a (live st a) n refl h p b

owners-Moves :
    (st : Store) (a : ℕ) (s : Socket) (o : Slots) (n : ℕ → ℕ)
    → live st a ≡ some s
    → Balanced st n
    → Moves st (put st a (some (record s { owners = o }))) n
owners-Moves st a s o n e h =
    let old : Counted (some s) (n a) = rw e at (h a) in
    let s' = record s { owners = o } in
    (
      put-Balanced st a s (some s') n n e h (old.0, old.1, old.2) (λ c z. refl),
      put-Keeps st a s s' e refl,
    )

with_owners-Moves :
    (st : Store) (a : ℕ) (s : Socket) (o : Option Slots) (n : ℕ → ℕ) (st' : Store)
    → live st a ≡ some s
    → Balanced st n
    → with_owners st a s o ≡ some st'
    → Moves st st' n
with_owners-Moves st a s none n st' e h f = cc
with_owners-Moves st a s (some o) n st' e h f =
    let same : put st a (some (record s { owners = o })) ≡ st' = ground (arith, f) in
    rw (← same) (owners-Moves st a s o n e h)

owned-Moves :
    (st : Store) (b a : ℕ) (o : Option Socket) (n : ℕ → ℕ) (st' : Store)
    → live st a ≡ o
    → Balanced st n
    → owned st b a o ≡ some st'
    → Moves st st' n
unfolding owned
owned-Moves st b a none n st' e h f = cc
owned-Moves st b a (some s) n st' e h f =
    with_owners-Moves st a s (owner_incref s.owners b) n st' e h f

pub own-Moves :
    (st : Store) (b a : ℕ) (n : ℕ → ℕ) (st' : Store)
    → Balanced st n
    → own st b a ≡ some st'
    → Moves st st' n
own-Moves st b a n st' h f = owned-Moves st b a (live st a) n st' refl h f

disowned-Moves :
    (st : Store) (b a : ℕ) (o : Option Socket) (n : ℕ → ℕ)
    → live st a ≡ o
    → Balanced st n
    → Moves st (disowned st b a o) n
unfolding disowned
disowned-Moves st b a none n e h = (h, Keeps-refl st)
disowned-Moves st b a (some s) n e h = owners-Moves st a s (owner_decref s.owners b) n e h

pub disown-Moves : (st : Store) (b a : ℕ) (n : ℕ → ℕ) → Balanced st n → Moves st (disown st b a) n
disown-Moves st b a n h = disowned-Moves st b a (live st a) n refl h

-- A descriptor that shares a socket is a reference more.
pub share-Moves :
    (st : Store) (b a : ℕ) (n : ℕ → ℕ)
    → Balanced st n
    → 0 < n a
    → n a < 2 ^ 8 - 1
    → Moves st (share st b a) (λ c. n c + one c a)
unfolding share
share-Moves st b a n h p k =
    let m : ℕ → ℕ = λ c. n c + one c a in
    let (h', t) = bump_refs-Moves st a n h p k in
    elim (Option-cases (own (bump_refs st a) b a)) [
      | inl f ↦ rw f (h', t)
      | inr (st', f) ↦
          let (h'', t') = own-Moves (bump_refs st a) b a m st' h' f in
          rw f (h'', Keeps-trans st (bump_refs st a) st' t t')
    ]
