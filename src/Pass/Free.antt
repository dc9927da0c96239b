-- ===== src/Pass/Free.antt =====
-- The balance under `sb_sock_free`, with the sockets that a listener leaves.
use lwip_amiga.Base.{
  ℕ, suc, ◌+◌, ◌-◌, ◌%◌, ◌^◌, ◌<◌, ◌≤◌, ◌≡◌, inl, inr, refl, ap, ◌∙◌, true, none, some, List, [],
  ◌∷◌, ◌==◌, ◌!=◌, arith, Bool-cases, Option-cases, ==→eq,
}
use lwip_amiga.Sock.State.{Socket}
use lwip_amiga.Sock.Owners.{owner_decref}
use lwip_amiga.Sock.Accept.{Store, live, put, drop_ref, drop_queue, sock_free}
use lwip_amiga.Pass.Count.{one, in_queue, queued}
use lwip_amiga.Pass.Balance.{
  Counted, Balanced, Counted-eq, Sub, Sub-refl, Sub-trans, put-Keeps, put-Balanced, live-put,
  queued-put,
}

-- The sockets of a queue leave no queue of their own.
abbrev pub Leaves : Store → List ℕ → Type 0
Leaves st [] = Unit {0}
Leaves st (q ∷ qs) = ((s : Socket) → live st q ≡ some s → s.acceptq ≡ []) × Leaves st qs

abbrev pub Flat : Store → Type 0
Flat st = (l : ℕ) (s : Socket) → live st l ≡ some s → Leaves st s.acceptq

Leaves-Sub : (st st' : Store) (qs : List ℕ) → Sub st' st → Leaves st qs → Leaves st' qs
Leaves-Sub st st' [] h g = tt
Leaves-Sub st st' (q ∷ qs) h g =
    (λ s e. let (s0, e0, q0) = h q s e in q0 ∙ g.0 s0 e0, Leaves-Sub st st' qs h g.1)

pub Flat-Sub : (st st' : Store) → Sub st' st → Flat st → Flat st'
Flat-Sub st st' h g l s e =
    let (s0, e0, q0) = h l s e in rw q0 (Leaves-Sub st st' s0.acceptq h (g l s0 e0))

put-none-Sub : (st : Store) (a : ℕ) (s : Socket) → live st a ≡ some s → Sub (put st a none) st
put-none-Sub st a s e c t f = elim (Bool-cases (a == c)) [
  | inl z ↦ absurd (ground (arith, z, f, live-put st a s none c e))
  | inr z ↦ (t, ground (arith, z, f, live-put st a s none c e), refl)
]

-- What is left of the references `n` to be dropped, when one to `a` is.
abbrev Dropped : Store → ℕ → (ℕ → ℕ) → Store × List ℕ → Type 0
Dropped st a m r =
    Balanced r.0 (λ c. queued c r.0.socks + in_queue c r.1 + m c)
    × (r.0.openers ≡ st.openers)
    × Sub r.0 st
    × (Flat st → Leaves r.0 r.1)
    × (Leaves st (a ∷ []) → r.1 ≡ [])
    × ((c : ℕ) → queued c r.0.socks + in_queue c r.1 ≤ queued c st.socks)

kept-Dropped :
    (st : Store) (b a left : ℕ) (s : Socket) (m : ℕ → ℕ)
    → live st a ≡ some s
    → Balanced st (λ c. queued c st.socks + m c + one c a)
    → suc left ≡ s.refs
    → 0 < left
    → Dropped st a m
        (put st a (some (record s { owners = owner_decref s.owners b; refs = left })), [])
kept-Dropped st b a left s m e h l p =
    let s' = record s { owners = owner_decref s.owners b; refs = left } in
    let k = put-Keeps st a s s' e refl in
    let old : Counted (some s) (queued a st.socks + m a + one a a) = rw e at (h a) in
    let self : one a a ≡ 1 = ground arith in
    let same = k.1 a in
    (
      put-Balanced st a s (some s') (λ c. queued c st.socks + m c + one c a)
          (λ c. queued c (put st a (some s')).socks + 0 + m c) e h
          (
            omega (arith, old.0, same, self),
            omega (arith, old.0, same, self),
            omega (arith, old.2, same, self),
          )
          (λ c z. ground (arith, z, k.1 c)),
      refl,
      k.2,
      λ f. tt,
      λ f. refl,
      λ c. omega (arith, k.1 c),
    )

gone-Dropped :
    (st : Store) (a : ℕ) (s : Socket) (m : ℕ → ℕ)
    → live st a ≡ some s
    → Balanced st (λ c. queued c st.socks + m c + one c a)
    → s.refs ≡ 1
    → Dropped st a m (put st a none, s.acceptq)
gone-Dropped st a s m e h l =
    let old : Counted (some s) (queued a st.socks + m a + one a a) = rw e at (h a) in
    let self : one a a ≡ 1 = ground arith in
    let sub = put-none-Sub st a s e in
    (
      put-Balanced st a s none (λ c. queued c st.socks + m c + one c a)
          (λ c. queued c (put st a none).socks + in_queue c s.acceptq + m c) e h
          (omega (arith, old.0, self, l, queued-put a st a s none e))
          (λ c z. ground (arith, z, queued-put c st a s none e)),
      refl,
      sub,
      λ f. Leaves-Sub st (put st a none) s.acceptq sub (f a s e),
      λ f. f.0 s e,
      λ c. omega (arith, queued-put c st a s none e),
    )

drop_ref_kept :
    (st : Store) (b a left : ℕ) (s : Socket)
    → live st a ≡ some s
    → suc left ≡ s.refs
    → 0 < left
    → s.refs < 2 ^ 8
    → drop_ref st b a
      ≡ (put st a (some (record s { owners = owner_decref s.owners b; refs = left })), [])
unfolding drop_ref
drop_ref_kept st b a left s e l p h =
    let now : (s.refs + 2 ^ 8 - 1) % 2 ^ 8 ≡ left = omega arith in
    let more : (left != 0) ≡ true = ground arith in ground (arith, e, now, more)

drop_ref_gone :
    (st : Store) (b a : ℕ) (s : Socket)
    → live st a ≡ some s
    → s.refs ≡ 1
    → drop_ref st b a ≡ (put st a none, s.acceptq)
unfolding drop_ref
drop_ref_gone st b a s e l =
    let now : (s.refs + 2 ^ 8 - 1) % 2 ^ 8 ≡ 0 = omega arith in ground (arith, e, now)

drop_ref-Dropped :
    (st : Store) (b a : ℕ) (m : ℕ → ℕ)
    → Balanced st (λ c. queued c st.socks + m c + one c a)
    → Dropped st a m (drop_ref st b a)
drop_ref-Dropped st b a m h =
    let self : one a a ≡ 1 = ground arith in
    elim (Option-cases (live st a)) [
      | inl n ↦
          let none_left : queued a st.socks + m a + one a a ≡ 0 = rw n at (h a) in
          absurd (omega arith)
      | inr (s, e) ↦
          let old : Counted (some s) (queued a st.socks + m a + one a a) = rw e at (h a) in
          elim (Bool-cases (s.refs == 1)) [
            | inl z ↦
                let last = ==→eq s.refs 1 z in
                rw (drop_ref_gone st b a s e last) (gone-Dropped st a s m e h last)
            | inr z ↦
                let more : 0 < s.refs - 1 = ground (arith, z, old) in
                let is : suc (s.refs - 1) ≡ s.refs = omega arith in
                let small : s.refs < 2 ^ 8 = omega (arith, old.0, old.2) in
                rw (drop_ref_kept st b a (s.refs - 1) s e is more small)
                  (kept-Dropped st b a (s.refs - 1) s m e h is more)
          ]
    ]

-- What a freeing that consumes references leaves.
abbrev pub Freed : Store → (ℕ → ℕ) → Store → Type 0
Freed st m st' =
    Balanced st' (λ c. queued c st'.socks + m c)
    × (st'.openers ≡ st.openers)
    × Sub st' st
    × ((c : ℕ) → queued c st'.socks ≤ queued c st.socks)

drop_queue-Freed :
    (st : Store) (root : ℕ) (qs : List ℕ) (m : ℕ → ℕ)
    → Balanced st (λ c. queued c st.socks + in_queue c qs + m c)
    → Leaves st qs
    → Freed st m (drop_queue st root qs)
unfolding drop_queue
drop_queue-Freed st root [] m h g =
    (λ c. Counted-eq (live st c) _ _ (omega arith) (h c), refl, Sub-refl st, λ c. omega arith)
drop_queue-Freed st root (q ∷ qs) m h g =
    let r = drop_ref st root q in
    let (bal, tables, sub, flat, none_left, fewer) =
      drop_ref-Dropped st root q (λ c. in_queue c qs + m c)
        (λ c. Counted-eq (live st c) _ _ (omega arith) (h c)) in
    let empty : r.1 ≡ [] = none_left (g.0, tt) in
    let (bal', tables', sub', fewer') =
      drop_queue-Freed r.0 root qs m
        (λ c. Counted-eq (live r.0 c) _ _ (omega (arith, ap (in_queue c) empty)) (bal c))
        (Leaves-Sub st r.0 qs sub g.1) in
    (
      bal',
      tables' ∙ tables,
      Sub-trans st r.0 (drop_queue r.0 root qs) sub' sub,
      λ c. omega (arith, fewer c, fewer' c),
    )

-- Freeing takes one reference to the socket, and all that the queue of a listener that goes holds.
pub sock_free-Freed :
    (root : ℕ) (st : Store) (b a : ℕ) (m : ℕ → ℕ)
    → Flat st
    → Balanced st (λ c. queued c st.socks + m c + one c a)
    → Freed st m (sock_free root st b a)
unfolding sock_free
sock_free-Freed root st b a m f h =
    let r = drop_ref st b a in
    let (bal, tables, sub, flat, none_left, fewer) = drop_ref-Dropped st b a m h in
    let (bal', tables', sub', fewer') = drop_queue-Freed r.0 root r.1 m bal (flat f) in
    (
      bal',
      tables' ∙ tables,
      Sub-trans st r.0 (drop_queue r.0 root r.1) sub' sub,
      λ c. omega (arith, fewer c, fewer' c),
    )
