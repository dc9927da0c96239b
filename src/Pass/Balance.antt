-- ===== src/Pass/Balance.antt =====
-- The balance of references and of the counts in the sockets, kept by each change of a store.
use lwip_amiga.Base.{
  ℕ, ◌+◌, ◌^◌, ◌<◌, ◌≡◌, inl, inr, refl, sym, ap, ◌∙◌, false, Option, none, some, ◌==◌,
  if◌then◌else◌, get_elem?, arith, Bool-cases, Option-cases, ==→eq,
}
use lwip_amiga.Sock.State.{Socket}
use lwip_amiga.Sock.Accept.{Store, live, put}
use lwip_amiga.Sock.Accept.Queue.{get_elem?-set, get_elem?-set_ne, live-lt}
use lwip_amiga.Pass.Count.{in_queue, queue_of, queued, queued-set}

-- A socket counts its references, which are at least one and fit a UBYTE; none refers to a name that
-- is not live.
abbrev pub Counted : Option Socket → ℕ → Type 0
Counted none n = n ≡ 0
Counted (some s) n = (s.refs ≡ n) × (0 < n) × (n < 2 ^ 8)

-- With `n c` references to the socket `c`.
abbrev pub Balanced : Store → (ℕ → ℕ) → Type 0
Balanced st n = (c : ℕ) → Counted (live st c) (n c)

pub Counted-eq : (o : Option Socket) (n m : ℕ) → n ≡ m → Counted o n → Counted o m
Counted-eq o n m e h = rw (← e) h

pub live-put :
    (st : Store) (a : ℕ) (s : Socket) (x : Option Socket) (c : ℕ)
    → live st a ≡ some s
    → live (put st a x) c ≡ (if a == c then x else live st c)
live-put st a s x c e = elim (Bool-cases (a == c)) [
  | inl z ↦
      let same = ==→eq a c z in ground (arith, z, get_elem?-set st.socks a x (live-lt st a s e))
  | inr z ↦ ground (arith, z, get_elem?-set_ne st.socks a c x)
]

elem-live :
    (st : Store) (a : ℕ) (s : Socket) → live st a ≡ some s → get_elem? st.socks a ≡ some (some s)
elem-live st a s e = elim (Option-cases (get_elem? st.socks a)) [
  | inl n ↦ absurd (ground (arith, e, n))
  | inr (x, f) ↦ ground (arith, e, f)
]

pub queued-put :
    (c : ℕ) (st : Store) (a : ℕ) (s : Socket) (x : Option Socket)
    → live st a ≡ some s
    → queued c (put st a x).socks + in_queue c s.acceptq ≡ queued c st.socks + queue_of c x
queued-put c st a s x e = queued-set c st.socks a (some s) x (elem-live st a s e)

-- What is live afterwards was live before, with the same queue.
abbrev pub Sub : Store → Store → Type 0
Sub st' st =
    (c : ℕ) (s' : Socket)
    → live st' c ≡ some s'
    → (s : Socket) × (live st c ≡ some s) × (s'.acceptq ≡ s.acceptq)

-- A change of sockets that leaves tables and queues.
abbrev pub Keeps : Store → Store → Type 0
Keeps st st' =
    (st'.openers ≡ st.openers) × ((c : ℕ) → queued c st'.socks ≡ queued c st.socks) × Sub st' st

pub Sub-refl : (st : Store) → Sub st st
Sub-refl st c s e = (s, e, refl)

pub Sub-trans : (st st' st'' : Store) → Sub st'' st' → Sub st' st → Sub st'' st
Sub-trans st st' st'' h g c s e =
    let (s', e', q') = h c s e in let (s0, e0, q0) = g c s' e' in (s0, e0, q' ∙ q0)

pub Keeps-refl : (st : Store) → Keeps st st
Keeps-refl st = (refl, λ c. refl, Sub-refl st)

pub Keeps-trans : (st st' st'' : Store) → Keeps st st' → Keeps st' st'' → Keeps st st''
Keeps-trans st st' st'' h g = (g.0 ∙ h.0, λ c. g.1 c ∙ h.1 c, Sub-trans st st' st'' g.2 h.2)

put-Sub :
    (st : Store) (a : ℕ) (s s' : Socket)
    → live st a ≡ some s
    → s'.acceptq ≡ s.acceptq
    → Sub (put st a (some s')) st
put-Sub st a s s' e q c t f = elim (Bool-cases (a == c)) [
  | inl z ↦
      let same = ==→eq a c z in
      let it : some s' ≡ some t = ground (arith, z, f, live-put st a s (some s') c e) in
      (s, rw (← same) e, ground (arith, it, q))
  | inr z ↦ (t, ground (arith, z, f, live-put st a s (some s') c e), refl)
]

pub put-Keeps :
    (st : Store) (a : ℕ) (s s' : Socket)
    → live st a ≡ some s
    → s'.acceptq ≡ s.acceptq
    → Keeps st (put st a (some s'))
put-Keeps st a s s' e q = (
  refl,
  λ c. omega (arith, queued-put c st a s (some s') e, ap (in_queue c) q),
  put-Sub st a s s' e q,
)

pub put-Balanced :
    (st : Store) (a : ℕ) (s : Socket) (x : Option Socket) (n m : ℕ → ℕ)
    → live st a ≡ some s
    → Balanced st n
    → Counted x (m a)
    → ((c : ℕ) → (a == c) ≡ false → m c ≡ n c)
    → Balanced (put st a x) m
put-Balanced st a s x n m e h k g c = elim (Bool-cases (a == c)) [
  | inl z ↦
      let same = ==→eq a c z in
      let here : live (put st a x) c ≡ x = ground (arith, z, live-put st a s x c e) in
      rw here (rw same at k)
  | inr z ↦
      let there : live (put st a x) c ≡ live st c = ground (arith, z, live-put st a s x c e) in
      rw there (Counted-eq (live st c) (n c) (m c) (sym (g c z)) (h c))
]
