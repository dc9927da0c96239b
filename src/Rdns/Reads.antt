-- ===== src/Rdns/Reads.antt =====
-- What the parser of a reply reads, whatever the packet.
use lwip_amiga.Base.{
  ℕ, zero, suc, ◌+◌, ◌-◌, ◌<◌, ◌≤◌, ◌≡◌, inl, inr, refl, Bool, true, false, ◌&&◌, List, [], ◌∷◌,
  ◌==◌, ◌!=◌, ltb, leb, length, length-append, arith, bit_and, Bool-cases,
}
use lwip_amiga.Rdns.{
  Get, got, failed, outside, ◌>>=◌, ◌>>◌, require, byte_at, word_at, Step, stop, go, skip_turn,
  after_step, skip_loop, skip_name, copy_byte, copy_label, NameTurn, ends, next, dotted, follow,
  take_label, name_turn, after_turn, name_loop, dns_name, skip_questions, find_ptr, parse_counts,
  rdns_parse,
}

-- A result that is not `outside`, and holds `P` where there is one.
abbrev pub Gives {ℓ} : {A : Type ℓ} → (A → Type 0) → Get A → Type 0
Gives P (got a) = P a
Gives P failed = Unit {0}
Gives P outside = ⊥

pub Gives-bind {ℓ κ} :
    {A : Type ℓ} {B : Type κ} (P : A → Type 0) (Q : B → Type 0) (m : Get A) (f : A → Get B)
    → Gives P m
    → ((a : A) → P a → Gives Q (f a))
    → Gives Q (m >>= f)
Gives-bind P Q (got a) f h k = k a h
Gives-bind P Q failed f h k = tt
Gives-bind P Q outside f h k = absurd h

Gives-require :
    {B : Type 0} (Q : B → Type 0) (b : Bool) (m : Get B)
    → (b ≡ true → Gives Q m)
    → Gives Q (require b >> m)
Gives-require Q true m f = f refl
Gives-require Q false m f = tt

abbrev Any {ℓ} : {A : Type ℓ} → A → Type 0
Any a = Unit {0}

byte_at-Gives : (pkt : List ℕ) (i : ℕ) → i < length pkt → Gives Any (byte_at pkt i)
byte_at-Gives [] i h = absurd (omega arith)
byte_at-Gives (x ∷ pkt) zero h = tt
byte_at-Gives (x ∷ pkt) (suc i) h = byte_at-Gives pkt i (omega arith)

word_at-Gives : (pkt : List ℕ) (i : ℕ) → i + 1 < length pkt → Gives Any (word_at pkt i)
unfolding word_at
word_at-Gives pkt i h =
    Gives-bind Any Any (byte_at pkt i) _ (byte_at-Gives pkt i (omega arith)) (λ a u.
      Gives-bind Any Any (byte_at pkt (i + 1)) _ (byte_at-Gives pkt (i + 1) (omega arith))
        (λ b v. tt))

abbrev Ahead : ℕ → Step → Type 0
Ahead pos (stop n) = pos < n
Ahead pos (go n) = pos < n

skip_turn-Gives : (pkt : List ℕ) (pos : ℕ) → Gives (Ahead pos) (skip_turn pkt pos)
unfolding skip_turn
skip_turn-Gives pkt pos = Gives-require (Ahead pos) (ltb pos (length pkt)) _ (λ y.
    Gives-bind Any (Ahead pos) (byte_at pkt pos) _ (byte_at-Gives pkt pos (ground arith))
      (λ b u. ground arith))

after_step-Gives :
    (pos : ℕ) (t : Step) (rest : ℕ → Get ℕ)
    → Ahead pos t
    → ((n : ℕ) → pos < n → Gives Any (rest n))
    → Gives Any (after_step t rest)
after_step-Gives pos (stop n) rest h f = tt
after_step-Gives pos (go n) rest h f = f n h

skip_loop-Gives :
    (fuel : ℕ) (pkt : List ℕ) (pos : ℕ)
    → length pkt ≤ fuel + pos
    → Gives Any (skip_loop fuel pkt pos)
unfolding skip_loop
skip_loop-Gives zero pkt pos h = ground arith
skip_loop-Gives (suc fuel) pkt pos h =
    Gives-bind (Ahead pos) Any (skip_turn pkt pos) _ (skip_turn-Gives pkt pos) (λ t b.
      after_step-Gives pos t (skip_loop fuel pkt) b
        (λ n l. skip_loop-Gives fuel pkt n (omega arith)))

-- The text so far leaves room for a NUL.
abbrev Fits : ℕ → List ℕ → Type 0
Fits room out = length out ≤ room

copy_byte-Gives :
    (room : ℕ) (pkt : List ℕ) (pos : ℕ) (out : List ℕ)
    → Fits room out
    → pos < length pkt
    → Gives (Fits room) (copy_byte room pkt pos out)
unfolding copy_byte
copy_byte-Gives room pkt pos out f h = elim (Bool-cases (ltb (length out) room)) [
  | inl y ↦ rw y (
      Gives-bind Any (Fits room) (byte_at pkt pos) _ (byte_at-Gives pkt pos h)
        (λ x u. ground (arith, length-append out (x ∷ []))))
  | inr y ↦ rw y f
]

copy_label-Gives :
    (room : ℕ) (pkt : List ℕ) (pos n : ℕ) (out : List ℕ)
    → Fits room out
    → pos + n ≤ length pkt
    → Gives (Fits room) (copy_label room pkt pos n out)
unfolding copy_label
copy_label-Gives room pkt pos zero out f h = f
copy_label-Gives room pkt pos (suc n) out f h =
    Gives-bind (Fits room) (Fits room) (copy_byte room pkt pos out) _
      (copy_byte-Gives room pkt pos out f (omega arith))
      (λ x g. copy_label-Gives room pkt (pos + 1) n x g (omega arith))

abbrev TurnFits : ℕ → NameTurn → Type 0
TurnFits room ends = Unit {0}
TurnFits room (next pos out) = Fits room out

dotted-Fits : (room : ℕ) (out : List ℕ) → Fits room out → Fits room (dotted room out)
dotted-Fits room out f = ground (arith, length-append out (b'.' ∷ []))

follow-Gives :
    (room : ℕ) (pkt : List ℕ) (pos b : ℕ) (out : List ℕ)
    → Fits room out
    → Gives (TurnFits room) (follow pkt pos b out)
unfolding follow
follow-Gives room pkt pos b out f =
    Gives-require (TurnFits room) (ltb (pos + 1) (length pkt)) _ (λ y.
      Gives-bind Any (TurnFits room) (byte_at pkt (pos + 1)) _
        (byte_at-Gives pkt (pos + 1) (ground arith)) (λ l u. f))

take_label-Gives :
    (room : ℕ) (pkt : List ℕ) (pos b : ℕ) (out : List ℕ)
    → Fits room out
    → Gives (TurnFits room) (take_label room pkt pos b out)
unfolding take_label
take_label-Gives room pkt pos b out f =
    Gives-require (TurnFits room) (leb b 63 && leb (pos + 1 + b) (length pkt)) _ (λ y.
      Gives-bind (Fits room) (TurnFits room) (copy_label room pkt (pos + 1) b (dotted room out)) _
        (copy_label-Gives room pkt (pos + 1) b (dotted room out) (dotted-Fits room out f)
          (ground arith))
        (λ x g. g))

name_turn-Gives :
    (room : ℕ) (pkt : List ℕ) (pos : ℕ) (out : List ℕ)
    → Fits room out
    → Gives (TurnFits room) (name_turn room pkt pos out)
unfolding name_turn
name_turn-Gives room pkt pos out f = elim (Bool-cases (ltb pos (length pkt))) [
  | inl y ↦ rw y (
      Gives-bind Any (TurnFits room) (byte_at pkt pos) _ (byte_at-Gives pkt pos (ground arith))
        (λ b u.
          ground (arith, follow-Gives room pkt pos b out f, take_label-Gives room pkt pos b out f)))
  | inr y ↦ rw y tt
]

after_turn-Gives :
    (room : ℕ) (t : NameTurn) (out : List ℕ) (rest : ℕ → List ℕ → Get (List ℕ))
    → Fits room out
    → TurnFits room t
    → ((p : ℕ) (o : List ℕ) → Fits room o → Gives (Fits room) (rest p o))
    → Gives (Fits room) (after_turn t out rest)
after_turn-Gives room ends out rest f g k = f
after_turn-Gives room (next p o) out rest f g k = k p o g

name_loop-Gives :
    (left room : ℕ) (pkt : List ℕ) (pos : ℕ) (out : List ℕ)
    → Fits room out
    → Gives (Fits room) (name_loop left room pkt pos out)
unfolding name_loop
name_loop-Gives zero room pkt pos out f =
    Gives-bind (TurnFits room) (Fits room) (name_turn room pkt pos out) _
      (name_turn-Gives room pkt pos out f) (λ t g. after_turn-Gives room t out _ f g (λ p o k. tt))
name_loop-Gives (suc left) room pkt pos out f =
    Gives-bind (TurnFits room) (Fits room) (name_turn room pkt pos out) _
      (name_turn-Gives room pkt pos out f)
      (λ t g. after_turn-Gives room t out _ f g (λ p o k. name_loop-Gives left room pkt p o k))

-- A name and its NUL fit the caller's buffer, and there is a name.
abbrev pub FitsBuffer : ℕ → List ℕ → Type 0
FitsBuffer outmax out = (0 < length out) × (length out < outmax)

dns_name-Gives :
    (pkt : List ℕ) (pos outmax : ℕ) → Gives (FitsBuffer outmax) (dns_name pkt pos outmax)
unfolding dns_name
dns_name-Gives pkt pos outmax =
    Gives-bind (Fits (outmax - 1)) (FitsBuffer outmax) (name_loop 128 (outmax - 1) pkt pos []) _
      (name_loop-Gives 128 (outmax - 1) pkt pos [] (omega arith))
      (λ out f.
        Gives-require (FitsBuffer outmax) (ltb 0 outmax && length out != 0) (got out)
          (λ y. ground arith))

skip_questions-Gives : (n : ℕ) (pkt : List ℕ) (pos : ℕ) → Gives Any (skip_questions n pkt pos)
unfolding skip_questions skip_name
skip_questions-Gives zero pkt pos = tt
skip_questions-Gives (suc n) pkt pos =
    Gives-bind Any Any (skip_name pkt pos) _ (skip_loop-Gives (length pkt) pkt pos (omega arith))
      (λ past u.
        Gives-require Any (leb (past + 4) (length pkt)) _
          (λ y. skip_questions-Gives n pkt (past + 4)))

find_ptr-Gives :
    (n : ℕ) (pkt : List ℕ) (outmax pos : ℕ) → Gives (FitsBuffer outmax) (find_ptr n pkt outmax pos)
unfolding find_ptr skip_name
find_ptr-Gives zero pkt outmax pos = tt
find_ptr-Gives (suc n) pkt outmax pos =
    Gives-bind Any (FitsBuffer outmax) (skip_name pkt pos) _
      (skip_loop-Gives (length pkt) pkt pos (omega arith))
      (λ past u. Gives-require (FitsBuffer outmax) (leb (past + 10) (length pkt)) _ (λ y.
        Gives-bind Any (FitsBuffer outmax) (word_at pkt past) _
          (word_at-Gives pkt past (ground arith))
          (λ type v.
            Gives-bind Any (FitsBuffer outmax) (word_at pkt (past + 8)) _
              (word_at-Gives pkt (past + 8) (ground arith))
              (λ rdlen w.
                Gives-require (FitsBuffer outmax) (leb (past + 10 + rdlen) (length pkt)) _ (λ z.
                  ground (
                    arith,
                    dns_name-Gives pkt (past + 10) outmax,
                    find_ptr-Gives n pkt outmax (past + 10 + rdlen),
                  ))))))

-- The parser of a reply, on any bytes at all: it never reads outside of the packet, its loops end
-- within their fuel, and a name that it returns is not empty and fits the buffer with its NUL.
pub rdns_parse-FitsBuffer :
    (pkt : List ℕ) (id outmax : ℕ) → Gives (FitsBuffer outmax) (rdns_parse pkt id outmax)
unfolding rdns_parse parse_counts
rdns_parse-FitsBuffer pkt id outmax = Gives-require Q (leb 12 (length pkt)) _ (λ y.
    let long : 12 ≤ length pkt = ground arith in
    Gives-bind Any Q (word_at pkt 0) _ (word_at-Gives pkt 0 (omega arith)) (λ a u.
      Gives-require Q (a == id) _ (λ z.
        Gives-bind Any Q (byte_at pkt 2) _ (byte_at-Gives pkt 2 (omega arith)) (λ b v.
          Gives-require Q (bit_and b 0x80 != 0) _ (λ z'.
            Gives-bind Any Q (byte_at pkt 3) _ (byte_at-Gives pkt 3 (omega arith))
              (λ c w. Gives-require Q (bit_and c 0x0F == 0) _ (λ z''. counts long)))))))
  where
    Q : List ℕ → Type 0
    Q = FitsBuffer outmax

    counts : 12 ≤ length pkt → Gives Q (parse_counts pkt outmax)
    counts long = Gives-bind Any Q (word_at pkt 4) _ (word_at-Gives pkt 4 (omega arith)) (λ qd u.
        Gives-bind Any Q (word_at pkt 6) _ (word_at-Gives pkt 6 (omega arith)) (λ an v.
          Gives-require Q (an != 0) _ (λ y.
            Gives-bind Any Q (skip_questions qd pkt 12) _ (skip_questions-Gives qd pkt 12)
              (λ pos w. find_ptr-Gives an pkt outmax pos))))
