-- ===== src/Rdns/Query.antt =====
-- The query of `sb_rdns_build`.
use lwip_amiga.Base.{
  ℕ, ◌+◌, ◌-◌, ◌*◌, ◌%◌, ◌⊎◌, get_or, ◌/◌, ◌^◌, ◌<◌, ◌≤◌, ◌≡◌, refl, sym, ap, ◌∙◌, Option, none,
  some, List, [], ◌∷◌, ◌++◌, ltb, if◌then◌else◌, length, length-append, append_assoc, append-nil,
  arith,
}
use lwip_amiga.Base.Bits.{bit_and_low}
use lwip_amiga.Rdns.{
  octet_digits, backwards, put_label, put_octet, then_put, header, question_end, octet_of,
  rdns_build,
}
use lwip_amiga.Rdns.Encode.{encode, AreLabels}

-- The decimal text of an octet.
abbrev pub octet_text : ℕ → List ℕ
octet_text o = backwards (octet_digits 3 o) []

-- The number that decimal digits denote.
abbrev pub decimal : ℕ → List ℕ → ℕ
decimal v [] = v
decimal v (c ∷ cs) = decimal (v * 10 + (c - 48)) cs

abbrev pub AreDigits : List ℕ → Type 0
AreDigits [] = Unit {0}
AreDigits (c ∷ cs) = (48 ≤ c) × (c ≤ 57) × AreDigits cs

octet_text-AreDigits :
    (o : ℕ)
    → o < 256
    → (decimal 0 (octet_text o) ≡ o)
      × AreDigits (octet_text o)
      × (0 < length (octet_text o))
      × (length (octet_text o) ≤ 3)
unfolding octet_digits backwards
octet_text-AreDigits o h = ground arith

abbrev pub arpa : List (List ℕ)
arpa = (b'i' ∷ b'n' ∷ b'-' ∷ b'a' ∷ b'd' ∷ b'd' ∷ b'r' ∷ []) ∷ (b'a' ∷ b'r' ∷ b'p' ∷ b'a' ∷ []) ∷ []

-- The octet's label before others.
abbrev pub octet_label : ℕ → ℕ → List (List ℕ) → List (List ℕ)
octet_label addr k ls = octet_text (octet_of addr k) ∷ ls

-- The labels d.c.b.a.in-addr.arpa of an address.
abbrev pub labels_of : ℕ → List (List ℕ)
labels_of addr =
    octet_label addr 0 (octet_label addr 8 (octet_label addr 16 (octet_label addr 24 arpa)))

octet_of-lt : (addr k : ℕ) → octet_of addr k < 256
octet_of-lt addr k = omega (arith, bit_and_low 8 (addr / 2 ^ k))

octet_of-AreDigits :
    (addr k : ℕ)
    → (0 < length (octet_text (octet_of addr k))) × (length (octet_text (octet_of addr k)) ≤ 3)
octet_of-AreDigits addr k =
    let d = octet_text-AreDigits (octet_of addr k) (octet_of-lt addr k) in (d.2, d.3)

octet_label-AreLabels :
    (addr k : ℕ) (ls : List (List ℕ)) → AreLabels ls → AreLabels (octet_label addr k ls)
octet_label-AreLabels addr k ls a =
    let h = octet_of-AreDigits addr k in (h.0, omega (arith, h.1), a)

arpa-AreLabels : AreLabels arpa
arpa-AreLabels = (omega arith, omega arith, (omega arith, omega arith, tt))

pub labels_of-AreLabels : (addr : ℕ) → AreLabels (labels_of addr)
labels_of-AreLabels addr =
    let d = octet_label-AreLabels addr 24 arpa arpa-AreLabels in
    let c = octet_label-AreLabels addr 16 (octet_label addr 24 arpa) d in
    let b = octet_label-AreLabels addr 8 (octet_label addr 16 (octet_label addr 24 arpa)) c in
    octet_label-AreLabels addr 0
      (octet_label addr 8 (octet_label addr 16 (octet_label addr 24 arpa))) b

-- Labels put one behind the other.
abbrev put_all : ℕ → List (List ℕ) → Option (List ℕ) → Option (List ℕ)
put_all max [] o = o
put_all max (l ∷ ls) o = put_all max ls (then_put o (put_label max l))

put_label-fits :
    (max : ℕ) (l buf : List ℕ)
    → length buf + 1 + length l ≤ max
    → put_label max l buf ≡ some (buf ++ (length l ∷ l))
unfolding put_label
put_label-fits max l buf h = ground arith

put_all-encode :
    (max : ℕ) (ls : List (List ℕ)) (buf : List ℕ)
    → length buf + length (encode ls) ≤ max
    → put_all max ls (some buf) ≡ some (buf ++ encode ls)
put_all-encode max [] buf h = ap some (sym (append-nil buf))
put_all-encode max (l ∷ ls) buf h =
    rw (put_label-fits max l buf (omega (arith, length-append l (encode ls)))) (
      put_all-encode max ls (buf ++ (length l ∷ l))
        (omega (arith, length-append buf (length l ∷ l), length-append l (encode ls)))
      ∙ ap some (append_assoc buf (length l ∷ l) (encode ls)))

length-octet_label :
    (addr k : ℕ) (ls : List (List ℕ))
    → length (encode (octet_label addr k ls)) ≤ 4 + length (encode ls)
length-octet_label addr k ls =
    omega (
      arith,
      (octet_of-AreDigits addr k).1,
      length-append (octet_text (octet_of addr k)) (encode ls),
    )

length-encode : (addr : ℕ) → length (encode (labels_of addr)) ≤ 29
length-encode addr =
    let d = length-octet_label addr 24 arpa in
    let c = length-octet_label addr 16 (octet_label addr 24 arpa) in
    let b = length-octet_label addr 8 (octet_label addr 16 (octet_label addr 24 arpa)) in
    let a =
      length-octet_label addr 0
        (octet_label addr 8 (octet_label addr 16 (octet_label addr 24 arpa))) in
    omega (arith, a, b, c, d)

put_octet-label :
    (max o : ℕ) (buf : List ℕ) → put_octet max o buf ≡ put_label max (octet_text o) buf
unfolding put_octet
put_octet-label max o buf = refl

ended :
    (max : ℕ) (buf : List ℕ)
    → length buf + 5 ≤ max
    → (if ltb max (length buf + 5) then none else some (buf ++ question_end))
      ≡ some (buf ++ question_end)
ended max buf h = ground arith

abbrev end_question : ℕ → List ℕ → Option (List ℕ)
end_question max buf = if ltb max (length buf + 5) then none else some (buf ++ question_end)

large : (max : ℕ) (o : Option (List ℕ)) → 12 ≤ max → (if ltb max 12 then none else o) ≡ o
large max o h = ground arith

rdns_build_put :
    (max addr id : ℕ)
    → rdns_build max addr id ≡ (
        if ltb max 12
        then none
        else then_put (put_all max (labels_of addr) (some (header id))) (end_question max))
unfolding rdns_build put_octet
rdns_build_put max addr id = refl

-- A query for an address, of the labels that the code writes.
pub rdns_build_text :
    (max addr id : ℕ)
    → 46 ≤ max
    → rdns_build max addr id ≡ some ((header id ++ encode (labels_of addr)) ++ question_end)
rdns_build_text max addr id h =
    let whole =
      put_all-encode max (labels_of addr) (header id) (omega (arith, length-encode addr)) in
    let fits : length (header id ++ encode (labels_of addr)) + 5 ≤ max =
      omega (arith, length-encode addr, length-append (header id) (encode (labels_of addr))) in
    rw (rdns_build_put max addr id, whole)
      (large max (end_question max (header id ++ encode (labels_of addr))) (omega arith)
        ∙ ended max (header id ++ encode (labels_of addr)) fits)

-- The decimal numeral of an octet, with no zero in front.
abbrev pub IsDecimal : ℕ → List ℕ → Type 0
IsDecimal v l =
    (decimal 0 l ≡ v)
    × AreDigits l
    × (0 < length l)
    × (length l ≤ 3)
    × ((length l ≡ 1) ⊎ (b'0' < get_or l 0 0))

octet_text-front :
    (o : ℕ) → o < 256 → (length (octet_text o) ≡ 1) ⊎ (b'0' < get_or (octet_text o) 0 0)
unfolding octet_digits backwards
octet_text-front o h = ground arith

octet_of-IsDecimal : (addr k : ℕ) → IsDecimal (addr / 2 ^ k % 256) (octet_text (octet_of addr k))
octet_of-IsDecimal addr k =
    let small = octet_of-lt addr k in
    let (v, d, p, l) = octet_text-AreDigits (octet_of addr k) small in
    (v ∙ bit_and_low 8 (addr / 2 ^ k), d, p, l, octet_text-front (octet_of addr k) small)

-- Into a buffer of 46 bytes or more, the query for an address a.b.c.d is the twelve bytes of a header -
-- the number given, the flag for recursion, one question - then the name d.c.b.a.in-addr.arpa as labels
-- behind their lengths, where each octet is its decimal numeral with no zero in front, then the root
-- label, the type PTR (12) and the class IN (1).
pub rdns_build_lem :
    (max addr id : ℕ)
    → 46 ≤ max
    → (a b c d : List ℕ) × IsDecimal (addr / 2 ^ 24 % 256) a
      × IsDecimal (addr / 2 ^ 16 % 256) b
      × IsDecimal (addr / 2 ^ 8 % 256) c
      × IsDecimal (addr % 256) d
      × (rdns_build max addr id
          ≡ some (
              ((id / 256 % 256 ∷ id % 256 ∷ 1 ∷ 0 ∷ 0 ∷ 1 ∷ 0 ∷ 0 ∷ 0 ∷ 0 ∷ 0 ∷ 0 ∷ [])
                ++ encode (
                    d
                    ∷ c
                    ∷ b
                    ∷ a
                    ∷ (b'i' ∷ b'n' ∷ b'-' ∷ b'a' ∷ b'd' ∷ b'd' ∷ b'r' ∷ [])
                    ∷ (b'a' ∷ b'r' ∷ b'p' ∷ b'a' ∷ [])
                    ∷ []))
              ++ (0 ∷ 0 ∷ 12 ∷ 0 ∷ 1 ∷ [])))
rdns_build_lem max addr id h = (
  octet_text (octet_of addr 24),
  octet_text (octet_of addr 16),
  octet_text (octet_of addr 8),
  octet_text (octet_of addr 0),
  octet_of-IsDecimal addr 24,
  octet_of-IsDecimal addr 16,
  octet_of-IsDecimal addr 8,
  ground (arith, octet_of-IsDecimal addr 0),
  rdns_build_text max addr id h,
)
