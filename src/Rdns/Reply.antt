-- ===== src/Rdns/Reply.antt =====
-- A reply to the query, read by `sb_rdns_parse`.
use lwip_amiga.Base.{
  ℕ, zero, suc, ◌+◌, ◌-◌, ◌*◌, ◌/◌, ◌%◌, ◌^◌, ◌<◌, ◌≤◌, ◌≡◌, ◌≢◌, refl, ap, ◌∙◌, some, List, [],
  ◌∷◌, ◌++◌, leb, length, take, drop, length-append, append_assoc, arith, bit_and,
}
use lwip_amiga.Base.Bits.{bit_or_disjoint}
use lwip_amiga.Rdns.{
  got, ◌>>◌, require, word_at, header, question_end, rdns_build, skip_name, skip_loop, skip_turn,
  stop, skip_questions, dns_name, find_ptr, parse_counts, rdns_parse,
}
use lwip_amiga.Rdns.Encode.{encode, AreLabels, join, Here, Here-byte, Here-append, Here-start}
use lwip_amiga.Rdns.Names.{skip_loop-encode, dns_name-encode}
use lwip_amiga.Rdns.Query.{rdns_build_text, labels_of, labels_of-AreLabels}

word_at-Here :
    (pkt : List ℕ) (pos a b : ℕ) (r : List ℕ)
    → Here pkt pos (a ∷ b ∷ r)
    → b < 256
    → word_at pkt pos ≡ got (a * 256 + b)
unfolding word_at
word_at-Here pkt pos a b r h l =
    let second = Here-byte pkt (pos + 1) b r (Here-append pkt pos (a ∷ []) (b ∷ r) h) in
    ground (arith, Here-byte pkt pos a (b ∷ r) h, second, bit_or_disjoint 8 a b l)

encode-bound : (ls : List (List ℕ)) → AreLabels ls → length (encode ls) ≤ 64 * length ls
encode-bound [] a = omega arith
encode-bound (l ∷ ls) a = omega (arith, a.1, length-append l (encode ls), encode-bound ls a.2)

labels-bound : (ls : List (List ℕ)) → length ls ≤ length (encode ls)
labels-bound [] = omega arith
labels-bound (l ∷ ls) = omega (arith, length-append l (encode ls), labels-bound ls)

past_class :
    (pos : ℕ) (pkt : List ℕ)
    → pos + 5 ≤ length pkt
    → (require (leb (pos + 1 + 4) (length pkt)) >> got (pos + 1 + 4)) ≡ got (pos + 5)
past_class pos pkt h = ground arith

skip_questions-encode :
    (pkt : List ℕ) (pos : ℕ) (ls : List (List ℕ)) (r : List ℕ)
    → Here pkt pos (encode ls ++ (question_end ++ r))
    → AreLabels ls
    → skip_questions 1 pkt pos ≡ got (pos + length (encode ls) + 5)
unfolding skip_questions skip_name
skip_questions-encode pkt pos ls r h a =
    let inside : length ls < length pkt =
      omega (arith, h.1, labels-bound ls, length-append (encode ls) (question_end ++ r)) in
    let room : pos + length (encode ls) + 5 ≤ length pkt =
      omega (arith, h.1, length-append (encode ls) (question_end ++ r)) in
    rw (skip_loop-encode (length pkt) pkt pos ls (0 ∷ 12 ∷ 0 ∷ 1 ∷ r) h a inside)
      (past_class (pos + length (encode ls)) pkt room)

skip_turn-pointer :
    (pkt : List ℕ) (pos b : ℕ) (r : List ℕ)
    → Here pkt pos (0xC0 ∷ b ∷ r)
    → skip_turn pkt pos ≡ got (stop (pos + 2))
unfolding skip_turn
skip_turn-pointer pkt pos b r h = ground (arith, h.1, Here-byte pkt pos 0xC0 (b ∷ r) h)

skip_loop-pointer :
    (fuel : ℕ) (pkt : List ℕ) (pos b : ℕ) (r : List ℕ)
    → Here pkt pos (0xC0 ∷ b ∷ r)
    → 0 < fuel
    → skip_loop fuel pkt pos ≡ got (pos + 2)
unfolding skip_loop
skip_loop-pointer zero pkt pos b r h f = absurd (omega arith)
skip_loop-pointer (suc fuel) pkt pos b r h f = rw (skip_turn-pointer pkt pos b r h) refl

skip_name-pointer :
    (pkt : List ℕ) (pos b : ℕ) (r : List ℕ)
    → Here pkt pos (0xC0 ∷ b ∷ r)
    → skip_name pkt pos ≡ got (pos + 2)
unfolding skip_name
skip_name-pointer pkt pos b r h = skip_loop-pointer (length pkt) pkt pos b r h (omega (arith, h.1))

-- The answer of the server: a pointer to the query's name, PTR, IN, a time to live, and the labels.
abbrev pub name_data : List (List ℕ) → List ℕ
name_data target = encode target ++ (0 ∷ [])

abbrev pub answer : List ℕ → List (List ℕ) → List ℕ
answer ttl target =
    0xC0 ∷ 12 ∷ 0 ∷ 12 ∷ 0 ∷ 1 ∷ ttl
    ++ (length (name_data target) / 256 ∷ length (name_data target) % 256 ∷ name_data target)

length-name_data : (ls : List (List ℕ)) → length (name_data ls) ≡ length (encode ls) + 1
length-name_data ls = omega (arith, length-append (encode ls) (0 ∷ []))

data_length :
    (pkt : List ℕ) (pos : ℕ) (d : List ℕ)
    → Here pkt pos (length d / 256 ∷ length d % 256 ∷ d)
    → word_at pkt pos ≡ got (length d)
data_length pkt pos d h =
    let split : length d / 256 * 256 + length d % 256 ≡ length d = omega arith in
    word_at-Here pkt pos (length d / 256) (length d % 256) d h (omega arith) ∙ ap got split

find_ptr-named :
    (pkt : List ℕ) (outmax pos past n : ℕ)
    → skip_name pkt pos ≡ got past
    → word_at pkt past ≡ got 12
    → word_at pkt (past + 8) ≡ got n
    → past + 10 + n ≤ length pkt
    → find_ptr 1 pkt outmax pos ≡ dns_name pkt (past + 10) outmax
unfolding find_ptr
find_ptr-named pkt outmax pos past n s t u h = ground arith

Here-at : (pkt : List ℕ) (p q : ℕ) (r : List ℕ) → p ≡ q → Here pkt p r → Here pkt q r
Here-at pkt p q r e h = rw (← e) h

find_ptr-answer :
    (pkt : List ℕ) (pos outmax : ℕ) (ttl l : List ℕ) (ls : List (List ℕ))
    → Here pkt pos (answer ttl (l ∷ ls))
    → length ttl ≡ 4
    → AreLabels (l ∷ ls)
    → length (l ∷ ls) ≤ 128
    → 2 ≤ outmax
    → find_ptr 1 pkt outmax pos ≡ got (take (outmax - 1) (join (l ∷ ls)))
find_ptr-answer pkt pos outmax ttl l ls h t a b c =
    let d = name_data (l ∷ ls) in
    let after_ttl : List ℕ = length d / 256 ∷ length d % 256 ∷ d in
    let typed = Here-append pkt pos (0xC0 ∷ 12 ∷ []) (0 ∷ 12 ∷ 0 ∷ 1 ∷ ttl ++ after_ttl) h in
    let timed = Here-append pkt (pos + 2) (0 ∷ 12 ∷ 0 ∷ 1 ∷ ttl) after_ttl typed in
    let sized =
      Here-at pkt (pos + 2 + length (0 ∷ 12 ∷ 0 ∷ 1 ∷ ttl)) (pos + 2 + 8) after_ttl (omega arith)
        timed in
    let named = Here-append pkt (pos + 2 + 8) (length d / 256 ∷ length d % 256 ∷ []) d sized in
    let placed = Here-at pkt (pos + 2 + 8 + 2) (pos + 2 + 10) d (omega arith) named in
    let skipped = skip_name-pointer pkt pos 12 (0 ∷ 12 ∷ 0 ∷ 1 ∷ ttl ++ after_ttl) h in
    let type_word =
      word_at-Here pkt (pos + 2) 0 12 (0 ∷ 1 ∷ ttl ++ after_ttl) typed (omega arith) in
    let size_word = data_length pkt (pos + 2 + 8) d sized in
    find_ptr-named pkt outmax pos (pos + 2) (length d) skipped type_word size_word
      (omega (arith, placed.1))
    ∙ dns_name-encode pkt (pos + 2 + 10) outmax l ls [] placed a b c

-- A reply to a query: its number, the flags, one question, that of the query, and one answer.
abbrev pub reply_to : List ℕ → ℕ → ℕ → ℕ → List ℕ → List (List ℕ) → List ℕ
reply_to query id flags rcode ttl target =
    ((id / 2 ^ 8) % 2 ^ 8 ∷ id % 2 ^ 8 ∷ flags ∷ rcode ∷ 0 ∷ 1 ∷ 0 ∷ 1 ∷ 0 ∷ 0 ∷ 0 ∷ 0 ∷ [])
    ++ (drop 12 query ++ answer ttl target)

parse_counts-one :
    (pkt : List ℕ) (outmax pos : ℕ)
    → word_at pkt 4 ≡ got 1
    → word_at pkt 6 ≡ got 1
    → skip_questions 1 pkt 12 ≡ got pos
    → parse_counts pkt outmax ≡ find_ptr 1 pkt outmax pos
unfolding parse_counts
parse_counts-one pkt outmax pos h g e = ground arith

question_count : (a b c d : ℕ) (rest : List ℕ) → word_at (a ∷ b ∷ c ∷ d ∷ 0 ∷ 1 ∷ rest) 4 ≡ got 1
unfolding word_at
question_count a b c d rest = refl

answer_count :
    (a b c d : ℕ) (rest : List ℕ) → word_at (a ∷ b ∷ c ∷ d ∷ 0 ∷ 1 ∷ 0 ∷ 1 ∷ rest) 6 ≡ got 1
unfolding word_at
answer_count a b c d rest = refl

rdns_parse-accepts :
    (id flags rcode outmax : ℕ) (rest : List ℕ)
    → 8 ≤ length rest
    → id < 2 ^ 16
    → bit_and flags 0x80 ≢ 0
    → bit_and rcode 0x0F ≡ 0
    → rdns_parse ((id / 2 ^ 8) % 2 ^ 8 ∷ id % 2 ^ 8 ∷ flags ∷ rcode ∷ rest) id outmax
      ≡ parse_counts ((id / 2 ^ 8) % 2 ^ 8 ∷ id % 2 ^ 8 ∷ flags ∷ rcode ∷ rest) outmax
unfolding rdns_parse word_at
rdns_parse-accepts id flags rcode outmax rest n h f g =
    ground (arith, bit_or_disjoint 8 ((id / 2 ^ 8) % 2 ^ 8) (id % 2 ^ 8))

Here-tail : (xs r e : List ℕ) → r ≡ e → Here (xs ++ r) (length xs) e
Here-tail xs r e t = let h = Here-start xs r in (h.0 ∙ t, omega (arith, h.1, ap length t))

parse_counts-answer :
    (pkt : List ℕ) (addr outmax : ℕ) (ttl l : List ℕ) (ls : List (List ℕ))
    → word_at pkt 4 ≡ got 1
    → word_at pkt 6 ≡ got 1
    → Here pkt 12 (encode (labels_of addr) ++ (question_end ++ answer ttl (l ∷ ls)))
    → length ttl ≡ 4
    → AreLabels (l ∷ ls)
    → length (l ∷ ls) ≤ 128
    → 2 ≤ outmax
    → parse_counts pkt outmax ≡ got (take (outmax - 1) (join (l ∷ ls)))
parse_counts-answer pkt addr outmax ttl l ls q n h t a b c =
    let e = encode (labels_of addr) in
    let asked =
      skip_questions-encode pkt 12 (labels_of addr) (answer ttl (l ∷ ls)) h
        (labels_of-AreLabels addr) in
    let past = Here-append pkt 12 e (question_end ++ answer ttl (l ∷ ls)) h in
    let there = Here-append pkt (12 + length e) question_end (answer ttl (l ∷ ls)) past in
    parse_counts-one pkt outmax (12 + length e + 5) q n asked
    ∙ find_ptr-answer pkt (12 + length e + 5) outmax ttl l ls there t a b c

pub rdns_parse-rdns_build :
    (max addr id flags rcode outmax : ℕ) (query ttl l : List ℕ) (ls : List (List ℕ))
    → 46 ≤ max
    → rdns_build max addr id ≡ some query
    → id < 2 ^ 16
    → bit_and flags 0x80 ≢ 0
    → bit_and rcode 0x0F ≡ 0
    → length ttl ≡ 4
    → AreLabels (l ∷ ls)
    → length (l ∷ ls) ≤ 128
    → 2 ≤ outmax
    → rdns_parse (reply_to query id flags rcode ttl (l ∷ ls)) id outmax
      ≡ got (take (outmax - 1) (join (l ∷ ls)))
rdns_parse-rdns_build max addr id flags rcode outmax query ttl l ls m q i f g t a b c =
    let head : List ℕ =
      (id / 2 ^ 8) % 2 ^ 8 ∷ id % 2 ^ 8 ∷ flags ∷ rcode ∷ 0 ∷ 1 ∷ 0 ∷ 1 ∷ 0 ∷ 0 ∷ 0 ∷ 0 ∷ [] in
    let rest : List ℕ = drop 12 query ++ answer ttl (l ∷ ls) in
    let asked : query ≡ (header id ++ encode (labels_of addr)) ++ question_end =
      ground (arith, q, rdns_build_text max addr id m) in
    let tail : drop 12 query ++ answer ttl (l ∷ ls)
        ≡ encode (labels_of addr) ++ (question_end ++ answer ttl (l ∷ ls)) =
      ap (λ x. drop 12 x ++ answer ttl (l ∷ ls)) asked
      ∙ append_assoc (encode (labels_of addr)) question_end (answer ttl (l ∷ ls)) in
    let here : Here (head ++ rest) 12
        (encode (labels_of addr) ++ (question_end ++ answer ttl (l ∷ ls))) =
      Here-tail head rest (encode (labels_of addr) ++ (question_end ++ answer ttl (l ∷ ls))) tail in
    rdns_parse-accepts id flags rcode outmax (0 ∷ 1 ∷ 0 ∷ 1 ∷ 0 ∷ 0 ∷ 0 ∷ 0 ∷ rest) (omega arith) i
      f g
    ∙ parse_counts-answer (head ++ rest) addr outmax ttl l ls (question_count _ _ _ _ _)
        (answer_count _ _ _ _ _) here t a b c
