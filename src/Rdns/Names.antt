-- ===== src/Rdns/Names.antt =====
-- Names read back: the skipping and the decoding of labels.
use lwip_amiga.Base.{
  ℕ, zero, suc, ◌+◌, ◌-◌, ◌<◌, ◌≤◌, ◌≡◌, refl, sym, ap, ◌∙◌, ◌&&◌, List, [], ◌∷◌, ◌++◌, ◌!=◌, ltb,
  if◌then◌else◌, length, take, length-append, append_assoc, append-nil, arith,
}
use lwip_amiga.Rdns.{
  got, ◌>>◌, require, stop, go, skip_turn, skip_loop, copy_byte, copy_label, ends, next, dotted,
  take_label, name_turn, name_loop, dns_name,
}
use lwip_amiga.Rdns.Encode.{
  encode, AreLabels, dots, join, Here, Here-byte, Here-append, small-is_pointer, after_label,
}

skip_turn-label :
    (pkt : List ℕ) (pos b : ℕ) (r : List ℕ)
    → Here pkt pos (b ∷ r)
    → 0 < b
    → b < 64
    → skip_turn pkt pos ≡ got (go (pos + 1 + b))
unfolding skip_turn
skip_turn-label pkt pos b r h p q =
    ground (arith, h.1, Here-byte pkt pos b r h, small-is_pointer b q)

skip_turn-root :
    (pkt : List ℕ) (pos : ℕ) (r : List ℕ)
    → Here pkt pos (0 ∷ r)
    → skip_turn pkt pos ≡ got (stop (pos + 1))
unfolding skip_turn
skip_turn-root pkt pos r h = ground (arith, h.1, Here-byte pkt pos 0 r h, small-is_pointer 0)

pub skip_loop-encode :
    (fuel : ℕ) (pkt : List ℕ) (pos : ℕ) (ls : List (List ℕ)) (r : List ℕ)
    → Here pkt pos (encode ls ++ 0 ∷ r)
    → AreLabels ls
    → length ls < fuel
    → skip_loop fuel pkt pos ≡ got (pos + length (encode ls) + 1)
unfolding skip_loop
skip_loop-encode zero pkt pos ls r h a f = absurd (omega arith)
skip_loop-encode (suc fuel) pkt pos [] r h a f =
    rw (skip_turn-root pkt pos r h) (ap got (omega arith))
skip_loop-encode (suc fuel) pkt pos (l ∷ ls) r h a f =
    rw (skip_turn-label pkt pos (length l) ((l ++ encode ls) ++ 0 ∷ r) h a.0 a.1) (
      skip_loop-encode fuel pkt (pos + 1 + length l) ls r (after_label pkt pos l ls (0 ∷ r) h) a.2
        (omega arith)
      ∙ ap got (omega (arith, length-append l (encode ls))))

take-snoc :
    (n : ℕ) (f : List ℕ) (x : ℕ)
    → (if ltb (length (take n f)) n then take n f ++ (x ∷ []) else take n f)
      ≡ take n (f ++ (x ∷ []))
take-snoc zero f x = refl
take-snoc (suc zero) [] x = refl
take-snoc (suc (suc n)) [] x = ground arith
take-snoc (suc n) (y ∷ f) x = ground (arith, take-snoc n f x)

copy_byte-take :
    (room : ℕ) (pkt : List ℕ) (pos : ℕ) (f : List ℕ) (x : ℕ) (r : List ℕ)
    → Here pkt pos (x ∷ r)
    → copy_byte room pkt pos (take room f) ≡ got (take room (f ++ (x ∷ [])))
unfolding copy_byte
copy_byte-take room pkt pos f x r h = ground (arith, Here-byte pkt pos x r h, take-snoc room f x)

copy_label-take :
    (room : ℕ) (pkt : List ℕ) (pos : ℕ) (f xs r : List ℕ)
    → Here pkt pos (xs ++ r)
    → copy_label room pkt pos (length xs) (take room f) ≡ got (take room (f ++ xs))
unfolding copy_label
copy_label-take room pkt pos f [] r h = ap (λ x. got (take room x)) (sym (append-nil f))
copy_label-take room pkt pos f (x ∷ xs) r h = rw (copy_byte-take room pkt pos f x (xs ++ r) h) (
    copy_label-take room pkt (pos + 1) (f ++ (x ∷ [])) xs r
      (Here-append pkt pos (x ∷ []) (xs ++ r) h)
    ∙ ap (λ x. got (take room x)) (append_assoc f (x ∷ []) xs))

-- The text that a label is put behind.
abbrev pub before : List ℕ → List ℕ
before [] = []
before (x ∷ f) = (x ∷ f) ++ (b'.' ∷ [])

dotted-take : (n : ℕ) (f : List ℕ) → dotted (suc n) (take (suc n) f) ≡ take (suc n) (before f)
dotted-take n [] = refl
dotted-take n (x ∷ f) = ground (arith, take-snoc (suc n) (x ∷ f) b'.')

take_label-take :
    (n : ℕ) (pkt : List ℕ) (pos : ℕ) (f l : List ℕ) (ls : List (List ℕ)) (r : List ℕ)
    → Here pkt pos (encode (l ∷ ls) ++ r)
    → length l < 64
    → take_label (suc n) pkt pos (length l) (take (suc n) f)
      ≡ got (next (pos + 1 + length l) (take (suc n) (before f ++ l)))
unfolding take_label
take_label-take n pkt pos f l ls r h b =
    let inside : Here pkt (pos + 1) (l ++ (encode ls ++ r)) =
      let s = Here-append pkt pos (length l ∷ []) ((l ++ encode ls) ++ r) h in
      (
        s.0 ∙ append_assoc l (encode ls) r,
        omega (arith, s.1, ap length (append_assoc l (encode ls) r)),
      ) in
    let copied = copy_label-take (suc n) pkt (pos + 1) (before f) l (encode ls ++ r) inside in
    let fits : pos + 1 + length l ≤ length pkt =
      omega (arith, inside.1, length-append l (encode ls ++ r)) in
    ground (arith, dotted-take n f, copied)

name_turn-label :
    (n : ℕ) (pkt : List ℕ) (pos : ℕ) (f l : List ℕ) (ls : List (List ℕ)) (r : List ℕ)
    → Here pkt pos (encode (l ∷ ls) ++ r)
    → 0 < length l
    → length l < 64
    → name_turn (suc n) pkt pos (take (suc n) f)
      ≡ got (next (pos + 1 + length l) (take (suc n) (before f ++ l)))
unfolding name_turn
name_turn-label n pkt pos f l ls r h p b = ground (
  arith,
  h.1,
  Here-byte pkt pos (length l) ((l ++ encode ls) ++ r) h,
  small-is_pointer (length l) b,
  take_label-take n pkt pos f l ls r h b,
)

name_turn-root :
    (room : ℕ) (pkt : List ℕ) (pos : ℕ) (out r : List ℕ)
    → Here pkt pos (0 ∷ r)
    → name_turn room pkt pos out ≡ got ends
unfolding name_turn
name_turn-root room pkt pos out r h =
    ground (arith, h.1, Here-byte pkt pos 0 r h, small-is_pointer 0)

-- The text that a loop leaves that started with `f`.
abbrev text_from : List ℕ → List (List ℕ) → List ℕ
text_from f [] = f
text_from f (l ∷ ls) = text_from (before f ++ l) ls

name_loop-encode :
    (left n : ℕ) (pkt : List ℕ) (pos : ℕ) (f : List ℕ) (ls : List (List ℕ)) (r : List ℕ)
    → Here pkt pos (encode ls ++ 0 ∷ r)
    → AreLabels ls
    → length ls ≤ left
    → name_loop left (suc n) pkt pos (take (suc n) f) ≡ got (take (suc n) (text_from f ls))
unfolding name_loop
name_loop-encode zero n pkt pos f [] r h a b =
    rw (name_turn-root (suc n) pkt pos (take (suc n) f) r h) refl
name_loop-encode (suc left) n pkt pos f [] r h a b =
    rw (name_turn-root (suc n) pkt pos (take (suc n) f) r h) refl
name_loop-encode zero n pkt pos f (l ∷ ls) r h a b = absurd (omega arith)
name_loop-encode (suc left) n pkt pos f (l ∷ ls) r h a b =
    rw (name_turn-label n pkt pos f l ls (0 ∷ r) h a.0 a.1) (
      name_loop-encode left n pkt (pos + 1 + length l) (before f ++ l) ls r
        (after_label pkt pos l ls (0 ∷ r) h) a.2 (omega arith))

text_from-dots :
    (x : ℕ) (f : List ℕ) (ls : List (List ℕ)) → text_from (x ∷ f) ls ≡ (x ∷ f) ++ dots ls
text_from-dots x f [] = sym (append-nil (x ∷ f))
text_from-dots x f (l ∷ ls) =
    text_from-dots x ((f ++ (b'.' ∷ [])) ++ l) ls
    ∙ ap (λ y. y ++ dots ls) (append_assoc (x ∷ f) (b'.' ∷ []) l)
    ∙ append_assoc (x ∷ f) (b'.' ∷ l) (dots ls)

kept :
    (outmax : ℕ) (out : List ℕ)
    → 0 < outmax
    → 0 < length out
    → (require (ltb 0 outmax && length out != 0) >> got out) ≡ got out
kept outmax out h g = ground arith

-- Labels that stand in a packet behind their lengths and before a zero are read as their text with
-- dots between, cut at the buffer's size less one for the NUL.
pub dns_name-encode :
    (pkt : List ℕ) (pos outmax : ℕ) (l : List ℕ) (ls : List (List ℕ)) (r : List ℕ)
    → Here pkt pos (encode (l ∷ ls) ++ 0 ∷ r)
    → AreLabels (l ∷ ls)
    → length (l ∷ ls) ≤ 128
    → 2 ≤ outmax
    → dns_name pkt pos outmax ≡ got (take (outmax - 1) (join (l ∷ ls)))
unfolding dns_name
dns_name-encode pkt pos outmax [] ls r h a b c = absurd (omega (arith, a.0))
dns_name-encode pkt pos outmax (x ∷ l) ls r h a b c =
    let read = name_loop-encode 128 (outmax - 2) pkt pos [] ((x ∷ l) ∷ ls) r h a b in
    let room : suc (outmax - 2) ≡ outmax - 1 = omega arith in
    let read' : name_loop 128 (suc (outmax - 2)) pkt pos []
        ≡ got (take (suc (outmax - 2)) ((x ∷ l) ++ dots ls)) =
      read ∙ ap (λ t. got (take (suc (outmax - 2)) t)) (text_from-dots x l ls) in
    rw (← room, read')
      (kept outmax (x ∷ take (outmax - 2) (l ++ dots ls)) (omega arith) (omega arith))
