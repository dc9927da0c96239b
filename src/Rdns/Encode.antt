-- ===== src/Rdns/Encode.antt =====
-- Names as packets hold them: each label behind its length, and positions in a packet by what
-- follows them.
use lwip_amiga.Base.{
  ℕ, zero, suc, ◌+◌, ◌/◌, ◌^◌, ◌<◌, ◌≡◌, refl, sym, ap, ◌∙◌, false, List, [], ◌∷◌, ◌++◌, length,
  drop, length-append, append_assoc, arith,
}
use lwip_amiga.Base.Bits.{bit_and_high, bit_and_low}
use lwip_amiga.Rdns.{got, byte_at, is_pointer}

abbrev pub encode : List (List ℕ) → List ℕ
encode [] = []
encode (l ∷ ls) = length l ∷ l ++ encode ls

-- Labels that DNS allows.
abbrev pub AreLabels : List (List ℕ) → Type 0
AreLabels [] = Unit {0}
AreLabels (l ∷ ls) = (0 < length l) × (length l < 64) × AreLabels ls

-- The labels joined by dots.
abbrev pub dots : List (List ℕ) → List ℕ
dots [] = []
dots (l ∷ ls) = b'.' ∷ l ++ dots ls

abbrev pub join : List (List ℕ) → List ℕ
join [] = []
join (l ∷ ls) = l ++ dots ls

-- The packet goes on with `r` from the position.
abbrev pub Here : List ℕ → ℕ → List ℕ → Type 0
Here pkt pos r = (drop pos pkt ≡ r) × (pos + length r ≡ length pkt)

pub Here-byte :
    (pkt : List ℕ) (pos x : ℕ) (r : List ℕ) → Here pkt pos (x ∷ r) → byte_at pkt pos ≡ got x
Here-byte [] pos x r h = absurd (omega (arith, h.1))
Here-byte (y ∷ pkt) zero x r h = ground (arith, h.0)
Here-byte (y ∷ pkt) (suc pos) x r h = Here-byte pkt pos x r (h.0, omega (arith, h.1))

drop-nil : (n : ℕ) → drop {A = ℕ} n [] ≡ []
drop-nil zero = refl
drop-nil (suc n) = refl

drop_at : (xs : List ℕ) {m n : ℕ} → m ≡ n → drop m xs ≡ drop n xs
drop_at xs e = ap (λ k. drop k xs) e

drop-drop : (p k : ℕ) (xs : List ℕ) → drop (p + k) xs ≡ drop k (drop p xs)
drop-drop zero k xs = drop_at xs (omega arith)
drop-drop (suc p) k [] = drop-nil (suc p + k) ∙ sym (drop-nil k)
drop-drop (suc p) k (x ∷ xs) =
    let next : suc p + k ≡ suc (p + k) = omega arith in drop_at (x ∷ xs) next ∙ drop-drop p k xs

drop-append : (xs r : List ℕ) → drop (length xs) (xs ++ r) ≡ r
drop-append [] r = refl
drop-append (x ∷ xs) r = drop-append xs r

pub Here-append :
    (pkt : List ℕ) (pos : ℕ) (xs r : List ℕ) → Here pkt pos (xs ++ r) → Here pkt (pos + length xs) r
Here-append pkt pos xs r h = (
  drop-drop pos (length xs) pkt ∙ ap (drop (length xs)) h.0 ∙ drop-append xs r,
  omega (arith, h.1, length-append xs r),
)

pub Here-start : (xs r : List ℕ) → Here (xs ++ r) (length xs) r
Here-start [] r = (refl, omega arith)
Here-start (x ∷ xs) r = let h = Here-start xs r in (h.0, omega (arith, h.1))

pub small-is_pointer : (b : ℕ) → b < 64 → is_pointer b ≡ false
small-is_pointer b h = ground (arith, bit_and_high 6 3 b, bit_and_low 2 (b / 2 ^ 6))

pub after_label :
    (pkt : List ℕ) (pos : ℕ) (l : List ℕ) (ls : List (List ℕ)) (r : List ℕ)
    → Here pkt pos (encode (l ∷ ls) ++ r)
    → Here pkt (pos + 1 + length l) (encode ls ++ r)
after_label pkt pos l ls r h =
    let here : Here pkt pos ((length l ∷ l) ++ (encode ls ++ r)) = (
      h.0 ∙ ap (◌∷◌ (length l)) (append_assoc l (encode ls) r),
      omega (
        arith,
        h.1,
        length-append l (encode ls ++ r),
        length-append (l ++ encode ls) r,
        length-append l (encode ls),
        length-append (encode ls) r,
      ),
    ) in
    let p : pos + length (length l ∷ l) ≡ pos + 1 + length l = omega arith in
    rw p at (Here-append pkt pos (length l ∷ l) (encode ls ++ r) here)
