-- ===== src/Log/Queue.antt =====
-- The entries of the ring, read around its end from the oldest, and how a write changes them.
use lwip_amiga.Base.{
  ℕ, zero, suc, ◌+◌, ◌-◌, ◌%◌, ◌≤◌, ◌<◌, ◌≡◌, refl, sym, ◌∙◌, ap, List, [], ◌∷◌, ◌++◌, map, arith,
  length, get_or, set, drop, length-append, get_or-set_self, get_or-set_ne,
}
use lwip_amiga.Log.{Entry, ring_size, blank, message_of, replay_from}

-- The newest entries, as many as the ring has room for.
abbrev pub newest : List Entry → List Entry
newest es = drop (length es - ring_size) es

-- `n` entries from index `i`, around the end of the ring.
abbrev pub entries_from : List Entry → ℕ → ℕ → List Entry
entries_from es i zero = []
entries_from es i (suc n) = get_or es i blank ∷ entries_from es ((i + 1) % ring_size) n

abbrev pub contents_of : List Entry → ℕ → ℕ → List Entry
contents_of es head count = entries_from es ((head + ring_size - count) % ring_size) count

pub replay_from-entries :
    (h : ℕ) (es : List Entry) (i n : ℕ)
    → replay_from h es i n ≡ map (λ e. (h, message_of e)) (entries_from es i n)
unfolding replay_from
replay_from-entries h es i zero = refl
replay_from-entries h es i (suc n) =
    ap (λ t. (h, message_of (get_or es i blank)) ∷ t)
      (replay_from-entries h es ((i + 1) % ring_size) n)

entries_from-snoc :
    (es : List Entry) (i n : ℕ)
    → i < 16
    → entries_from es i (suc n) ≡ entries_from es i n ++ (get_or es ((i + n) % 16) blank ∷ [])
entries_from-snoc es i zero h = ground arith
entries_from-snoc es i (suc n) h = ground (arith, entries_from-snoc es ((i + 1) % 16) n)

pub length-entries_from : (es : List Entry) (i n : ℕ) → length (entries_from es i n) ≡ n
length-entries_from es i zero = refl
length-entries_from es i (suc n) = ap suc (length-entries_from es ((i + 1) % 16) n)

-- A write outside of the `n` entries from `i` is not seen there.
entries_from-set :
    (es : List Entry) (e : Entry) (i n h d : ℕ)
    → i < 16
    → h ≡ (i + d) % 16
    → n ≤ d
    → d < 16
    → entries_from (set es h e) i n ≡ entries_from es i n
entries_from-set es e i zero h d a b c k = refl
entries_from-set es e i (suc n) h zero a b c k = absurd (omega arith)
entries_from-set es e i (suc n) h (suc d) a b c k = ground (
  arith,
  get_or-set_ne es {i = h} {j = i} e blank (λ z. omega arith),
  entries_from-set es e ((i + 1) % 16) n h d (omega arith) (omega arith) (omega arith)
      (omega arith),
)

pub drop-zero : (n : ℕ) (xs : List Entry) → n ≡ 0 → drop n xs ≡ xs
drop-zero zero xs e = refl
drop-zero (suc n) xs e = absurd (omega arith)

index_after : (h c : ℕ) → h < 16 → c < 16 → ((h + 1) % 16 + 16 - suc c) % 16 ≡ (h + 16 - c) % 16
index_after h c a b = omega arith

index_end : (h c : ℕ) → h < 16 → c < 16 → ((h + 16 - c) % 16 + c) % 16 ≡ h
index_end h c a b = omega arith

-- Room left: the entry goes behind the others.
pub put_room :
    (es : List Entry) (e : Entry) (h c : ℕ)
    → length es ≡ 16
    → h < 16
    → c < 16
    → contents_of (set es h e) ((h + 1) % 16) (suc c) ≡ contents_of es h c ++ (e ∷ [])
put_room es e h c l a b =
    let i = (h + 16 - c) % 16 in
    let es' = set es h e in
    ap (λ j. entries_from es' j (suc c)) (index_after h c a b)
    ∙ entries_from-snoc es' i c (omega arith)
    ∙ ground (
      arith,
      index_end h c a b,
      entries_from-set es e i c h c (omega arith) (sym (index_end h c a b)) (omega arith) b,
      get_or-set_self es h e blank (omega arith),
    )

-- No room: the oldest entry, which stands where the next is written, goes.
pub put_full :
    (es : List Entry) (e : Entry) (h : ℕ)
    → length es ≡ 16
    → h < 16
    → contents_of (set es h e) ((h + 1) % 16) 16 ≡ drop 1 (contents_of es h 16 ++ (e ∷ []))
put_full es e h l a =
    let i = (h + 1) % 16 in
    let es' = set es h e in
    let at_end : (i + 15) % 16 ≡ h = omega arith in
    let at_i : (i + 16 - 16) % 16 ≡ i = omega arith in
    let at_h : (h + 16 - 16) % 16 ≡ h = omega arith in
    ap (λ j. entries_from es' j 16) at_i
    ∙ entries_from-snoc es' i 15 (omega arith)
    ∙ ground (
      arith,
      at_end,
      at_h,
      entries_from-set es e i 15 h 15 (omega arith) (sym at_end) (omega arith) (omega arith),
      get_or-set_self es h e blank (omega arith),
    )

suc_plus : (b a : ℕ) → suc (b + a) ≡ suc b + a
suc_plus b a = omega arith

-- Of what is left of a list's newest entries and more behind them, the newest are those of the whole.
drop-drop : (a b : ℕ) (xs : List Entry) → drop a (drop b xs) ≡ drop (b + a) xs
drop-drop a zero xs = ap (λ n. drop n xs) (omega arith)
drop-drop zero (suc b) [] = grind arith
drop-drop (suc a) (suc b) [] = grind arith
drop-drop a (suc b) (x ∷ xs) = drop-drop a b xs ∙ ap (λ n. drop n (x ∷ xs)) (suc_plus b a)

drop-append : (n : ℕ) (xs ys : List Entry) → n ≤ length xs → drop n (xs ++ ys) ≡ drop n xs ++ ys
drop-append zero xs ys h = refl
drop-append (suc n) [] ys h = absurd (omega arith)
drop-append (suc n) (x ∷ xs) ys h = drop-append n xs ys (omega arith)

length-drop : (n : ℕ) (xs : List Entry) → length (drop n xs) ≡ length xs - n
length-drop zero xs = omega arith
length-drop (suc n) [] = omega arith
length-drop (suc n) (x ∷ xs) = omega (arith, length-drop n xs)

pub newest-newest : (xs ys : List Entry) → newest (newest xs ++ ys) ≡ newest (xs ++ ys)
newest-newest xs ys =
    let k = length xs - 16 in
    let rest = drop k xs ++ ys in
    let left = length rest - 16 in
    ap (λ t. drop left t) (sym (drop-append k xs ys (omega arith)))
    ∙ drop-drop left k (xs ++ ys)
    ∙ ap (λ n. drop n (xs ++ ys))
        (omega (arith, length-append (drop k xs) ys, length-append xs ys, length-drop k xs))
