-- ===== src/Tx/Rings.antt =====
-- A ring and the queue that it stands for.
use Prim.Native.Nat.{◌∣◌}
use native.Mathlib.Nat.{
  mod-lt, mod-add-mod, add-mod_right, one-le-pow, pow-le-pow_right, mod-mod_of_dvd, mod-eq_of_lt,
  pow-suc, dvd-mul_right_of_dvd, dvd_refl,
}
use lwip_amiga.Base.{
  ℕ, zero, suc, ◌+◌, ◌-◌, ◌%◌, ◌^◌, ◌<◌, ◌≤◌, ◌≡◌, ◌≢◌, inl, inr, sym, ap, ◌∙◌, true, false, List,
  [], ◌∷◌, ◌++◌, ltb, length, get_or, set, bit_and, arith, Bool-cases, length-set, append_assoc,
  append-nil, get_or-set_self, get_or-set_ne,
}
use lwip_amiga.Base.Bits.{bit_and_low}
use lwip_amiga.Tx.{Ring, queue_idle, queue_filled, queue_put, queue_first, queue_drop}
use lwip_amiga.Tx.Output.{stage}

-- The items of `n` slots from an index on.
abbrev pub items : List ℕ → ℕ → ℕ → ℕ → List ℕ
items slots mask zero i = []
items slots mask (suc n) i = get_or slots (bit_and i mask) 0 ∷ items slots mask n ((i + 1) % 2 ^ 32)

abbrev pub contents : Ring → List ℕ
contents r = items r.slots r.mask (queue_filled r) r.head

-- An array of 2 ^ k slots, no more of them in use than there are.
abbrev pub IsRing : ℕ → Ring → Type 0
IsRing k r =
    (k < 32)
    × (r.mask ≡ 2 ^ k - 1)
    × (length r.slots ≡ 2 ^ k)
    × (r.head < 2 ^ 32)
    × (r.tail < 2 ^ 32)
    × (queue_filled r ≤ 2 ^ k)

-- Two numbers less than the modulus apart.
mod-ne : (a d m : ℕ) → 0 < d → d < m → (a + d) % m ≢ a % m
mod-ne a d m p l e =
    let low : a % m < m = mod-lt a (omega arith) in
    let split : (a % m + d) % m ≡ (a + d) % m = mod-add-mod a m d in
    elim (Bool-cases (ltb (a % m + d) m)) [
      | inl z ↦
          let small : (a % m + d) % m ≡ a % m + d = mod-eq_of_lt (ground (arith, z)) in
          absurd (omega arith)
      | inr z ↦
          let more : a % m + d ≡ (a % m + d - m) + m = ground (arith, z) in
          let less : (a % m + d - m) % m ≡ a % m + d - m = mod-eq_of_lt (omega arith) in
          let turn : ((a % m + d - m) + m) % m ≡ (a % m + d - m) % m =
            add-mod_right (a % m + d - m) m in
          let whole : (a % m + d) % m ≡ ((a % m + d - m) + m) % m = ap (λ y. y % m) more in
          absurd (omega arith)
    ]

zero_right : (k : ℕ) → k + 0 ≡ k
zero_right k = omega arith

suc_right : (k j : ℕ) → k + suc j ≡ suc (k + j)
suc_right k j = omega arith

pow-dvd : (k j : ℕ) → 2 ^ k ∣ 2 ^ (k + j)
pow-dvd k zero = rw (zero_right k) (dvd_refl (2 ^ k))
pow-dvd k (suc j) =
    rw (suc_right k j, pow-suc 2 (k + j)) (dvd-mul_right_of_dvd (2 ^ k) (pow-dvd k j) 2)

turn_mod : (k a : ℕ) → k < 32 → a % 2 ^ 32 % 2 ^ k ≡ a % 2 ^ k
turn_mod k a h =
    let whole : k + (32 - k) ≡ 32 = omega arith in
    mod-mod_of_dvd (2 ^ k) a (rw whole at (pow-dvd k (32 - k)))

-- The slot behind the items in use is none of theirs.
slot-ne :
    (k mask i n tail : ℕ)
    → k < 32
    → mask ≡ 2 ^ k - 1
    → suc n < 2 ^ k
    → tail ≡ (i + suc n) % 2 ^ 32
    → bit_and tail mask ≢ bit_and i mask
slot-ne k mask i n tail h m l t e =
    let far : (i + suc n) % 2 ^ k ≢ i % 2 ^ k = mod-ne i (suc n) (2 ^ k) (omega arith) l in
    let at_tail : bit_and tail mask ≡ (i + suc n) % 2 ^ k =
      ap (bit_and tail) m ∙ bit_and_low k tail ∙ ap (λ y. y % 2 ^ k) t ∙ turn_mod k (i + suc n) h in
    let at_i : bit_and i mask ≡ i % 2 ^ k = ap (bit_and i) m ∙ bit_and_low k i in
    far (sym at_tail ∙ e ∙ at_i)

next_index : (i n tail : ℕ) → tail ≡ (i + suc n) % 2 ^ 32 → tail ≡ ((i + 1) % 2 ^ 32 + n) % 2 ^ 32
next_index i n tail t = omega arith

-- A write behind the items leaves them, and is the item after them.
items-set :
    (slots : List ℕ) (k mask n i tail x : ℕ)
    → k < 32
    → mask ≡ 2 ^ k - 1
    → length slots ≡ 2 ^ k
    → n < 2 ^ k
    → i < 2 ^ 32
    → tail ≡ (i + n) % 2 ^ 32
    → items (set slots (bit_and tail mask) x) mask (suc n) i ≡ items slots mask n i ++ (x ∷ [])
items-set slots k mask zero i tail x h m s l b t =
    let same : tail ≡ i = omega arith in
    let inside : bit_and tail mask < length slots = omega (
      arith,
      ap (bit_and tail) m,
      bit_and_low k tail,
      mod-lt tail (one-le-pow k 2 (omega arith)),
    ) in
    ap (λ y. y ∷ [])
      (ap (λ j. get_or (set slots (bit_and tail mask) x) (bit_and j mask) 0) (sym same)
        ∙ get_or-set_self slots (bit_and tail mask) x 0 inside)
items-set slots k mask (suc n) i tail x h m s l b t =
    let ne = slot-ne k mask i n tail h m l t in
    rw (get_or-set_ne slots x 0 ne) (
      ap (◌∷◌ (get_or slots (bit_and i mask) 0)) (
        items-set slots k mask n ((i + 1) % 2 ^ 32) tail x h m s (omega arith) (omega arith)
          (next_index i n tail t)))

pub pow_positive : (k : ℕ) → 0 < 2 ^ k
pow_positive k = one-le-pow k 2 (omega arith)

pub unfilled-contents : (r : Ring) → queue_filled r ≡ 0 → contents r ≡ []
unfilled-contents r e = ap (λ n. items r.slots r.mask n r.head) e

pub half : (k : ℕ) → k < 32 → 2 ^ k ≤ 2 ^ 31
half k h = pow-le-pow_right (omega arith) {j = 31} (omega arith)

queue_filled-queue_put :
    (k : ℕ) (r : Ring) (x : ℕ)
    → IsRing k r
    → queue_filled r < 2 ^ k
    → queue_filled (queue_put r x) ≡ suc (queue_filled r)
unfolding queue_put
queue_filled-queue_put k r x (h, m, s, a, b, f) l = omega (arith, half k h)

-- An item is put behind the others, where a slot is free.
pub queue_put-contents :
    (k : ℕ) (r : Ring) (x : ℕ)
    → IsRing k r
    → queue_filled r < 2 ^ k
    → IsRing k (queue_put r x)
      × (contents (queue_put r x) ≡ contents r ++ (x ∷ []))
      × (queue_filled (queue_put r x) ≡ suc (queue_filled r))
unfolding queue_put
queue_put-contents k r x v l =
    let (h, m, s, a, b, f) = v in
    let more = queue_filled-queue_put k r x v l in
    (
      (h, m, length-set r.slots (bit_and r.tail r.mask) x ∙ s, a, omega arith, omega (arith, more)),
      ap (λ n. items (set r.slots (bit_and r.tail r.mask) x) r.mask n r.head) more
          ∙ items-set r.slots k r.mask (queue_filled r) r.head r.tail x h m s l a (omega arith),
      more,
    )

-- The item at the head is taken, where there is one.
pub queue_drop-contents :
    (k : ℕ) (r : Ring)
    → IsRing k r
    → queue_idle r ≡ false
    → IsRing k (queue_drop r)
      × (contents r ≡ queue_first r ∷ contents (queue_drop r))
      × (queue_filled r ≡ suc (queue_filled (queue_drop r)))
unfolding queue_drop queue_first
queue_drop-contents k r v e =
    let (h, m, s, a, b, f) = v in
    let ne : r.head ≢ r.tail = ground (arith, e) in
    let less : queue_filled r ≡ suc (queue_filled (queue_drop r)) = ground (arith, ne) in
    (
      (h, m, s, omega arith, b, omega (arith, less)),
      ap (λ n. items r.slots r.mask n r.head) less,
      less,
    )

-- An empty ring.
pub idle-contents : (r : Ring) → queue_idle r ≡ true → (contents r ≡ []) × (queue_filled r ≡ 0)
idle-contents r e =
    let same : r.head ≡ r.tail = ground (arith, e) in
    let none_in : queue_filled r ≡ 0 = omega arith in (unfilled-contents r none_in, none_in)

-- Items put one behind the other, where there are slots for all.
pub stage-contents :
    (k : ℕ) (r : Ring) (cs : List ℕ)
    → IsRing k r
    → queue_filled r + length cs ≤ 2 ^ k
    → IsRing k (stage r cs) × (contents (stage r cs) ≡ contents r ++ cs)
unfolding stage
stage-contents k r [] v l = (v, sym (append-nil (contents r)))
stage-contents k r (c ∷ cs) v l =
    let (v', more, count) = queue_put-contents k r c v (omega arith) in
    let (v'', rest) = stage-contents k (queue_put r c) cs v' (omega (arith, count)) in
    (v'', rest ∙ ap (λ y. y ++ cs) more ∙ append_assoc (contents r) (c ∷ []) cs)
