-- ===== src/Pass/Unique.antt =====
-- The ids of the parking lot: the loop for a unique id ends, and no two entries share an id.
use lwip_amiga.Base.{
  ℕ, zero, suc, ◌+◌, ◌-◌, ◌%◌, ◌^◌, ◌<◌, ◌≤◌, ◌≡◌, ◌≢◌, inl, inr, sym, ◌∙◌, true, false, none, some,
  List, [], ◌∷◌, ◌==◌, leb, if◌then◌else◌, length, arith, Bool-cases, Option-cases, ==→eq,
}
use lwip_amiga.Pass.{Parked}
use lwip_amiga.Pass.Release.{released_find, is_some, next_of, unique_id}

-- The id tried after `k` that are taken.
abbrev tried : ℕ → ℕ → ℕ
tried n k = (n - 1 + k) % (2 ^ 31 - 1) + 1

without : List Parked → ℕ → List Parked
without [] id = []
without (r ∷ rs) id = let later = without rs id in if r.id == id then later else r ∷ later

find-without :
    (rs : List Parked) (id i : ℕ)
    → i ≢ id
    → is_some (released_find rs i) ≡ true
    → is_some (released_find (without rs id) i) ≡ true
unfolding released_find without
find-without [] id i ne h = h
find-without (r ∷ rs) id i ne h = elim (Bool-cases (r.id == i)) [
  | inl z ↦ elim (Bool-cases (r.id == id)) [
    | inl y ↦ absurd (ne (sym (==→eq r.id i z) ∙ ==→eq r.id id y))
    | inr y ↦ ground (arith, z, y)
  ]
  | inr z ↦ elim (Bool-cases (r.id == id)) [
    | inl y ↦ ground (arith, z, y, h, find-without rs id i ne)
    | inr y ↦ ground (arith, z, y, h, find-without rs id i ne)
  ]
]

length-without_le : (rs : List Parked) (id : ℕ) → length (without rs id) ≤ length rs
unfolding without
length-without_le [] id = omega arith
length-without_le (r ∷ rs) id = ground (arith, length-without_le rs id)

length-without :
    (rs : List Parked) (id : ℕ)
    → is_some (released_find rs id) ≡ true
    → length (without rs id) < length rs
unfolding released_find without
length-without [] id h = cc
length-without (r ∷ rs) id h = elim (Bool-cases (r.id == id)) [
  | inl z ↦ ground (arith, z, length-without_le rs id)
  | inr z ↦ ground (arith, z, h, length-without rs id)
]

-- As many ids as are tried in a row and found parked, so many entries are there.
tried-length :
    (fuel n : ℕ) (rs : List Parked)
    → ((k : ℕ) → k < fuel → is_some (released_find rs (tried n k)) ≡ true)
    → fuel ≤ 2 ^ 31 - 1
    → fuel ≤ length rs
tried-length zero n rs h b = omega arith
tried-length (suc fuel) n rs h b =
    let last = length-without rs (tried n fuel) (h fuel (omega arith)) in
    let rest =
      tried-length fuel n (without rs (tried n fuel))
        (λ k l. find-without rs (tried n fuel) (tried n k) (λ e. omega arith) (h k (omega arith)))
        (omega arith) in
    omega arith

-- What `nextSockId` is: positive, as a LONG.
abbrev pub IsId : ℕ → Type 0
IsId n = (0 < n) × (n < 2 ^ 31)

next_of-IsId : (n : ℕ) → IsId n → IsId (next_of n)
next_of-IsId n h = ground arith

tried-next_of : (n k : ℕ) → IsId n → tried (next_of n) k ≡ tried n (suc k)
tried-next_of n k h = elim (Bool-cases (leb (2 ^ 31) ((n + 1) % 2 ^ 32))) [
  | inl z ↦ let last : n ≡ 2 ^ 31 - 1 = ground (arith, z) in rw z (omega arith)
  | inr z ↦ let small : n + 1 < 2 ^ 31 = ground (arith, z) in rw z (omega arith)
]

-- A turn that ends with no id found its own taken.
turn-none :
    (fuel n : ℕ) (rs : List Parked)
    → unique_id (suc fuel) rs n ≡ none
    → (is_some (released_find rs n) ≡ true) × (unique_id fuel rs (next_of n) ≡ none)
unfolding unique_id
turn-none fuel n rs e = elim (Bool-cases (is_some (released_find rs n))) [
  | inl z ↦ ground (arith, z, e)
  | inr z ↦ absurd (ground (arith, z, e))
]

all_tried :
    (fuel n : ℕ) (rs : List Parked)
    → IsId n
    → unique_id fuel rs n ≡ none
    → (k : ℕ) → k < fuel
    → is_some (released_find rs (tried n k)) ≡ true
all_tried zero n rs i e k l = absurd (omega arith)
all_tried (suc fuel) n rs i e zero l =
    let self : tried n 0 ≡ n = omega (arith, i.0, i.1) in rw self (turn-none fuel n rs e).0
all_tried (suc fuel) n rs i e (suc k) l =
    rw (← tried-next_of n k i)
      (all_tried fuel (next_of n) rs (next_of-IsId n i) (turn-none fuel n rs e).1 k (omega arith))

unique_id-free :
    (fuel n : ℕ) (rs : List Parked) (u : ℕ × ℕ)
    → IsId n
    → unique_id fuel rs n ≡ some u
    → (is_some (released_find rs u.0) ≡ false) × IsId u.0 × IsId u.1
unfolding unique_id
unique_id-free zero n rs u i e = cc
unique_id-free (suc fuel) n rs u i e = elim (Bool-cases (is_some (released_find rs n))) [
  | inl z ↦ unique_id-free fuel (next_of n) rs u (next_of-IsId n i) (ground (arith, z, e))
  | inr z ↦ ground (arith, z, e, next_of-IsId n i)
]

-- With fewer entries parked than there are ids, the loop for a unique id ends within as many turns as
-- there are entries and one more, with a positive id that no entry has, and a positive `nextSockId`.
pub unique_id_found :
    (n : ℕ) (rs : List Parked)
    → IsId n
    → length rs < 2 ^ 31 - 1
    → (u : ℕ × ℕ) × (unique_id (suc (length rs)) rs n ≡ some u)
      × (is_some (released_find rs u.0) ≡ false)
      × IsId u.0
      × IsId u.1
unique_id_found n rs i b = elim (Option-cases (unique_id (suc (length rs)) rs n)) [
  | inl e ↦
      let many =
        tried-length (suc (length rs)) n rs (all_tried (suc (length rs)) n rs i e) (omega arith) in
      absurd (omega arith)
  | inr (u, e) ↦
      let (free, a, c) = unique_id-free (suc (length rs)) n rs u i e in (u, e, free, a, c)
]
