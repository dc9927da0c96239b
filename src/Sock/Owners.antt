-- ===== src/Sock/Owners.antt =====
-- The owner slots of a socket: `sb_owner_first`, `sb_owner_incref` and `sb_owner_decref`. The slots
-- are a list (`SB_SOCK_OWNERS` of them in the code), and `fdrefs` is a `UWORD`.
use lwip_amiga.Base.{
  ℕ, suc, ◌+◌, ◌-◌, ◌%◌, ◌^◌, ◌<◌, ◌≡◌, inl, inr, refl, Option, none, some, List, [], ◌∷◌, ◌==◌,
  if◌then◌else◌, arith, Option-cases, ◌↔◌,
}
use lwip_amiga.Sock.State.{OwnerRef}

abbrev pub Slots : Type 0
Slots = List (Option OwnerRef)

unfoldable pub owner_first : Slots → Option ℕ
owner_first [] = none
owner_first (none ∷ rest) = owner_first rest
owner_first (some o ∷ rest) = some o.base

-- The loop of `sb_owner_incref` at a slot that holds the base.
unfoldable pub bump : Slots → ℕ → Option Slots
bump [] b = none
bump (none ∷ rest) b = elim (bump rest b) [ none ↦ none | some r ↦ some (none ∷ r) ]
bump (some o ∷ rest) b =
    let later : Option Slots = elim (bump rest b) [ none ↦ none | some r ↦ some (some o ∷ r) ] in
    if o.base == b
    then some (some (record o { fdrefs = (o.fdrefs + 1) % 2 ^ 16 }) ∷ rest)
    else later

-- The first empty slot, taken.
unfoldable pub claim : Slots → ℕ → Option Slots
claim [] b = none
claim (none ∷ rest) b = some (some (record { base = b; fdrefs = 1 }) ∷ rest)
claim (some o ∷ rest) b = elim (claim rest b) [ none ↦ none | some r ↦ some (some o ∷ r) ]

-- `none` is FALSE: as many distinct owners already as there are slots.
unfoldable pub owner_incref : Slots → ℕ → Option Slots
unfolding bump claim
owner_incref slots b = elim (bump slots b) [ none ↦ claim slots b | some r ↦ some r ]

unfoldable pub owner_decref : Slots → ℕ → Slots
owner_decref [] b = []
owner_decref (none ∷ rest) b = none ∷ owner_decref rest b
owner_decref (some o ∷ rest) b =
    let left = (o.fdrefs + 2 ^ 16 - 1) % 2 ^ 16 in
    let later = owner_decref rest b in
    if o.base == b
    then (if left == 0 then none else some (record o { fdrefs = left })) ∷ rest
    else some o ∷ later

-- The descriptors that a base is recorded to hold: those of the first slot that names it.
abbrev pub fdrefs_of : Slots → ℕ → ℕ
fdrefs_of [] b = 0
fdrefs_of (none ∷ rest) b = fdrefs_of rest b
fdrefs_of (some o ∷ rest) b = if o.base == b then o.fdrefs else fdrefs_of rest b

-- Every occupied slot counts at least one descriptor, within a UWORD, and no base has two slots.
abbrev pub IsOwners : Slots → Type 0
IsOwners [] = Unit {0}
IsOwners (none ∷ rest) = IsOwners rest
IsOwners (some o ∷ rest) =
    (0 < o.fdrefs) × (o.fdrefs < 2 ^ 16) × (fdrefs_of rest o.base ≡ 0) × IsOwners rest

bump-none : (slots : Slots) (b : ℕ) → bump slots b ≡ none → fdrefs_of slots b ≡ 0
unfolding bump
bump-none [] b e = refl
bump-none (none ∷ rest) b e = ground (arith, bump-none rest b)
bump-none (some o ∷ rest) b e = ground (arith, bump-none rest b)

-- What taking a reference promises of the slots that it returns.
abbrev Taken : Slots → ℕ → ℕ → Slots → Type 0
Taken slots b c slots' =
    IsOwners slots'
    × (fdrefs_of slots' c ≡ (if b == c then fdrefs_of slots c + 1 else fdrefs_of slots c))

bump-Taken :
    (slots : Slots) (b c : ℕ) (slots' : Slots)
    → IsOwners slots
    → fdrefs_of slots b < 2 ^ 16 - 1
    → bump slots b ≡ some slots'
    → Taken slots b c slots'
unfolding bump
bump-Taken [] b c s v h e = cc
bump-Taken (none ∷ rest) b c s v h e = elim (Option-cases (bump rest b)) [
  | inl n ↦ ground arith
  | inr (r, f) ↦ ground (arith, bump-Taken rest b c r v h f)
]
bump-Taken (some o ∷ rest) b c s v h e = elim (Option-cases (bump rest b)) [
  | inl n ↦ ground arith
  | inr (r, f) ↦ ground (arith, bump-Taken rest b c r v.3, bump-Taken rest b o.base r v.3)
]

claim-Taken :
    (slots : Slots) (b c : ℕ) (slots' : Slots)
    → IsOwners slots
    → fdrefs_of slots b ≡ 0
    → claim slots b ≡ some slots'
    → Taken slots b c slots'
unfolding claim
claim-Taken [] b c s v h e = cc
claim-Taken (none ∷ rest) b c s v h e = ground arith
claim-Taken (some o ∷ rest) b c s v h e = elim (Option-cases (claim rest b)) [
  | inl n ↦ ground arith
  | inr (r, f) ↦ ground (arith, claim-Taken rest b c r v.3, claim-Taken rest b o.base r v.3)
]

-- Taking a reference for a base adds one to the descriptors it is recorded to hold, keeps those of
-- every other base, and leaves the slots well-formed, below the bound of a UWORD.
pub owner_incref-IsOwners :
    (slots : Slots) (b c : ℕ) (slots' : Slots)
    → IsOwners slots
    → fdrefs_of slots b < 2 ^ 16 - 1
    → owner_incref slots b ≡ some slots'
    → IsOwners slots'
      × (fdrefs_of slots' c ≡ (if b == c then fdrefs_of slots c + 1 else fdrefs_of slots c))
unfolding owner_incref
owner_incref-IsOwners slots b c slots' v h e = elim (Option-cases (bump slots b)) [
  | inl n ↦ claim-Taken slots b c slots' v (bump-none slots b n) (ground arith)
  | inr (r, f) ↦ bump-Taken slots b c slots' v h (ground arith)
]

-- The number of empty slots.
abbrev pub empty_slots : Slots → ℕ
empty_slots [] = 0
empty_slots (none ∷ rest) = suc (empty_slots rest)
empty_slots (some o ∷ rest) = empty_slots rest

bump-some :
    (slots slots' : Slots) (b : ℕ)
    → IsOwners slots
    → bump slots b ≡ some slots'
    → 0 < fdrefs_of slots b
unfolding bump
bump-some [] s b v e = cc
bump-some (none ∷ rest) s b v e = elim (Option-cases (bump rest b)) [
  | inl n ↦ ground arith
  | inr (r, f) ↦ bump-some rest r b v f
]
bump-some (some o ∷ rest) s b v e = elim (Option-cases (bump rest b)) [
  | inl n ↦ ground arith
  | inr (r, f) ↦ ground (arith, bump-some rest r b v.3 f)
]

claim-none : (slots : Slots) (b : ℕ) → (claim slots b ≡ none) ↔ (empty_slots slots ≡ 0)
unfolding claim
claim-none [] b = (λ h. refl, λ h. refl)
claim-none (none ∷ rest) b = (λ h. cc, λ h. absurd (omega arith))
claim-none (some o ∷ rest) b = ground (arith, claim-none rest b)

-- Taking a reference is refused exactly when the base holds none and no slot is empty.
owner_incref-none :
    (slots : Slots) (b : ℕ)
    → IsOwners slots
    → (owner_incref slots b ≡ none) ↔ ((fdrefs_of slots b ≡ 0) × (empty_slots slots ≡ 0))
unfolding owner_incref
owner_incref-none slots b v = elim (Option-cases (bump slots b)) [
  | inl n ↦ ground (arith, claim-none slots b, bump-none slots b n)
  | inr (r, f) ↦ ground (arith, bump-some slots r b v f)
]

-- Dropping a reference of a base takes one from the descriptors it is recorded to hold, keeps those
-- of every other base, and leaves the slots well-formed.
pub owner_decref-IsOwners :
    (slots : Slots) (b c : ℕ)
    → IsOwners slots
    → IsOwners (owner_decref slots b)
      × (fdrefs_of (owner_decref slots b) c
          ≡ (if b == c then fdrefs_of slots c - 1 else fdrefs_of slots c))
unfolding owner_decref
owner_decref-IsOwners [] b c v = ground arith
owner_decref-IsOwners (none ∷ rest) b c v = owner_decref-IsOwners rest b c v
owner_decref-IsOwners (some o ∷ rest) b c v =
    ground (arith, owner_decref-IsOwners rest b c v.3, owner_decref-IsOwners rest b o.base v.3)
