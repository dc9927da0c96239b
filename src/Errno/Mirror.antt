-- ===== src/Errno/Mirror.antt =====
-- What a caller that registered a cell by SetErrnoPtr reads there after an error is set.
use lwip_amiga.Base.{
  ℕ, ◌+◌, ◌*◌, ◌%◌, ◌^◌, ◌≤◌, ◌<◌, ◌≡◌, ◌≢◌, ◌⊎◌, inl, inr, refl, Option, none, some, ◌==◌,
  if◌then◌else◌, arith,
}
use lwip_amiga.Errno.{Memory, ErrCells, set_errno, set_errno_ptr, errno, store8, store16, store32}

-- The big-endian number in `size` bytes (1, 2 or 4) at an address.
abbrev pub load : Memory → ℕ → ℕ → ℕ
load m p size =
    if size == 1
    then m p
    else if size == 2
    then m p * 2 ^ 8 + m (p + 1)
    else ((m p * 2 ^ 8 + m (p + 1)) * 2 ^ 8 + m (p + 2)) * 2 ^ 8 + m (p + 3)

-- The three widths of a registered cell.
store8_lem :
    (m : Memory) (p q code : ℕ)
    → (q < p) ⊎ (p + 1 ≤ q)
    → (load (store8 m p code) p 1 ≡ code % 2 ^ 8) × (store8 m p code q ≡ m q)
unfolding store8
store8_lem m p q code h = ground arith

store16_lem :
    (m : Memory) (p q code : ℕ)
    → (q < p) ⊎ (p + 2 ≤ q)
    → (load (store16 m p code) p 2 ≡ code % 2 ^ 16) × (store16 m p code q ≡ m q)
unfolding store16
store16_lem m p q code h = ground arith

store32_lem :
    (m : Memory) (p q code : ℕ)
    → (q < p) ⊎ (p + 4 ≤ q)
    → (load (store32 m p code) p 4 ≡ code % 2 ^ 32) × (store32 m p code q ≡ m q)
unfolding store32
store32_lem m p q code h = ground arith

-- After SetErrnoPtr with a pointer and a size of 1, 2 or 4, setting an error code leaves the code in
-- the opener's own cell and its low `size` bytes in the registered one, and keeps any byte `q`
-- outside that cell.
pub set_errno-set_errno_ptr :
    (e : ErrCells) (m : Memory) (p size code q : ℕ)
    → (size ≡ 1) ⊎ (size ≡ 2) ⊎ (size ≡ 4)
    → (q < p) ⊎ (p + size ≤ q)
    → let (e', m') = set_errno (set_errno_ptr e (some p) size) m code in
      (errno e' ≡ code) × (load m' p size ≡ code % 2 ^ (8 * size)) × (m' q ≡ m q)
unfolding set_errno set_errno_ptr errno
set_errno-set_errno_ptr e m p size code q s h = elim s [
  | inl one ↦ let cell = store8_lem m p q code (rw one at h) in rw one (refl, cell.0, cell.1)
  | inr (inl two) ↦ let cell = store16_lem m p q code (rw two at h) in rw two (refl, cell.0, cell.1)
  | inr (inr four) ↦
      let cell = store32_lem m p q code (rw four at h) in rw four (refl, cell.0, cell.1)
]

-- After SetErrnoPtr with the NULL pointer or any other size, setting an error code leaves the code
-- in the opener's own cell, and keeps every byte of the caller's memory.
set_errno_unregistered :
    (e : ErrCells) (m : Memory) (ptr : Option ℕ) (size code q : ℕ)
    → (ptr ≡ none) ⊎ ((size ≢ 1) × (size ≢ 2) × (size ≢ 4))
    → let (e', m') = set_errno (set_errno_ptr e ptr size) m code in (errno e' ≡ code) × (m' q ≡ m q)
unfolding set_errno set_errno_ptr errno
set_errno_unregistered e m none size code q s = (refl, refl)
set_errno_unregistered e m (some p) size code q s = ground arith
