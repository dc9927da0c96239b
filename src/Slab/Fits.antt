-- ===== src/Slab/Fits.antt =====
-- What holds of the blocks handed out whatever the memory holds.
use lwip_amiga.Base.{
  ℕ, zero, suc, ◌+◌, ◌-◌, ◌≤◌, ◌<◌, ◌≡◌, ◌≢◌, inl, inr, refl, true, ◌&&◌, Option, none, some, ◌==◌,
  ◌!=◌, leb, arith, Bool-cases, ==_refl, u32_mod,
}
use native.Mathlib.Nat.{le_trans, le_refl}
use lwip_amiga.Slab.{
  Origin, slab, slab_exec, dma, exec, free, other, Header, Mem, update, slot_size, arena_slots, key,
  link_slots, grow, is_free, pop, one_off, take_slot, class_of, total_of, malloc,
}

link_slots_free :
    (n s size : ℕ) (header : ℕ → Header) (head : ℕ)
    → (header head).origin ≡ free
    → let r = link_slots n s size header head in (r.0 r.1).origin ≡ free
unfolding link_slots
link_slots_free zero s size header head e = e
link_slots_free (suc n) s size header head e =
    link_slots_free n (s + size) size (update header s (record { size = head; origin = free })) s
      (rw (==_refl s) refl)

link_slots_some :
    (n s size : ℕ) (header : ℕ → Header) (head : ℕ)
    → 0 < n
    → let r = link_slots n s size header head in (r.0 r.1).origin ≡ free
unfolding link_slots
link_slots_some zero s size header head h = absurd (omega arith)
link_slots_some (suc n) s size header head h =
    link_slots_free n (s + size) size (update header s (record { size = head; origin = free })) s
      (rw (==_refl s) refl)

grow_free :
    (m : Mem) (cls : ℕ) (arena : Option ℕ)
    → (grow m cls arena).1 ≡ true
    → let m' = (grow m cls arena).0 in (m'.header (m'.heads (key m.attached cls))).origin ≡ free
unfolding grow
grow_free m cls none e = cc
grow_free m cls (some a) e = rw (==_refl (key m.attached cls)) (
    link_slots_some (arena_slots cls) (a + 64) (slot_size cls) m.header
      (m.heads (key m.attached cls)) (ground arith))

is_free-eq : (o : Origin) → is_free o ≡ true → o ≡ free
is_free-eq free e = refl
is_free-eq (slab c) e = cc
is_free-eq (slab_exec c) e = cc
is_free-eq dma e = cc
is_free-eq exec e = cc
is_free-eq (other w) e = cc

-- Whatever a client has written over the links: a slot that is taken for an allocation is stamped free,
-- and so is neither in use nor foreign memory.
take_slot_free :
    (m : Mem) (cls : ℕ) (arena : Option ℕ)
    → (take_slot m cls arena).1 ≢ 0
    → ((take_slot m cls arena).0.header (take_slot m cls arena).1).origin ≡ free
unfolding take_slot
take_slot_free m cls arena n =
    let k = key m.attached cls in
    let g = grow m cls arena in
    let dropped : Mem = record m { heads = update m.heads k 0 } in
    elim (Bool-cases (m.heads k == 0 && g.1)) [
      | inl z ↦ ground (arith, n, z, grow_free m cls arena)
      | inr z ↦ elim (Bool-cases (is_free (m.header (m.heads k)).origin)) [
        | inl y ↦ ground (arith, n, z, y, is_free-eq (m.header (m.heads k)).origin)
        | inr y ↦ ground (arith, n, z, y, grow_free dropped cls arena)
      ]
    ]

class_fits : (total : ℕ) → leb total 65600 ≡ true → total ≤ slot_size (class_of total)
class_fits total z = ground arith

behind : (a : ℕ) → a + 8 - 8 ≡ a
behind a = omega arith

pop_fits :
    (m : Mem) (cls s total : ℕ)
    → total ≤ slot_size cls
    → let (m', p) = pop m cls s in total ≤ (m'.header (p - 8)).size
unfolding pop
pop_fits m cls s total h = rw (behind s, ==_refl s) h

one_off_fits :
    (m : Mem) (total : ℕ) (block : Option ℕ)
    → (one_off m total block).1 ≢ 0
    → let (m', p) = one_off m total block in total ≤ (m'.header (p - 8)).size
unfolding one_off
one_off_fits m total none n = absurd (n refl)
one_off_fits m total (some h) n = rw (behind h, ==_refl h) (le_refl total)

-- A block is at least as long as the request and its header, unless that overflows a ULONG.
malloc_fits :
    (m : Mem) (size : ℕ) (arena block : Option ℕ)
    → size + 11 < u32_mod
    → (malloc m size arena block).1 ≢ 0
    → let (m', p) = malloc m size arena block in size + 8 ≤ (m'.header (p - 8)).size
unfolding malloc
malloc_fits m size arena block l n =
    let total = total_of size in
    let cls = class_of total in
    let r = take_slot m cls arena in
    let enough : size + 8 ≤ total = omega (arith, l) in
    elim (Bool-cases (leb total 65600)) [
      | inl z ↦ elim (Bool-cases (r.1 != 0)) [
        | inl y ↦ rw (z, y) (le_trans enough (pop_fits r.0 cls r.1 total (class_fits total z)))
        | inr y ↦ rw (z, y) (le_trans enough (one_off_fits r.0 total block (rw (z, y) at n)))
      ]
      | inr z ↦ rw z (le_trans enough (one_off_fits m total block (rw z at n)))
    ]
